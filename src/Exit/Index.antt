-- ===== src/Exit/Index.antt =====
-- The secondary index of crates/core/src/exit_management/handler.rs: `pending_by_primary`, from an
-- entry order to the placeholders of its exit legs.
use trading_gateway.Base.{
  inr, inl, Option-cases, String, Bool, true, false, not, ◌||◌, Option, none, some, List, [], ◌∷◌,
  ◌++◌, any, retain, is_empty, ◌==◌, string_eq, ◌≡◌, refl, arith, if◌then◌else◌,
}
use trading_gateway.Base.Map.{Map, lookup, insert, remove, lookup-insert, lookup-remove}

abbrev pub Index : Type 0
Index = Map String (List String)

abbrev pub or_empty : Option (List String) → List String
or_empty none = []
or_empty (some ids) = ids

-- `get_placeholders_for_primary`
unfoldable pub placeholders : String → Index → List String
placeholders primary_order_id m = or_empty (lookup primary_order_id m)

-- `HashSet::contains`, on the elements of the set.
abbrev pub member : String → List String → Bool
member id ids = any (λ x. x == id) ids

unfoldable pub add_to_secondary_index : String → String → Index → Index
unfolding placeholders
add_to_secondary_index primary_order_id placeholder_id m =
    insert primary_order_id (placeholders primary_order_id m ++ placeholder_id ∷ []) m

unfoldable pub extend_secondary_index : String → List String → Index → Index
unfolding placeholders
extend_secondary_index primary_order_id placeholder_ids m =
    insert primary_order_id (placeholders primary_order_id m ++ placeholder_ids) m

unfoldable pub remove_batch_from_secondary_index : String → List String → Index → Index
remove_batch_from_secondary_index primary_order_id to_remove m = elim (lookup primary_order_id m) [
  | none ↦ m
  | some ids ↦
      let kept = retain (λ id. not (member id to_remove)) ids in
      if is_empty kept then remove primary_order_id m else insert primary_order_id kept m
]

pub placeholders-add :
    (p q id : String) (m : Index)
    → placeholders q (add_to_secondary_index p id m)
      ≡ (if p == q then placeholders q m ++ id ∷ [] else placeholders q m)
unfolding placeholders add_to_secondary_index
placeholders-add p q id m =
    ground (arith, string_eq.beq_iff p q, lookup-insert p q (placeholders p m ++ id ∷ []) m)

pub placeholders-extend :
    (p q : String) (ids : List String) (m : Index)
    → placeholders q (extend_secondary_index p ids m)
      ≡ (if p == q then placeholders q m ++ ids else placeholders q m)
unfolding placeholders extend_secondary_index
placeholders-extend p q ids m =
    ground (arith, string_eq.beq_iff p q, lookup-insert p q (placeholders p m ++ ids) m)

pub placeholders-remove :
    (p q : String) (m : Index)
    → placeholders q (remove p m) ≡ (if p == q then [] else placeholders q m)
unfolding placeholders
placeholders-remove p q m = ground (arith, lookup-remove p q m)

nil_of_is_empty : (xs : List String) → is_empty xs ≡ true → xs ≡ []
nil_of_is_empty [] h = refl
nil_of_is_empty (x ∷ xs) h = cc

pub placeholders-remove_batch :
    (p q : String) (to_remove : List String) (m : Index)
    → placeholders q (remove_batch_from_secondary_index p to_remove m) ≡ (
        if p == q
        then retain (λ id. not (member id to_remove)) (placeholders q m)
        else placeholders q m)
unfolding placeholders remove_batch_from_secondary_index
placeholders-remove_batch p q to_remove m = elim (Option-cases (lookup p m)) [
  | inl e ↦ ground (arith, string_eq.beq_iff p q)
  | inr (ids, e) ↦
      let kept = retain (λ id. not (member id to_remove)) ids in
      ground (
        arith,
        string_eq.beq_iff p q,
        lookup-remove p q m,
        lookup-insert p q kept m,
        nil_of_is_empty kept,
      )
]

pub member-append :
    (id : String) (xs ys : List String) → member id (xs ++ ys) ≡ (member id xs || member id ys)
member-append id [] ys = refl
member-append id (x ∷ xs) ys = ground (arith, member-append id xs ys)

pub member-retain :
    (id : String) (to_remove xs : List String)
    → member id to_remove ≡ false
    → member id (retain (λ x. not (member x to_remove)) xs) ≡ member id xs
member-retain id to_remove [] h = refl
member-retain id to_remove (x ∷ xs) h =
    ground (arith, string_eq.beq_iff x id, member-retain id to_remove xs h)
