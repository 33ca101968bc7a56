-- ===== src/Exit/Cancellation/Removal.antt =====
-- The two removals of crates/core/src/exit_management/cancellation.rs: entries that failed, and
-- entries older than their time to live, leave both maps.
use trading_gateway.Base.{
  String, Bool, true, false, ◌&&◌, not, Option, none, some, List, [], ◌∷◌, ◌++◌, ◌==◌, string_eq,
  nat_eq, filter_map, if◌then◌else◌, ◌≡◌, inl, inr, refl, arith, Option-cases, is_some,
}
use trading_gateway.Base.Map.{Map, lookup, insert, remove, keys, lookup-remove}
use trading_gateway.Exit.Types.{Now, leg_eq, ExitEntry}
use trading_gateway.Exit.Index.{
  Index, placeholders, member, add_to_secondary_index, remove_batch_from_secondary_index,
  placeholders-remove_batch, member-append, member-retain,
}
use trading_gateway.Exit.Handler.{Handler}
use trading_gateway.Exit.Cancellation.{
  remove_grouped, forget_removed, remove_entries, clear_failed_entries, cleanup_expired_entries,
  failed_key, failed_status, expired_key, is_expired,
}
use trading_gateway.Exit.Invariant.{IsConsistent}

-- No group mentions the id.
abbrev free : String → Index → Bool
free k [] = true
free k ((p, ids) ∷ groups) = not (member k ids) && free k groups

free-insert :
    (k p : String) (ids : List String) (groups : Index)
    → free k groups ≡ true
    → member k ids ≡ false
    → free k (insert p ids groups) ≡ true
unfolding insert
free-insert k p ids [] f out = ground arith
free-insert k p ids ((q, js) ∷ groups) f out = ground (arith, free-insert k p ids groups)

placeholders-free :
    (k p : String) (groups : Index)
    → free k groups ≡ true
    → member k (placeholders p groups) ≡ false
unfolding placeholders lookup
placeholders-free k p [] f = refl
placeholders-free k p ((q, js) ∷ groups) f = ground (arith, placeholders-free k p groups)

free-add :
    (k p id : String) (groups : Index)
    → free k groups ≡ true
    → (id == k) ≡ false
    → free k (add_to_secondary_index p id groups) ≡ true
unfolding add_to_secondary_index
free-add k p id groups f out =
    let ids = placeholders p groups ++ id ∷ [] in
    ground (
      arith,
      free-insert k p ids groups,
      placeholders-free k p groups,
      member-append k (placeholders p groups) (id ∷ []),
    )

member-forget_removed :
    (k q : String) (groups index : Index)
    → free k groups ≡ true
    → member k (placeholders q (forget_removed groups index)) ≡ member k (placeholders q index)
unfolding forget_removed
member-forget_removed k q [] index f = refl
member-forget_removed k q ((p, ids) ∷ groups) index f = ground (
  arith,
  member-forget_removed k q groups (remove_batch_from_secondary_index p ids index),
  placeholders-remove_batch p q ids index,
  member-retain k ids (placeholders q index),
)

-- A key is listed exactly if the test holds of the entry that stands under it.
member-filter_keys :
    (f : String → Option String) (k : String) (ks : List String)
    → ((j i : String) → f j ≡ some i → i ≡ j)
    → member k (filter_map f ks) ≡ (member k ks && is_some (f k))
member-filter_keys f k [] own = refl
member-filter_keys f k (j ∷ ks) own = elim (Option-cases (f j)) [
  | inl n ↦ ground (arith, member-filter_keys f k ks own, string_eq.beq_iff j k)
  | inr (i, s) ↦ ground (arith, member-filter_keys f k ks own, own j i s, string_eq.beq_iff j k)
]

module _ {D : Type 0} where
  lookup-remove_grouped :
      (k : String) (ids : List String) (m : Map String (ExitEntry D)) (groups : Index)
      → lookup k (remove_grouped ids m groups).0 ≡ (if member k ids then none else lookup k m)
  unfolding remove_grouped
  lookup-remove_grouped k [] m groups = refl
  lookup-remove_grouped k (id ∷ ids) m groups = elim (Option-cases (lookup id m)) [
    | inl n ↦ ground (arith, lookup-remove_grouped k ids (remove id m) groups, lookup-remove id k m)
    | inr (e, s) ↦ ground (
      arith,
      lookup-remove id k m,
      lookup-remove_grouped k ids (remove id m)
          (add_to_secondary_index e.primary_order_id id groups),
    )
  ]

  free-remove_grouped :
      (k : String) (ids : List String) (m : Map String (ExitEntry D)) (groups : Index)
      → free k groups ≡ true
      → member k ids ≡ false
      → free k (remove_grouped ids m groups).1 ≡ true
  unfolding remove_grouped
  free-remove_grouped k [] m groups f out = f
  free-remove_grouped k (id ∷ ids) m groups f out = elim (Option-cases (lookup id m)) [
    | inl n ↦ ground (arith, free-remove_grouped k ids (remove id m) groups)
    | inr (e, s) ↦ ground (
      arith,
      free-add k e.primary_order_id id groups,
      free-remove_grouped k ids (remove id m) (add_to_secondary_index e.primary_order_id id groups),
    )
  ]

  lookup-remove_entries :
      (k : String) (ids : List String) (h : Handler D)
      → lookup k (remove_entries ids h).1.pending_by_placeholder
        ≡ (if member k ids then none else lookup k h.pending_by_placeholder)
  unfolding remove_entries
  lookup-remove_entries k [] h = refl
  lookup-remove_entries k (id ∷ ids) h =
      lookup-remove_grouped k (id ∷ ids) h.pending_by_placeholder []

  remove_entries-IsConsistent :
      (ids : List String) (h : Handler D) → IsConsistent h → IsConsistent (remove_entries ids h).1
  unfolding remove_entries
  remove_entries-IsConsistent [] h c = c
  remove_entries-IsConsistent (id ∷ ids) h c = record {
    keyed = λ k x at.
        ground (arith, lookup-remove_grouped k (id ∷ ids) h.pending_by_placeholder [], c.keyed k x);
    indexed = λ k x at waiting. ground (
      arith,
      lookup-remove_grouped k (id ∷ ids) h.pending_by_placeholder [],
      free-remove_grouped k (id ∷ ids) h.pending_by_placeholder [],
      member-forget_removed k x.primary_order_id
          (remove_grouped (id ∷ ids) h.pending_by_placeholder []).1 h.pending_by_primary,
      c.indexed k x,
    );
  }

  pub member-keys :
      (k : String) (e : ExitEntry D) (m : Map String (ExitEntry D))
      → lookup k m ≡ some e
      → member k (keys m) ≡ true
  unfolding lookup
  member-keys k e [] at = ground arith
  member-keys k e ((j, x) ∷ m) at = ground (arith, member-keys k e m)

  -- What is left of an entry once those that pass the test are removed.
  abbrev pub remaining : (ExitEntry D → Bool) → Option (ExitEntry D) → Option (ExitEntry D)
  remaining test none = none
  remaining test (some e) = if test e then none else some e

  failed_key-own : (m : Map String (ExitEntry D)) (j i : String) → failed_key m j ≡ some i → i ≡ j
  failed_key-own m j i s = elim (Option-cases (lookup j m)) [
    | inl n ↦ ground arith
    | inr (e, at) ↦ ground arith
  ]

  expired_key-own :
      (now : Now) (h : Handler D)
      → IsConsistent h
      → (j i : String) → expired_key now h.config.entry_ttl h.pending_by_placeholder j ≡ some i
      → i ≡ j
  expired_key-own now h c j i s = elim (Option-cases (lookup j h.pending_by_placeholder)) [
    | inl n ↦ ground arith
    | inr (e, at) ↦ ground (arith, c.keyed j e)
  ]

  -- Clearing the failed entries removes exactly those, and keeps every other entry as it is.
  clear_failed_entries-lookup :
      (k : String) (h : Handler D)
      → lookup k (clear_failed_entries h).1.pending_by_placeholder
        ≡ remaining (λ e. failed_status e.status) (lookup k h.pending_by_placeholder)
  unfolding clear_failed_entries
  clear_failed_entries-lookup k h =
      let m = h.pending_by_placeholder in
      elim (Option-cases (lookup k m)) [
        | inl n ↦ ground (
          arith,
          lookup-remove_entries k (filter_map (failed_key m) (keys m)) h,
          member-filter_keys (failed_key m) k (keys m) (failed_key-own m),
        )
        | inr (e, s) ↦ ground (
          arith,
          lookup-remove_entries k (filter_map (failed_key m) (keys m)) h,
          member-filter_keys (failed_key m) k (keys m) (failed_key-own m),
          member-keys k e m,
        )
      ]

  -- Clearing keeps the maps consistent.
  pub clear_failed_entries-IsConsistent :
      (h : Handler D) → IsConsistent h → IsConsistent (clear_failed_entries h).1
  unfolding clear_failed_entries
  clear_failed_entries-IsConsistent h c = remove_entries-IsConsistent _ h c

  -- On consistent maps, the clean-up removes exactly the entries that are older than the time to
  -- live, whatever their status, and keeps every other entry as it is.
  cleanup_expired_entries-lookup :
      (now : Now) (k : String) (h : Handler D)
      → IsConsistent h
      → lookup k (cleanup_expired_entries now h).1.pending_by_placeholder
        ≡ remaining (is_expired now h.config.entry_ttl) (lookup k h.pending_by_placeholder)
  unfolding cleanup_expired_entries
  cleanup_expired_entries-lookup now k h c =
      let m = h.pending_by_placeholder in
      let f = expired_key now h.config.entry_ttl m in
      elim (Option-cases (lookup k m)) [
        | inl n ↦ ground (
          arith,
          lookup-remove_entries k (filter_map f (keys m)) h,
          member-filter_keys f k (keys m) (expired_key-own now h c),
        )
        | inr (e, s) ↦ ground (
          arith,
          lookup-remove_entries k (filter_map f (keys m)) h,
          member-filter_keys f k (keys m) (expired_key-own now h c),
          member-keys k e m,
          c.keyed k e,
        )
      ]

  -- The clean-up keeps consistent maps consistent.
  pub cleanup_expired_entries-IsConsistent :
      (now : Now) (h : Handler D) → IsConsistent h → IsConsistent (cleanup_expired_entries now h).1
  unfolding cleanup_expired_entries
  cleanup_expired_entries-IsConsistent now h c = remove_entries-IsConsistent _ h c
