-- ===== src/Trailing/Machine/Selection.antt =====
-- The ids that a scan of the entries collects (crates/core/src/trailing_stop/handler.rs), and the
-- loops over them.
use trading_gateway.Base.{subst, sym}
use trading_gateway.Base.{
  String, Bool, true, false, Option, none, some, List, [], ◌∷◌, all, ◌==◌, option_eq, string_eq,
  nat_eq, ◌≡◌, inl, inr, arith, Bool-cases, All,
}
use trading_gateway.Base.Map.{Map, lookup}
use trading_gateway.Trailing.Types.{TrailingEntry}
use trading_gateway.Trailing.Handler.{selected}

module _ {D : Type 0} where
  -- Every entry is stored under its own placeholder id, and every id once.
  abbrev pub IsKeyed : Map String (TrailingEntry D) → Type 0
  IsKeyed [] = Unit
  IsKeyed ((k, e) ∷ m) = (e.placeholder_id ≡ k) × (lookup k m ≡ none) × IsKeyed m

  abbrev pub passes : (TrailingEntry D → Bool) → Option (TrailingEntry D) → Bool
  passes test none = false
  passes test (some e) = test e

  -- The ids differ, and the entries under them pass the test.
  abbrev pub IsReady :
      (TrailingEntry D → Bool) → Map String (TrailingEntry D) → List String → Type 0
  IsReady test m [] = Unit
  IsReady test m (id ∷ ids) =
      (passes test (lookup id m) ≡ true)
      × All (λ other. (id == other) ≡ false) ids
      × IsReady test m ids

  passing_key :
      (test : TrailingEntry D → Bool) (k id : String) (e : TrailingEntry D)
      (m : Map String (TrailingEntry D))
      → lookup k m ≡ none
      → passes test (lookup id m) ≡ true
      → ((k == id) ≡ false) × (lookup id ((k, e) ∷ m) ≡ lookup id m)
  unfolding lookup
  passing_key test k id e m gone p = ground (arith, string_eq.beq_iff k id)

  IsReady-cons :
      (test : TrailingEntry D → Bool) (k : String) (e : TrailingEntry D)
      (m : Map String (TrailingEntry D)) (ids : List String)
      → lookup k m ≡ none
      → IsReady test m ids
      → IsReady test ((k, e) ∷ m) ids × All (λ other. (k == other) ≡ false) ids
  IsReady-cons test k e m [] gone r = (tt, tt)
  IsReady-cons test k e m (id ∷ ids) gone (p, apart, r) =
      let (differs, same) = passing_key test k id e m gone p in
      let (rest, all) = IsReady-cons test k e m ids gone r in
      ((rw (same) p, apart, rest), (differs, all))

  pub selected-IsReady :
      (test : TrailingEntry D → Bool) (m : Map String (TrailingEntry D))
      → IsKeyed m
      → IsReady test m (selected test m)
  unfolding lookup
  selected-IsReady test [] keyed = tt
  selected-IsReady test ((k, e) ∷ m) (own, gone, keyed) =
      let (rest, all) =
        IsReady-cons test k e m (selected test m) gone (selected-IsReady test m keyed) in
      elim (Bool-cases (test e)) [
        | inl chosen ↦ rw (chosen) (
          ground (arith, own, chosen, string_eq.beq_iff k e.placeholder_id),
          subst (λ x. All (λ other. (x == other) ≡ false) (selected test m)) (sym own) all,
          rest,
        )
        | inr left ↦ rw (left) rest
      ]
