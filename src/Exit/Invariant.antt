-- ===== src/Exit/Invariant.antt =====
-- What holds of the maps of an exit handler (crates/core/src/exit_management/handler.rs) between
-- two operations: entries stand under their own placeholder id, and every entry that still waits
-- for fills is found through the entry order that it belongs to.
pub mod Registered
use mathlib.Core.Option
use trading_gateway.Base.{
  is_empty, is_empty, String, Bool, true, false, ◌||◌, Option, none, some, List, [], ◌∷◌, ◌++◌,
  ◌==◌, string_eq, ◌≡◌, refl, arith, if◌then◌else◌, Option-cases, Bool-cases, inl, inr, ◌⊎◌,
  beq_refl,
}
use trading_gateway.Base.Decimal.{Decimal}
use trading_gateway.Base.Map.{
  Map, lookup, insert, remove, modify, lookup-insert, lookup-remove, lookup-modify,
}
use trading_gateway.Models.Order.{OrderRequest}
use trading_gateway.Models.Error.{GatewayResult, ok, err}
use trading_gateway.Exit.Types.{
  Now, ExitLegType, ExitEntry, ExitEntryStatus, is_pending, set_status, cancelled, oco_succeeded,
  new_entry, generate_placeholder_id, stop_loss, take_profit,
}
use trading_gateway.Exit.Index.{
  extend_secondary_index, Index, placeholders, member, placeholders-add, placeholders-extend,
  placeholders-remove, member-append,
}
use trading_gateway.Exit.Handler.{Handler, insert_entry}
use trading_gateway.Exit.Registration.{
  register, register_legs, register_leg, leg_entry, link_siblings, move_entries, activate_backup,
  drop_entries, cancel_backup, with_primary,
}

member_snoc :
    (k id : String) (ids : List String) → member k (ids ++ id ∷ []) ≡ (member k ids || id == k)
member_snoc k id ids = ground (arith, member-append k ids (id ∷ []))

module _ {D : Type 0} where
  pub record IsConsistent (h : Handler D) : Type 0 where
    pub keyed :
        (k : String) (e : ExitEntry D)
        → lookup k h.pending_by_placeholder ≡ some e
        → e.placeholder_id ≡ k
    pub indexed :
        (k : String) (e : ExitEntry D)
        → lookup k h.pending_by_placeholder ≡ some e
        → is_pending e ≡ true
        → member k (placeholders e.primary_order_id h.pending_by_primary) ≡ true

  -- An inserted entry is keyed and indexed, and it hides only what stood under its own id.
  pub insert_entry-IsConsistent :
      (e : ExitEntry D) (h : Handler D) → IsConsistent h → IsConsistent (insert_entry e h)
  unfolding insert_entry
  insert_entry-IsConsistent e h c = record {
    keyed = λ k x at. ground (
      arith,
      lookup-insert e.placeholder_id k e h.pending_by_placeholder,
      string_eq.beq_iff e.placeholder_id k,
      c.keyed k x,
    );
    indexed = λ k x at waiting. ground (
      arith,
      lookup-insert e.placeholder_id k e h.pending_by_placeholder,
      string_eq.beq_iff e.placeholder_id k,
      string_eq.beq_iff e.primary_order_id x.primary_order_id,
      placeholders-add e.primary_order_id x.primary_order_id e.placeholder_id h.pending_by_primary,
      member_snoc k e.placeholder_id (placeholders x.primary_order_id h.pending_by_primary),
      c.indexed k x,
    );
  }

  -- A write to one entry that keeps its ids, and makes nothing wait that did not.
  pub modify-IsConsistent :
      (id : String) (f : ExitEntry D → ExitEntry D) (h : Handler D)
      → ((e : ExitEntry D)
          → ((f e).placeholder_id ≡ e.placeholder_id)
            × ((f e).primary_order_id ≡ e.primary_order_id)
            × (is_pending (f e) ≡ true → is_pending e ≡ true))
      → IsConsistent h
      → IsConsistent (record h { pending_by_placeholder = modify id f h.pending_by_placeholder })
  modify-IsConsistent id f h keeps c = record {
    keyed = λ k x at. elim (Option-cases (lookup k h.pending_by_placeholder)) [
      | inl e ↦ ground (arith, lookup-modify id k f h.pending_by_placeholder)
      | inr (y, e) ↦
          ground (arith, lookup-modify id k f h.pending_by_placeholder, keeps y, c.keyed k y e)
    ];
    indexed = λ k x at waiting. elim (Option-cases (lookup k h.pending_by_placeholder)) [
      | inl e ↦ ground (arith, lookup-modify id k f h.pending_by_placeholder)
      | inr (y, e) ↦
          ground (arith, lookup-modify id k f h.pending_by_placeholder, keeps y, c.indexed k y e)
    ];
  }

  lookup-move_entries :
      (a k : String) (ids : List String) (m : Map String (ExitEntry D))
      → lookup k (move_entries a ids m)
        ≡ (if member k ids then Option.map (with_primary a) (lookup k m) else lookup k m)
  unfolding move_entries
  lookup-move_entries a k [] m = refl
  lookup-move_entries a k (id ∷ ids) m = ground (
    arith,
    lookup-move_entries a k ids (modify id (with_primary a) m),
    lookup-modify id k (with_primary a) m,
  )

  lookup-drop_entries :
      (now : Now) (k : String) (ids : List String) (m : Map String (ExitEntry D))
      → lookup k (drop_entries now ids m) ≡ (if member k ids then none else lookup k m)
  unfolding drop_entries
  lookup-drop_entries now k [] m = refl
  lookup-drop_entries now k (id ∷ ids) m =
      let f : ExitEntry D → ExitEntry D = set_status now (cancelled now.utc oco_succeeded) in
      ground (
        arith,
        lookup-drop_entries now k ids (remove id (modify id f m)),
        lookup-remove id k (modify id f m),
        lookup-modify id k f m,
      )

  module _ (backup_id actual : String) (h : Handler D) (c : IsConsistent h) where
    moved_ids : List String
    moved_ids = placeholders backup_id h.pending_by_primary

    moved_keyed :
        (k : String) (x : ExitEntry D)
        → lookup k (move_entries actual moved_ids h.pending_by_placeholder) ≡ some x
        → x.placeholder_id ≡ k
    moved_keyed k x at = elim (Option-cases (lookup k h.pending_by_placeholder)) [
      | inl n ↦ ground (arith, lookup-move_entries actual k moved_ids h.pending_by_placeholder)
      | inr (y, s) ↦
          ground
            (arith, lookup-move_entries actual k moved_ids h.pending_by_placeholder, c.keyed k y s)
    ]

    moved_indexed :
        (k : String) (x : ExitEntry D)
        → lookup k (move_entries actual moved_ids h.pending_by_placeholder) ≡ some x
        → is_pending x ≡ true
        → member k (
            placeholders x.primary_order_id
              (extend_secondary_index actual moved_ids (remove backup_id h.pending_by_primary)))
          ≡ true
    unfolding moved_ids is_pending
    moved_indexed k x at waiting = elim (Option-cases (lookup k h.pending_by_placeholder)) [
      | inl n ↦ ground (arith, lookup-move_entries actual k moved_ids h.pending_by_placeholder)
      | inr (y, s) ↦ ground (
        arith,
        lookup-move_entries actual k moved_ids h.pending_by_placeholder,
        placeholders-extend actual x.primary_order_id moved_ids
            (remove backup_id h.pending_by_primary),
        placeholders-remove backup_id x.primary_order_id h.pending_by_primary,
        member-append k (placeholders x.primary_order_id (remove backup_id h.pending_by_primary))
            moved_ids,
        string_eq.beq_iff backup_id x.primary_order_id,
        beq_refl actual,
        c.indexed k y s,
      )
    ]

    -- Activating a backup keeps consistent maps consistent, whether or not the backup exists.
    pub activate_backup-IsConsistent : IsConsistent (activate_backup backup_id actual h).1
    unfolding activate_backup moved_ids
    activate_backup-IsConsistent = elim (Bool-cases (is_empty moved_ids)) [
      | inl e ↦ rw (e, activate_backup) c
      | inr e ↦ rw (e, activate_backup) (record { keyed = moved_keyed; indexed = moved_indexed })
    ]

    dropped_at :
        (now : Now) (k : String) {x : ExitEntry D}
        → lookup k (drop_entries now moved_ids h.pending_by_placeholder) ≡ some x
        → (lookup k h.pending_by_placeholder ≡ some x) × (member k moved_ids ≡ false)
    dropped_at now k at =
        ground (arith, lookup-drop_entries now k moved_ids h.pending_by_placeholder)

    -- Cancelling a backup keeps consistent maps consistent, whether or not the backup exists.
    pub cancel_backup-IsConsistent : (now : Now) → IsConsistent (cancel_backup now backup_id h).1
    unfolding cancel_backup moved_ids
    cancel_backup-IsConsistent now = elim (Bool-cases (is_empty moved_ids)) [
      | inl e ↦ rw (e, cancel_backup) c
      | inr e ↦
          rw (e, cancel_backup)
            (record {
              keyed = λ k x at. c.keyed k x (dropped_at now k at).0;
              indexed = λ k x at waiting. ground (
                arith,
                dropped_at now k at,
                c.indexed k x,
                placeholders-remove backup_id x.primary_order_id h.pending_by_primary,
                string_eq.beq_iff backup_id x.primary_order_id,
              );
            })
    ]
