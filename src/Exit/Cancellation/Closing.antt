-- ===== src/Exit/Cancellation/Closing.antt =====
-- `cancel_for_position_close_internal` of crates/core/src/exit_management/cancellation.rs.
use trading_gateway.Base.{
  sym, ap, ◌∙◌, append-nil, append_assoc, String, Bool, true, false, ◌&&◌, Option, none, some, List,
  [], ◌∷◌, ◌++◌, ◌==◌, string_eq, nat_eq, filter_map, map, if◌then◌else◌, ◌≡◌, ◌⊎◌, inl, inr, refl,
  arith, Bool-cases, Option-cases, is_some,
}
use trading_gateway.Base.Map.{Map, lookup, modify, keys, lookup-modify}
use trading_gateway.Models.Adapter.{Adapter}
use trading_gateway.Exit.Types.{
  Now, leg_eq, ActualOrder, ExitEntry, ExitEntryStatus, cancelled, pending, placed,
  partially_triggered, failed, expired, actual_orders, set_status, position_closed,
}
use trading_gateway.Exit.Index.{member}
use trading_gateway.Exit.Handler.{Handler}
use trading_gateway.Exit.Cancellation.Removal.{member-keys}
use trading_gateway.Exit.Cancellation.{
  mark_cancelled, entries_to_cancel, blocks, blocking_orders, cancel_orders, close_each,
  cancel_for_position_close,
}

-- An exchange that logs the ids of the orders that it is asked to cancel.
abbrev log_cancel : {A W : Type 0} → List String → A × W → A × (List String × W)
log_cancel log (a, w) = (a, (log, w))

abbrev pub logging : {D W : Type 0} → Adapter D W → Adapter D (List String × W)
logging adapter = record {
  submit_order = λ order s. log_cancel s.0 (adapter.submit_order order s.1);
  get_order = λ id s. log_cancel s.0 (adapter.get_order id s.1);
  modify_order = λ id request s. log_cancel s.0 (adapter.modify_order id request s.1);
  cancel_order = λ id s. log_cancel (s.0 ++ id ∷ []) (adapter.cancel_order id s.1);
}

module _ {D : Type 0} where
  abbrev pub status_of : Option (ExitEntry D) → Option (ExitEntryStatus D)
  status_of none = none
  status_of (some e) = some e.status

  -- The specification: the orders of an entry that closing a position has to end, and whether there
  -- is such an entry.
  abbrev pub ends : ExitEntryStatus D → Bool
  ends pending = true
  ends (partially_triggered f t os) = true
  ends (placed os) = true
  ends (failed e r t []) = false
  ends (failed e r t (o ∷ os)) = true
  ends (cancelled t r) = false
  ends (expired t) = false

  ends-blocking : (s : ExitEntryStatus D) → is_some (blocking_orders s) ≡ ends s
  ends-blocking pending = refl
  ends-blocking (partially_triggered f t os) = refl
  ends-blocking (placed os) = refl
  ends-blocking (failed e r t []) = refl
  ends-blocking (failed e r t (o ∷ os)) = refl
  ends-blocking (cancelled t r) = refl
  ends-blocking (expired t) = refl

  -- The status under which the closing of a position in `symbol` leaves an entry.
  abbrev pub closed_status : Now → String → Option (ExitEntry D) → Option (ExitEntryStatus D)
  closed_status now symbol none = none
  closed_status now symbol (some e) =
      if e.symbol == symbol && ends e.status
      then some (cancelled now.utc position_closed)
      else some e.status

  -- An entry that the closing of a position left cancelled at `now`.
  abbrev ClosedAt : Now → ExitEntry D → Bool → Type 0
  ClosedAt now e listed = listed ≡ true ⊎ (e.status ≡ cancelled now.utc position_closed)

  work_ids : List (String × List (ActualOrder D)) → List String
  work_ids work = map (λ p. p.0) work

  -- The orders of a work list, in its order.
  abbrev all_orders : List (String × List (ActualOrder D)) → List (ActualOrder D)
  all_orders [] = []
  all_orders (p ∷ work) = p.1 ++ all_orders work

  module _ {W : Type 0} (adapter : Adapter D W) where
    cancels :
        (now : Now) (k : String) (work : List (String × List (ActualOrder D)))
        (m : Map String (ExitEntry D)) (w : W) (e : ExitEntry D)
        → lookup k m ≡ some e
        → ClosedAt now e (member k (work_ids work))
        → status_of (lookup k (close_each adapter now work m w).1.0)
          ≡ some (cancelled now.utc position_closed)
    unfolding close_each work_ids set_status
    cancels now k [] m w e at listed = ground arith
    cancels now k ((id, os) ∷ work) m w e at listed =
        let m' = modify id (mark_cancelled now position_closed) m in
        elim (Bool-cases (id == k)) [
          | inl same ↦
              let e' = mark_cancelled now position_closed e in
              ground (
                arith,
                cancels now k work m' (cancel_orders adapter os w) e',
                string_eq.beq_iff id k,
                lookup-modify id k (mark_cancelled now position_closed) m,
              )
          | inr other ↦ ground (
            arith,
            cancels now k work m' (cancel_orders adapter os w) e,
            lookup-modify id k (mark_cancelled now position_closed) m,
          )
        ]

    spares :
        (now : Now) (k : String) (work : List (String × List (ActualOrder D)))
        (m : Map String (ExitEntry D)) (w : W)
        → member k (work_ids work) ≡ false
        → lookup k (close_each adapter now work m w).1.0 ≡ lookup k m
    unfolding close_each work_ids set_status
    spares now k [] m w out = refl
    spares now k ((id, os) ∷ work) m w out = ground (
      arith,
      lookup-modify id k (mark_cancelled now position_closed) m,
      spares now k work (modify id (mark_cancelled now position_closed) m)
          (cancel_orders adapter os w),
    )

    member-entries_to_cancel :
        (symbol k : String) (m : Map String (ExitEntry D)) (ks : List String)
        → member k (work_ids (filter_map (blocks symbol m) ks))
          ≡ (member k ks && is_some (blocks symbol m k))
    unfolding work_ids
    member-entries_to_cancel symbol k m [] = refl
    member-entries_to_cancel symbol k m (j ∷ ks) = elim (Option-cases (lookup j m)) [
      | inl n ↦ ground (arith, member-entries_to_cancel symbol k m ks, string_eq.beq_iff j k)
      | inr (e, s) ↦ elim (Option-cases (blocking_orders e.status)) [
        | inl n ↦ ground (arith, member-entries_to_cancel symbol k m ks, string_eq.beq_iff j k)
        | inr (os, b) ↦
            ground (arith, member-entries_to_cancel symbol k m ks, string_eq.beq_iff j k)
      ]
    ]

    -- Before a position is closed, every entry of its symbol that waits, is placed, is partially
    -- triggered, or failed with orders left is marked cancelled; all other entries keep their status.
    pub cancel_for_position_close-status :
        (now : Now) (symbol k : String) (h : Handler D) (w : W)
        → status_of
            (lookup k (cancel_for_position_close adapter now symbol h w).1.0.pending_by_placeholder)
          ≡ closed_status now symbol (lookup k h.pending_by_placeholder)
    unfolding cancel_for_position_close
    cancel_for_position_close-status now symbol k h w =
        let m = h.pending_by_placeholder in
        let work = entries_to_cancel symbol m in
        elim (Option-cases (lookup k m)) [
          | inl n ↦
              ground (arith, spares now k work m w, member-entries_to_cancel symbol k m (keys m))
          | inr (e, s) ↦ elim (Option-cases (blocking_orders e.status)) [
            | inl n ↦ ground (
              arith,
              ends-blocking e.status,
              spares now k work m w,
              member-entries_to_cancel symbol k m (keys m),
            )
            | inr (os, b) ↦ ground (
              arith,
              ends-blocking e.status,
              spares now k work m w,
              cancels now k work m w e,
              member-entries_to_cancel symbol k m (keys m),
              member-keys k e m,
            )
          ]
        ]

    cancel_orders-append :
        (os ps : List (ActualOrder D)) (w : W)
        → cancel_orders adapter (os ++ ps) w ≡ cancel_orders adapter ps (cancel_orders adapter os w)
    unfolding cancel_orders
    cancel_orders-append [] ps w = refl
    cancel_orders-append (o ∷ os) ps w =
        cancel_orders-append os ps (adapter.cancel_order o.order_id w).1

    close_each-world :
        (now : Now) (work : List (String × List (ActualOrder D))) (m : Map String (ExitEntry D))
        (w : W)
        → (close_each adapter now work m w).1.1 ≡ cancel_orders adapter (all_orders work) w
    unfolding close_each cancel_orders
    close_each-world now [] m w = refl
    close_each-world now ((id, os) ∷ work) m w = ground (
      arith,
      cancel_orders-append os (all_orders work) w,
      close_each-world now work (modify id (mark_cancelled now position_closed) m)
          (cancel_orders adapter os w),
    )

  order_ids : List (ActualOrder D) → List String
  order_ids os = map (λ o. o.order_id) os

  -- The specification: the ids of the live orders of an entry of the symbol.
  abbrev pub live_ids : String → Option (ExitEntry D) → List String
  live_ids symbol none = []
  live_ids symbol (some e) =
      if e.symbol == symbol then map (λ o. o.order_id) (actual_orders e.status) else []

  abbrev pub live_ids_all : String → Map String (ExitEntry D) → List String → List String
  live_ids_all symbol m [] = []
  live_ids_all symbol m (k ∷ ks) = live_ids symbol (lookup k m) ++ live_ids_all symbol m ks

  live-blocking :
      (s : ExitEntryStatus D)
      → (is_some (blocking_orders s) ≡ false → actual_orders s ≡ [])
        × ((os : List (ActualOrder D)) → blocking_orders s ≡ some os → os ≡ actual_orders s)
  unfolding actual_orders
  live-blocking pending = (λ n. refl, λ os b. ground (arith, b))
  live-blocking (partially_triggered f t ps) = (λ n. ground (arith, n), λ os b. ground (arith, b))
  live-blocking (placed ps) = (λ n. ground (arith, n), λ os b. ground (arith, b))
  live-blocking (failed e r t []) = (λ n. refl, λ os b. ground (arith, b))
  live-blocking (failed e r t (o ∷ ps)) = (λ n. ground (arith, n), λ os b. ground (arith, b))
  live-blocking (cancelled t r) = (λ n. refl, λ os b. ground (arith, b))
  live-blocking (expired t) = (λ n. refl, λ os b. ground (arith, b))

  order_ids-append :
      (os ps : List (ActualOrder D)) → order_ids (os ++ ps) ≡ order_ids os ++ order_ids ps
  unfolding order_ids
  order_ids-append [] ps = refl
  order_ids-append (o ∷ os) ps = ap (λ l. o.order_id ∷ l) (order_ids-append os ps)

  listed_ids :
      (symbol : String) (m : Map String (ExitEntry D)) (ks : List String)
      → order_ids (all_orders (filter_map (blocks symbol m) ks)) ≡ live_ids_all symbol m ks
  unfolding order_ids
  listed_ids symbol m [] = refl
  listed_ids symbol m (k ∷ ks) =
      let rest = listed_ids symbol m ks in
      elim (Option-cases (lookup k m)) [
        | inl gone ↦ ground (arith, gone, rest)
        | inr (e, found) ↦ elim (Bool-cases (e.symbol == symbol)) [
          | inr other ↦ ground (arith, found, other, rest)
          | inl same ↦
              let (none_live, some_live) = live-blocking e.status in
              elim (Option-cases (blocking_orders e.status)) [
                | inl lone ↦
                    let dead = none_live (ground (arith, lone)) in
                    ground (arith, found, same, lone, dead, rest)
                | inr (os, b) ↦ ground (
                  arith,
                  found,
                  same,
                  b,
                  some_live os b,
                  order_ids-append os (all_orders (filter_map (blocks symbol m) ks)),
                  rest,
                )
              ]
        ]
      ]

  module _ {W : Type 0} (adapter : Adapter D W) where
    logged :
        (os : List (ActualOrder D)) (log : List String) (w : W)
        → (cancel_orders (logging adapter) os (log, w)).0 ≡ log ++ order_ids os
    unfolding cancel_orders order_ids
    logged [] log w = sym (append-nil log)
    logged (o ∷ os) log w =
        logged os (log ++ o.order_id ∷ []) (adapter.cancel_order o.order_id w).1
        ∙ append_assoc log (o.order_id ∷ []) (order_ids os)

    -- Closing a position asks the exchange, whatever it answers, to cancel every order that an
    -- entry of its symbol tracks, one after the other, and no other order.
    pub cancel_for_position_close-calls :
        (now : Now) (symbol : String) (h : Handler D) (log : List String) (w : W)
        → (cancel_for_position_close (logging adapter) now symbol h (log, w)).1.1.0
          ≡ log ++ live_ids_all symbol h.pending_by_placeholder (keys h.pending_by_placeholder)
    unfolding cancel_for_position_close
    cancel_for_position_close-calls now symbol h log w =
        let m = h.pending_by_placeholder in
        let work = entries_to_cancel symbol m in
        ap (λ s. s.0) (close_each-world (logging adapter) now work m (log, w))
        ∙ logged (all_orders work) log w
        ∙ ap (λ l. log ++ l) (listed_ids symbol m (keys m))
