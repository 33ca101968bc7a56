-- ===== src/Exit/Invariant/Registered.antt =====
-- Registering exits, and the maps of the handler (crates/core/src/exit_management/handler.rs).
use trading_gateway.Base.{
  String, Option, none, some, length, leb, string_eq, nat_eq, if◌then◌else◌, inl, inr, refl, arith,
  Bool-cases,
}
use trading_gateway.Base.Map.{lookup}
use trading_gateway.Base.Decimal.{Decimal}
use trading_gateway.Models.Error.{Result-cases}
use trading_gateway.Models.Order.{OrderRequest}
use trading_gateway.Exit.Types.{
  Now, ExitLegType, stop_loss, take_profit, leg_eq, is_pending, ExitHandlerConfig,
}
use trading_gateway.Exit.Handler.{new_handler, Handler}
use trading_gateway.Exit.Invariant.{IsConsistent, insert_entry-IsConsistent, modify-IsConsistent}
use trading_gateway.Exit.Registration.{
  register, register_legs, register_leg, leg_entry, link_siblings, link_both, with_sibling,
  check_leg, wants_exits,
}
use trading_gateway.Models.{TradingPlatform}
use text.Mathlib.Text.{is_lt}
use Prim.Native.String.{compare}

module _ {D : Type 0} where
  pub new_handler-IsConsistent :
      (platform : TradingPlatform) (config : ExitHandlerConfig D)
      → IsConsistent (new_handler platform config)
  unfolding new_handler lookup
  new_handler-IsConsistent platform config = record {
    keyed = λ k e at. ground arith;
    indexed = λ k e at waiting. ground arith;
  }

module _ {D : Type 0} ⦃dec : Decimal D⦄ where
  register_leg-IsConsistent :
      (now : Now) (primary : String) (order : OrderRequest D) (leg : ExitLegType) (price : Option D)
      (h : Handler D)
      → IsConsistent h
      → IsConsistent (register_leg now primary order leg price h).0
  unfolding register_leg
  register_leg-IsConsistent now primary order leg none h c = c
  register_leg-IsConsistent now primary order leg (some price) h c =
      insert_entry-IsConsistent (leg_entry now primary order h leg price) h c

  link_siblings-IsConsistent :
      (sl tp : String) (h : Handler D) → IsConsistent h → IsConsistent (link_siblings sl tp h)
  unfolding link_siblings is_pending
  link_siblings-IsConsistent sl tp h c =
      let first = if is_lt (compare sl tp) then sl else tp in
      let second = if is_lt (compare sl tp) then tp else sl in
      modify-IsConsistent second (with_sibling first) _ (λ x. (refl, refl, λ b. b))
        (modify-IsConsistent first (with_sibling second) h (λ x. (refl, refl, λ b. b)) c)

  link_both-IsConsistent :
      (sl tp : Option String) (h : Handler D) → IsConsistent h → IsConsistent (link_both sl tp h)
  link_both-IsConsistent none tp h c = c
  link_both-IsConsistent (some sl) none h c = c
  link_both-IsConsistent (some sl) (some tp) h c = link_siblings-IsConsistent sl tp h c

  register_legs-IsConsistent :
      (now : Now) (primary : String) (order : OrderRequest D) (h : Handler D)
      → IsConsistent h
      → IsConsistent (register_legs now primary order h).1
  unfolding register_legs
  register_legs-IsConsistent now primary order h c =
      let s1 = register_leg now primary order stop_loss order.stop_loss h in
      let s2 = register_leg now primary order take_profit order.take_profit s1.0 in
      link_both-IsConsistent s1.1 s2.1 s2.0 (
        register_leg-IsConsistent now primary order take_profit order.take_profit s1.0
          (register_leg-IsConsistent now primary order stop_loss order.stop_loss h c))

  -- Registering the exits of an order keeps consistent maps consistent, also where it is refused.
  pub register-IsConsistent :
      (now : Now) (primary : String) (order : OrderRequest D) (h : Handler D)
      → IsConsistent h
      → IsConsistent (register now primary order h).1
  unfolding register
  register-IsConsistent now primary order h c =
      elim (Bool-cases (leb h.config.max_pending_entries (length h.pending_by_placeholder))) [
        | inl full ↦ rw (full, register) c
        | inr room ↦ elim (Bool-cases (wants_exits order.stop_loss order.take_profit)) [
          | inr nothing ↦ rw (room, nothing, register) c
          | inl wanted ↦ elim (Result-cases (check_leg order.stop_loss "stop_loss")) [
            | inr (e, bad) ↦ rw (room, wanted, bad, register) c
            | inl (u, good) ↦ elim (Result-cases (check_leg order.take_profit "take_profit")) [
              | inr (e, bad) ↦ rw (room, wanted, good, bad, register) c
              | inl (v, fine) ↦
                  rw (room, wanted, good, fine, register)
                    (register_legs-IsConsistent now primary order h c)
            ]
          ]
        ]
      ]
