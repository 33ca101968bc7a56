-- ===== src/AckBridge/Tests.antt =====
-- The bridge of crates/tektii/src/ack_bridge.rs on concrete calls.
use trading_gateway.Base.{◌≤◌, List, [], ◌∷◌, ◌≡◌, refl, true, ◌⊎◌, arith}
use trading_gateway.AckBridge.{
  Call, registers, sends, acks, new, find_event, register_pending, mark_sent_one, mark_sent_all,
  ack_one, ack_all, mark_sent, handle_strategy_ack, immediate_ack, release, forward, remove_event,
  update_event, step, run,
}
use trading_gateway.AckBridge.Phases.{delivered}
use trading_gateway.AckBridge.Refinement.{AreFresh, IsSound, life, forwarded, run_refines}
use trading_gateway.AckBridge.Conservation.{
  acked_in, sent_in, immediate_in, told_needs_ack_and_delivery, told_at_most_owed,
}

-- The acknowledgment of "a" beats its delivery; "b" is delivered and never acknowledged.
abbrev race : List Call
race =
    registers "a"
    ∷ registers "b"
    ∷ acks ("a" ∷ "x" ∷ [])
    ∷ sends ("a" ∷ "b" ∷ [])
    ∷ acks ("a" ∷ [])
    ∷ []

program : Unit {0}
unfolding new find_event register_pending mark_sent_one mark_sent_all ack_one ack_all mark_sent
    handle_strategy_ack immediate_ack release forward remove_event update_event step run
program = tt

race_acks : (run race new).engine_acks ≡ ("a" ∷ []) ∷ []
unfolding program
race_acks = refl

race_fresh : AreFresh race new
unfolding program
race_fresh = (refl, (refl, (tt, (tt, (tt, tt)))))

run_refines_example : IsSound (run race new) × (life "b" (run race new) ≡ (delivered, 0))
run_refines_example = run_refines "b" race race_fresh

told_needs_ack_and_delivery_example :
    (immediate_in "a" race ≡ true) ⊎ ((acked_in "a" race ≡ true) × (sent_in "a" race ≡ true))
unfolding program
told_needs_ack_and_delivery_example = told_needs_ack_and_delivery "a" race race_fresh (omega arith)

told_at_most_owed_example : forwarded "a" (run race new).engine_acks ≤ 1
told_at_most_owed_example = told_at_most_owed "a" race race_fresh
