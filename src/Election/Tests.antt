-- ===== src/Election/Tests.antt =====
-- Runs of the election, and the theorem at a concrete one.
use lightbridge_opencode_too.Common.{◌≡◌, refl, false, arith}
use lightbridge_opencode_too.Election.{
  Endpoint, new_endpoint, bind_lost, connected, dropped, on_timer, bind_won, Reachable, begin, next,
  loses, connects, drops, expires, wins,
}
use lightbridge_opencode_too.Election.Roles.{HasOneRole, Reachable-HasOneRole}

-- A guest whose host goes away takes its place.
abbrev heir : Endpoint
heir = bind_won (on_timer (dropped (connected (bind_lost new_endpoint))))

heir-Reachable : Reachable heir
unfolding new_endpoint bind_lost connected dropped on_timer
heir-Reachable =
    next
      (next
        (next (next (next begin (loses (omega arith))) (connects (omega arith)))
          (drops (omega arith)))
        (expires refl))
      (wins (omega arith))

heir_live : heir.closed ≡ false
unfolding bind_won on_timer dropped connected bind_lost new_endpoint
heir_live = refl

Reachable-HasOneRole_example : HasOneRole heir
Reachable-HasOneRole_example = Reachable-HasOneRole heir heir-Reachable heir_live
