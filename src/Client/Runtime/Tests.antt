-- ===== src/Client/Runtime/Tests.antt =====
-- An actor that connected and lost its tunnel, and the theorems at it.
use leshiy.Prelude.{min, ◌≤◌, ◌≡◌, ◌⊎◌, refl, true, false, none, [], ◌∷◌, arith}
use leshiy.Client.Supervisor.{handle, new_machine, backoff_delay, reconnecting, disconnected, error}
use leshiy.Client.Supervisor.Backoff.{backoff_delay_bounds}
use leshiy.Client.Runtime.{
  Answers, Inner, new_inner, start_dial, serve, stop, apply, fail_service, feed, on_connect,
  on_disconnect, on_dial_result, dial_received, drop_received, Reach, here, next, connects,
  dial_done, drop_seen,
}
use leshiy.Client.Runtime.Invariant.{Inv, pending, actor-Inv, on_disconnect_releases}

abbrev fine : Answers
fine = record { bind_ok = true; set_ok = true; clear_ok = true }

-- With the kill switch on, backing off from half a second to thirty.
abbrev fresh : Inner
fresh = new_inner true 500000000 30000000000

abbrev dialled : Inner
dialled = on_connect fine fresh

abbrev live : Inner
live = dial_received fine 1 true [] dialled

abbrev lost : Inner
lost = drop_received fine 1 (1 ∷ []) live

lost_reached : Reach true 500000000 30000000000 lost
unfolding on_connect on_dial_result dial_received drop_received feed handle apply start_dial serve
    stop fail_service new_inner new_machine
lost_reached =
    next (next (next here (connects fine fresh)) (dial_done fine 1 true [] [] dialled refl))
      (drop_seen fine 1 [] (1 ∷ []) live refl)

lost_state : lost.machine.state ≡ reconnecting
unfolding on_connect on_dial_result dial_received drop_received feed handle apply start_dial serve
    stop fail_service new_inner new_machine
lost_state = refl

actor-Inv_example : Inv lost
actor-Inv_example = actor-Inv true 500000000 30000000000 lost_reached

on_disconnect_releases_example :
    let t = on_disconnect fine lost in
    (t.listener ≡ false)
    × (t.dialing ≡ none)
    × (pending t.generation t.dials ≡ 0)
    × ((t.shown ≡ disconnected) × (t.proxy_on ≡ false)
        ⊎ (t.shown ≡ error) × (fine.clear_ok ≡ false))
on_disconnect_releases_example =
    on_disconnect_releases true 500000000 30000000000 lost fine lost_reached

backoff_delay_bounds_example :
    (backoff_delay 3 500000000 30000000000 ≤ 30000000000)
    × (min 500000000 30000000000 ≤ backoff_delay 3 500000000 30000000000)
    × (backoff_delay 3 500000000 30000000000 ≤ backoff_delay 9 500000000 30000000000)
backoff_delay_bounds_example =
    backoff_delay_bounds 3 9 500000000 30000000000 (omega arith) (omega arith) (omega arith)
