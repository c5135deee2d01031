-- ===== src/Client/Runtime/Invariant.antt =====
-- What holds of the actor whatever the user, the network and its tasks do, in any order.
use leshiy.Prelude.{
  ℕ, max, ◌+◌, ◌≤◌, ◌<◌, ◌≡◌, ◌⊎◌, refl, ap, ◌∙◌, Bool, true, false, none, some, List, [], ◌∷◌,
  ◌++◌, ◌==◌, if◌then◌else◌, arith,
}
use leshiy.Client.Supervisor.{
  State, handle, new_machine, disconnected, connecting, connected, reconnecting, error,
  connectivity,
}
use leshiy.Client.Runtime.{
  Answers, Inner, new_inner, is_some, start_dial, serve, stop, apply, fail_service, feed,
  on_connect, on_disconnect, on_dial_result, dial_received, timer_received, drop_received, Step,
  connects, disconnects, network, dial_done, timer_done, drop_seen, Reach, here, next,
}

-- How many messages of a generation are under way.
abbrev pub pending : ℕ → List ℕ → ℕ
pending g [] = 0
pending g (x ∷ xs) = let others = pending g xs in if x == g then others + 1 else others

abbrev pub newest : List ℕ → ℕ
newest [] = 0
newest (x ∷ xs) = max x (newest xs)

pending-newest : (g : ℕ) (xs : List ℕ) → newest xs < g → pending g xs ≡ 0
pending-newest g [] h = refl
pending-newest g (x ∷ xs) h = ground (arith, pending-newest g xs)

-- By the state: what serves, where the proxy points, and what will wake the actor.
abbrev pub Shape : State → Inner → Type 0
Shape disconnected s =
    (s.listener ≡ false)
    × (s.current ≡ false)
    × (s.dialing ≡ none)
    × (s.machine.proxy_set ≡ false)
    × (s.proxy_on ≡ false)
Shape error s =
    (s.listener ≡ false) × (s.current ≡ false) × (s.dialing ≡ none) × (s.machine.proxy_set ≡ false)
Shape connecting s =
    (s.listener ≡ false)
    × (s.current ≡ false)
    × (s.dialing ≡ some s.generation)
    × (s.machine.proxy_set ≡ false)
Shape connected s =
    (s.listener ≡ true)
    × (s.current ≡ true)
    × (s.dialing ≡ none)
    × (s.machine.proxy_set ≡ true)
    × (s.proxy_on ≡ true)
Shape reconnecting s =
    (s.listener ≡ false)
    × (s.current ≡ false)
    × (s.machine.proxy_set ≡ s.proxy_on)
    × (s.machine.kill_switch ≡ true → s.proxy_on ≡ true)
    × ((s.dialing ≡ some s.generation)
        ⊎ (s.dialing ≡ none) × (1 ≤ pending s.generation s.timers)
        ⊎ (s.dialing ≡ none) × (s.machine.online ≡ false))

pub record Inv (s : Inner) : Type 0 where
  pub shape : Shape s.machine.state s
  pub shown_right : s.shown ≡ s.machine.state
  pub fresh : newest s.dials ≤ s.generation
  pub only_dial : pending s.generation s.dials ≡ (if is_some s.dialing then 1 else 0)

new_inner-Inv : (k : Bool) (base max : ℕ) → Inv (new_inner k base max)
unfolding new_inner new_machine
new_inner-Inv k base max = ground arith

module _ (r : Answers) (s : Inner) (v : Inv s) where
  connectivity-Inv : (o : Bool) → Inv (feed r (connectivity o) s)
  unfolding feed handle apply start_dial serve stop fail_service
  connectivity-Inv o = ground (arith, pending-newest (s.generation + 1) s.dials)

  on_connect-Inv : Inv (on_connect r s)
  unfolding on_connect feed handle apply start_dial serve stop fail_service
  on_connect-Inv = ground (arith, pending-newest (s.generation + 1) s.dials)

  on_disconnect-Inv : Inv (on_disconnect r s)
  unfolding on_disconnect feed handle apply start_dial serve stop fail_service
  on_disconnect-Inv = ground (arith, pending-newest (s.generation + 1) s.dials)

  timer_received-Inv :
      (g : ℕ) (rest : List ℕ)
      → (pending s.generation s.timers ≡ (
          if g == s.generation then pending s.generation rest + 1 else pending s.generation rest))
      → Inv (timer_received r g rest s)
  unfolding timer_received feed handle apply start_dial serve stop fail_service
  timer_received-Inv g rest t = ground (arith, pending-newest (s.generation + 1) s.dials)

  drop_received-Inv : (g : ℕ) (rest : List ℕ) → Inv (drop_received r g rest s)
  unfolding drop_received feed handle apply start_dial serve stop fail_service
  drop_received-Inv g rest = ground (arith, pending-newest (s.generation + 1) s.dials)

  dial_received-Inv :
      (g : ℕ) (ok : Bool) (rest : List ℕ)
      → (pending s.generation s.dials ≡ (
          if g == s.generation then pending s.generation rest + 1 else pending s.generation rest))
      → newest rest ≤ newest s.dials
      → Inv (dial_received r g ok rest s)
  unfolding dial_received on_dial_result feed handle apply start_dial serve stop fail_service
  dial_received-Inv g ok rest t u = ground (arith)

-- Taking a message out of those under way.
pending-taken :
    (n g : ℕ) (before after : List ℕ)
    → pending n (before ++ (g ∷ after))
      ≡ (if g == n then pending n (before ++ after) + 1 else pending n (before ++ after))
pending-taken n g [] after = refl
pending-taken n g (x ∷ before) after = ground (arith, pending-taken n g before after)

newest-taken :
    (g : ℕ) (before after : List ℕ) → newest (before ++ after) ≤ newest (before ++ (g ∷ after))
newest-taken g [] after = omega arith
newest-taken g (x ∷ before) after = omega (arith, newest-taken g before after)

Step-Inv : {s t : Inner} → Step s t → Inv s → Inv t
Step-Inv (connects r s) v = on_connect-Inv r s v
Step-Inv (disconnects r s) v = on_disconnect-Inv r s v
Step-Inv (network r online s) v = connectivity-Inv r s v online
Step-Inv (dial_done r g ok before after s e) v =
    dial_received-Inv r s v g ok (before ++ after)
      (ap (pending s.generation) e ∙ pending-taken s.generation g before after)
      (rw e (newest-taken g before after))
Step-Inv (timer_done r g before after s e) v =
    timer_received-Inv r s v g (before ++ after)
      (ap (pending s.generation) e ∙ pending-taken s.generation g before after)
Step-Inv (drop_seen r g before after s e) v = drop_received-Inv r s v g (before ++ after)

-- In every state that the actor reaches, in whatever order commands and messages come and whatever
-- the socket and the proxy answer, the state shown is the machine's; only a connected actor serves,
-- and then the proxy is set; a disconnected one has no dial in flight and the proxy cleared; a
-- connecting one has exactly one dial in flight; a reconnecting one holds the proxy if the kill
-- switch is on, and has a dial in flight or a timer that will be heeded unless it is offline.
pub actor-Inv : (k : Bool) (base max : ℕ) {s : Inner} → Reach k base max s → Inv s
actor-Inv k base max here = new_inner-Inv k base max
actor-Inv k base max (next r st) = Step-Inv st (actor-Inv k base max r)

-- A user who disconnects from any state that the actor reaches is disconnected at once, with nothing
-- served, no dial to be heeded and the proxy cleared, or else the
-- state shown is the error state, and the proxy refused to be cleared.
pub on_disconnect_releases :
    (k : Bool) (base max : ℕ) (s : Inner) (r : Answers)
    → Reach k base max s
    → let t = on_disconnect r s in
      (t.listener ≡ false)
      × (t.dialing ≡ none)
      × (pending t.generation t.dials ≡ 0)
      × ((t.shown ≡ disconnected) × (t.proxy_on ≡ false) ⊎ (t.shown ≡ error) × (r.clear_ok ≡ false))
unfolding on_disconnect feed handle apply start_dial serve stop fail_service
on_disconnect_releases k base max s r reach = released (actor-Inv k base max reach)
  where
    released :
        Inv s
        → let t = on_disconnect r s in
          (t.listener ≡ false)
          × (t.dialing ≡ none)
          × (pending t.generation t.dials ≡ 0)
          × ((t.shown ≡ disconnected) × (t.proxy_on ≡ false)
              ⊎ (t.shown ≡ error) × (r.clear_ok ≡ false))
    released v = ground (arith, pending-newest (s.generation + 1) s.dials)
