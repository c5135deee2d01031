-- ===== src/Client/Runtime.antt =====
-- crates/leshiy-client/src/runtime.rs: the actor that runs the machine's actions. A task that was
-- spawned is the generation that it will report, kept until the actor receives it; what a task or
-- the system proxy answers is part of the event. Statistics are left out.
pub mod Invariant
mod Tests
use leshiy.Prelude.{
  ℕ, ◌+◌, ◌≡◌, Bool, true, false, not, Option, none, some, List, [], ◌∷◌, ◌++◌, ◌==◌, if◌then◌else◌,
}
use leshiy.Client.Supervisor.{
  State, Input, Action, Machine, handle, new_machine, dial, set_proxy, clear_proxy, start_serving,
  stop_serving, schedule_backoff, emit, disconnected, connected, error, connect, disconnect,
  dial_succeeded, dial_failed, service_failed, tunnel_dropped, backoff_elapsed, connectivity,
}

-- What the socket and the system proxy answer while an event is handled.
pub record Answers : Type 0 where
  pub bind_ok : Bool
  pub set_ok : Bool
  pub clear_ok : Bool

-- `Inner`, with the messages under way to it: those of dials with their outcome still open, of
-- timers, and of watchers; `proxy_on` is the setting of the system itself.
pub record Inner : Type 0 where
  pub machine : Machine
  pub current : Bool
  pub listener : Bool
  pub closed_monitor : Bool
  pub generation : ℕ
  pub dialing : Option ℕ
  pub dials : List ℕ
  pub timers : List ℕ
  pub drops : List ℕ
  pub shown : State
  pub proxy_on : Bool

unfoldable pub new_inner : Bool → ℕ → ℕ → Inner
new_inner kill_switch base max = record {
  machine = new_machine kill_switch base max;
  current = false;
  listener = false;
  closed_monitor = false;
  generation = 0;
  dialing = none;
  dials = [];
  timers = [];
  drops = [];
  shown = disconnected;
  proxy_on = false;
}

abbrev pub is_some : Option ℕ → Bool
is_some none = false
is_some (some n) = true

unfoldable pub start_dial : Inner → Inner
start_dial s = if is_some s.dialing then s else record s {
  generation = s.generation + 1;
  dialing = some (s.generation + 1);
  dials = (s.generation + 1) ∷ s.dials;
}

-- The listener and the monitor both report with the generation of the tunnel.
unfoldable pub serve : Inner → Inner
serve s = record s {
  listener = true;
  closed_monitor = true;
  drops = s.generation ∷ s.generation ∷ s.drops;
}

unfoldable pub stop : Inner → Inner
stop s = record s { listener = false; closed_monitor = false; current = false }

-- The loop over the actions. `on_failure` is what `feed(ServiceFailed)` does.
unfoldable pub apply : (Inner → Inner) → Answers → List Action → Inner → Inner
apply on_failure r [] s = s
apply on_failure r (dial ∷ rest) s = apply on_failure r rest (start_dial s)
apply on_failure r (set_proxy ∷ rest) s =
    let next = apply on_failure r rest (record s { proxy_on = true }) in
    if r.set_ok
    then next
    else on_failure (record s { proxy_on = if r.clear_ok then false else s.proxy_on })
apply on_failure r (clear_proxy ∷ rest) s =
    let next = apply on_failure r rest (record s { proxy_on = false }) in
    if r.clear_ok then next else on_failure s
apply on_failure r (start_serving ∷ rest) s =
    let skipped = apply on_failure r rest s in
    let next = apply on_failure r rest (serve s) in
    if not s.current then skipped else if r.bind_ok then next else on_failure s
apply on_failure r (stop_serving ∷ rest) s = apply on_failure r rest (stop s)
apply on_failure r (schedule_backoff delay ∷ rest) s =
    apply on_failure r rest (record s { timers = s.generation ∷ s.timers })
apply on_failure r (emit state ∷ rest) s = apply on_failure r rest (record s { shown = state })

-- The actions of `ServiceFailed` cannot fail themselves, so the recursion of the source ends here.
unfoldable pub fail_service : Answers → Inner → Inner
fail_service r s =
    let h = handle s.machine service_failed in apply (λ t. t) r h.1 (record s { machine = h.0 })

unfoldable pub feed : Answers → Input → Inner → Inner
feed r i s = let h = handle s.machine i in apply (fail_service r) r h.1 (record s { machine = h.0 })

abbrev pub may_connect : State → Bool
may_connect disconnected = true
may_connect error = true
may_connect s = false

abbrev pub is_connected : State → Bool
is_connected connected = true
is_connected s = false

unfoldable pub on_connect : Answers → Inner → Inner
on_connect r s = if may_connect s.machine.state then feed r connect s else s

unfoldable pub on_disconnect : Answers → Inner → Inner
on_disconnect r s = feed r disconnect (record s { generation = s.generation + 1; dialing = none })

unfoldable pub on_dial_result : Answers → Bool → Inner → Inner
on_dial_result r succeeded s =
    let t = feed r dial_succeeded (record s { current = true }) in
    if succeeded
    then if is_connected t.machine.state then t else record t { current = false }
    else feed r dial_failed s

-- A message from a task, taken out of those under way; the generation decides if it is heeded.
unfoldable pub dial_received : Answers → ℕ → Bool → List ℕ → Inner → Inner
dial_received r g succeeded rest s =
    let t = record s { dials = rest } in
    if g == s.generation then on_dial_result r succeeded (record t { dialing = none }) else t

unfoldable pub timer_received : Answers → ℕ → List ℕ → Inner → Inner
timer_received r g rest s =
    let t = record s { timers = rest } in if g == s.generation then feed r backoff_elapsed t else t

unfoldable pub drop_received : Answers → ℕ → List ℕ → Inner → Inner
drop_received r g rest s =
    let t = record s { drops = rest } in if g == s.generation then feed r tunnel_dropped t else t

-- One turn of the loop in `run`: a command, or a message of one of the tasks, whichever comes.
pub data Step : Inner → Inner → Type 0 where
  connects : (r : Answers) (s : Inner) → Step s (on_connect r s)
  disconnects : (r : Answers) (s : Inner) → Step s (on_disconnect r s)
  network : (r : Answers) (online : Bool) (s : Inner) → Step s (feed r (connectivity online) s)
  dial_done :
      (r : Answers) (g : ℕ) (succeeded : Bool) (before after : List ℕ) (s : Inner)
      → s.dials ≡ before ++ (g ∷ after)
      → Step s (dial_received r g succeeded (before ++ after) s)
  timer_done :
      (r : Answers) (g : ℕ) (before after : List ℕ) (s : Inner)
      → s.timers ≡ before ++ (g ∷ after)
      → Step s (timer_received r g (before ++ after) s)
  drop_seen :
      (r : Answers) (g : ℕ) (before after : List ℕ) (s : Inner)
      → s.drops ≡ before ++ (g ∷ after)
      → Step s (drop_received r g (before ++ after) s)

pub data Reach (k : Bool) (base max : ℕ) : Inner → Type 0 where
  here : Reach k base max (new_inner k base max)
  next : {s t : Inner} → Reach k base max s → Step s t → Reach k base max t
