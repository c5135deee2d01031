-- ===== src/Client/Supervisor.antt =====
-- crates/leshiy-client/src/supervisor.rs: the pure connection state machine. A duration is its number
-- of nanoseconds.
pub mod Backoff
use leshiy.Prelude.{
  ℕ, ◌+◌, ◌-◌, ◌*◌, ◌^◌, min, Bool, true, false, not, ◌&&◌, List, [], ◌∷◌, ◌++◌, if◌then◌else◌,
}

pub data State : Type 0 where
  disconnected connecting connected reconnecting error : State

pub data Input : Type 0 where
  connect disconnect dial_succeeded dial_failed service_failed tunnel_dropped : Input
  backoff_elapsed : Input
  connectivity : Bool → Input

pub data Action : Type 0 where
  dial set_proxy clear_proxy start_serving stop_serving : Action
  schedule_backoff : ℕ → Action
  emit : State → Action

-- `Duration::MAX`
abbrev pub max_duration : ℕ
max_duration = 2 ^ 64 * 1000000000 - 1

-- `2u32.saturating_pow(n)`
abbrev pub saturating_pow : ℕ → ℕ
saturating_pow n = min (2 ^ n) (2 ^ 32 - 1)

unfoldable pub backoff_delay : ℕ → ℕ → ℕ → ℕ
backoff_delay attempt base max = min (min (base * saturating_pow (min attempt 16)) max_duration) max

pub record Machine : Type 0 where
  pub state : State
  pub kill_switch : Bool
  pub proxy_set : Bool
  pub attempt : ℕ
  pub base : ℕ
  pub max : ℕ
  pub online : Bool

unfoldable pub new_machine : Bool → ℕ → ℕ → Machine
new_machine kill_switch base max = record {
  state = disconnected;
  kill_switch = kill_switch;
  proxy_set = false;
  attempt = 0;
  base = base;
  max = max;
  online = true;
}

-- `if test { a.push(action) }`
abbrev pub push_if : Bool → Action → List Action
push_if test action = if test then action ∷ [] else []

-- The arms of both dial outcomes that end in `Connected`.
adopt : Machine → Machine × List Action
adopt m = (
  record m { state = connected; proxy_set = true },
  start_serving ∷ (push_if (not m.proxy_set) set_proxy ++ (emit connected ∷ [])),
)

drop_tunnel : Machine → Machine × List Action
drop_tunnel m =
    let clears = not m.kill_switch && m.proxy_set in
    (
      record m {
        state = reconnecting;
        attempt = 0;
        proxy_set = if clears then false else m.proxy_set;
      },
      stop_serving
          ∷ (push_if clears clear_proxy
              ++ (schedule_backoff (backoff_delay 0 m.base m.max) ∷ emit reconnecting ∷ [])),
    )

-- The end of a connection that may hold the proxy: it is cleared if it was set.
release : Machine → Machine × List Action
release m = (
  record m { state = disconnected; proxy_set = false },
  push_if m.proxy_set clear_proxy ++ (emit disconnected ∷ []),
)

-- The network is back: dial at once, unless it was never away.
back_online : Machine → Bool → Machine × List Action
back_online m o =
    if o && not m.online
    then (record m { online = o; attempt = 0 }, dial ∷ [])
    else (record m { online = o }, [])

retry : Machine → Machine × List Action
retry m =
    let attempt = min (m.attempt + 1) (2 ^ 32 - 1) in
    (record m { attempt = attempt }, schedule_backoff (backoff_delay attempt m.base m.max) ∷ [])

then_stop : Machine × List Action → Machine × List Action
then_stop r = (r.0, stop_serving ∷ r.1)

-- The arms of the match, by the state and the input.
handle_at : State → Input → Machine → Machine × List Action
unfolding adopt drop_tunnel release back_online retry then_stop
handle_at s service_failed m =
    (record m { state = error; proxy_set = false }, stop_serving ∷ emit error ∷ [])
handle_at error disconnect m = (
  record m { state = disconnected; proxy_set = false },
  stop_serving ∷ clear_proxy ∷ emit disconnected ∷ [],
)
handle_at disconnected connect m =
    (record m { state = connecting; attempt = 0 }, emit connecting ∷ dial ∷ [])
handle_at error connect m =
    (record m { state = connecting; attempt = 0 }, emit connecting ∷ dial ∷ [])
handle_at connecting dial_succeeded m = adopt m
handle_at connecting dial_failed m = (record m { state = error }, emit error ∷ [])
handle_at connecting disconnect m =
    (record m { state = disconnected; proxy_set = false }, clear_proxy ∷ emit disconnected ∷ [])
handle_at connected tunnel_dropped m = drop_tunnel m
handle_at connected disconnect m = then_stop (release m)
handle_at reconnecting backoff_elapsed m = (m, push_if m.online dial)
handle_at reconnecting (connectivity o) m = back_online m o
handle_at reconnecting dial_succeeded m = adopt (record m { attempt = 0 })
handle_at reconnecting dial_failed m = retry m
handle_at reconnecting disconnect m = release m
handle_at s (connectivity o) m = (record m { online = o }, [])
handle_at s i m = (m, [])

unfoldable pub handle : Machine → Input → Machine × List Action
unfolding handle_at
handle m i = handle_at m.state i m
