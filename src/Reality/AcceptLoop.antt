-- ===== src/Reality/AcceptLoop.antt =====
-- crates/leshiy-reality/src/acceptloop.rs: the backoff and the log throttle of a failing accept().
-- Times and delays are in milliseconds.
pub mod Throttle
mod Tests
use leshiy.Prelude.{
  ℕ, ◌+◌, ◌-◌, ◌*◌, ◌^◌, min, Bool, true, not, Option, none, some, List, [], ◌∷◌, ltb,
  if◌then◌else◌,
}

abbrev pub base_delay : ℕ
base_delay = 5

abbrev pub max_delay : ℕ
max_delay = 1000

abbrev pub log_every : ℕ
log_every = 30000

pub record AcceptFailure : Type 0 where
  pub delay : ℕ
  pub log_suppressed : Option ℕ

pub record AcceptBackoff : Type 0 where
  pub consecutive : ℕ
  pub last_logged : Option ℕ
  pub suppressed : ℕ

unfoldable pub new : AcceptBackoff
new = record { consecutive = 0; last_logged = none; suppressed = 0 }

unfoldable pub record_success : AcceptBackoff → AcceptBackoff
record_success b = record { consecutive = 0; last_logged = none; suppressed = 0 }

abbrev pub due : Option ℕ → ℕ → Bool
due none now = true
due (some t) now = not (ltb (now - t) log_every)

-- The counters saturate at the bounds of a u32 and a u64.
unfoldable pub record_failure : AcceptBackoff → ℕ → AcceptBackoff × AcceptFailure
record_failure b now =
    let delay = min (base_delay * 2 ^ min b.consecutive 20) max_delay in
    let next = min (b.consecutive + 1) (2 ^ 32 - 1) in
    if due b.last_logged now
    then (
      record { consecutive = next; last_logged = some now; suppressed = 0 },
      record { delay = delay; log_suppressed = some b.suppressed },
    )
    else (
      record {
        consecutive = next;
        last_logged = b.last_logged;
        suppressed = min (b.suppressed + 1) (2 ^ 64 - 1);
      },
      record { delay = delay; log_suppressed = none },
    )
