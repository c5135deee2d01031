-- ===== src/Reality/ConnLimit.antt =====
-- crates/leshiy-reality/src/connlimit.rs: admission before authentication. An address is its octets;
-- a call and a drop each hold the lock throughout, so they are steps.
pub mod Bucket
pub mod Invariant
mod Tests
use leshiy.Prelude.{
  ℕ, zero, suc, ◌+◌, ◌-◌, ◌*◌, ◌^◌, Bool, true, false, Option, none, some, List, [], ◌∷◌, ◌++◌,
  take, drop, leb, ◌==◌, if◌then◌else◌,
}
use leshiy.Prelude.Bytes.{from_be}
use leshiy.Prelude.Net.{IpAddr, v4, v6}
use leshiy.Prelude.Assoc.{lookup, insert, erase}

unfoldable pub zeroed : List ℕ → List ℕ
zeroed [] = []
zeroed (octet ∷ octets) = 0 ∷ zeroed octets

-- The /32 of a v4 address, the /64 of a v6 address: its last eight octets are zeroed.
unfoldable pub bucket : IpAddr → IpAddr
bucket (v4 octets) = v4 octets
bucket (v6 octets) = v6 (take 8 octets ++ zeroed (drop 8 octets))

-- Addresses of both families as one number, to serve as the map's key.
unfoldable pub key_of : IpAddr → ℕ
key_of (v4 octets) = from_be octets * 2
key_of (v6 octets) = from_be octets * 2 + 1

pub record ConnLimiter : Type 0 where
  pub max_total : ℕ
  pub max_per_ip : ℕ
  pub total : ℕ
  pub per_ip : List (ℕ × ℕ)

unfoldable pub new_limiter : ℕ → ℕ → ConnLimiter
new_limiter max_total max_per_ip = record {
  max_total = max_total;
  max_per_ip = max_per_ip;
  total = 0;
  per_ip = [];
}

abbrev pub count_or_zero : Option ℕ → ℕ
count_or_zero none = 0
count_or_zero (some n) = n

-- The guard of an admitted connection is the key of its bucket.
unfoldable pub try_acquire : ConnLimiter → IpAddr → ConnLimiter × Option ℕ
try_acquire g ip =
    let key = key_of (bucket ip) in
    let cur = count_or_zero (lookup key g.per_ip) in
    if leb g.max_total g.total
    then (g, none)
    else if leb g.max_per_ip cur
    then (g, none)
    else (record g { total = g.total + 1; per_ip = insert key (cur + 1) g.per_ip }, some key)

unfoldable pub release_count : ℕ → List (ℕ × ℕ) → Option ℕ → List (ℕ × ℕ)
release_count key per_ip none = per_ip
release_count key per_ip (some c) =
    if c - 1 == 0 then erase key per_ip else insert key (c - 1) per_ip

-- `ConnGuard::drop`. A count in the map is at least one, so `*c -= 1` does not wrap.
unfoldable pub drop_guard : ConnLimiter → ℕ → ConnLimiter
unfolding release_count
drop_guard g key = record g {
  total = g.total - 1;
  per_ip = release_count key g.per_ip (lookup key g.per_ip);
}

-- What happens: a connection is tried, or the guard at an index of the held ones is dropped.
pub data Event : Type 0 where
  connects : IpAddr → Event
  drops : ℕ → Event

pub record State : Type 0 where
  pub limiter : ConnLimiter
  pub held : List ℕ

abbrev pub hold : Option ℕ → List ℕ → List ℕ
hold none held = held
hold (some key) held = key ∷ held

abbrev pub behind : ℕ → Option (ℕ × List ℕ) → Option (ℕ × List ℕ)
behind key none = none
behind key (some p) = some (p.0, key ∷ p.1)

unfoldable pub remove_at : ℕ → List ℕ → Option (ℕ × List ℕ)
remove_at i [] = none
remove_at zero (key ∷ held) = some (key, held)
remove_at (suc i) (key ∷ held) = behind key (remove_at i held)

abbrev pub dropped : State → Option (ℕ × List ℕ) → State
dropped s none = s
dropped s (some p) = record { limiter = drop_guard s.limiter p.0; held = p.1 }

unfoldable pub step : State → Event → State
step s (connects ip) =
    let r = try_acquire s.limiter ip in record { limiter = r.0; held = hold r.1 s.held }
step s (drops i) = dropped s (remove_at i s.held)

unfoldable pub run : State → List Event → State
run s [] = s
run s (e ∷ es) = run (step s e) es
