-- ===== src/Core/Version.antt =====
-- crates/leshiy-core/src/version.rs: the HELLO, exchanged inside the sealed session, and what the
-- two peers agree on from it.
pub mod Codec
pub mod Agreement
mod Tests
use leshiy.Prelude.{
  ℕ, ◌+◌, ◌<◌, ◌≤◌, ◌^◌, Bool, not, ◌||◌, List, [], ◌∷◌, ◌++◌, length, get_or, take, drop, min, max,
  ltb, leb, ◌==◌, if◌then◌else◌, bit_and,
}
use leshiy.Prelude.Bytes.{to_be, from_be}
use leshiy.Core.Error.{Result, ok, ◌>>=◌, ◌>>◌, fail_if, short_hello, no_common}
use leshiy.Core.Error

-- `1 << k`
abbrev pub cap_datagram : ℕ
cap_datagram = 2 ^ 0

abbrev pub cap_keepalive : ℕ
cap_keepalive = 2 ^ 1

abbrev pub cap_flowcontrol : ℕ
cap_flowcontrol = 2 ^ 2

abbrev pub cap_icmp : ℕ
cap_icmp = 2 ^ 3

abbrev pub cap_idle_tolerance : ℕ
cap_idle_tolerance = 2 ^ 4

abbrev pub default_idle_tolerance : ℕ
default_idle_tolerance = 45

abbrev pub max_idle_tolerance : ℕ
max_idle_tolerance = 900

abbrev pub min_idle_tolerance : ℕ
min_idle_tolerance = 15

unfoldable pub clamp_idle_tolerance : ℕ → ℕ
clamp_idle_tolerance requested = max min_idle_tolerance (min requested max_idle_tolerance)

pub record Hello : Type 0 where
  pub version : ℕ
  pub min_supported : ℕ
  pub capabilities : ℕ
  pub idle_tolerance : ℕ

-- The fields are in the ranges of their types.
pub record IsHello (h : Hello) : Type 0 where
  pub version_fits : h.version < 2 ^ 16
  pub min_fits : h.min_supported < 2 ^ 16
  pub caps_fit : h.capabilities < 2 ^ 64
  pub tolerance_fits : h.idle_tolerance < 2 ^ 32

-- `Hello::new`, for a peer that is always awake.
pub new_hello : ℕ → ℕ → ℕ → Hello
new_hello version min_supported capabilities = record {
  version = version;
  min_supported = min_supported;
  capabilities = capabilities;
  idle_tolerance = default_idle_tolerance;
}

pub record Negotiated : Type 0 where
  pub version : ℕ
  pub capabilities : ℕ
  pub local_idle_tolerance : ℕ
  pub peer_idle_tolerance : ℕ

unfoldable pub encode : Hello → List ℕ
encode h =
    to_be 2 h.version
    ++ (to_be 2 h.min_supported ++ (to_be 8 h.capabilities ++ to_be 4 h.idle_tolerance))

-- Every index is in range, since the caller has checked the length.
hello_of : List ℕ → Hello
hello_of b = record {
  version = from_be (get_or b 0 0 ∷ get_or b 1 0 ∷ []);
  min_supported = from_be (get_or b 2 0 ∷ get_or b 3 0 ∷ []);
  capabilities = from_be (take 8 (drop 4 b));
  idle_tolerance =
      if leb 16 (length b) then from_be (take 4 (drop 12 b)) else default_idle_tolerance;
}

unfoldable pub decode : List ℕ → Result Hello
unfolding hello_of
decode b = do fail_if (ltb (length b) 12) (Error.version short_hello); ok (hello_of b)

-- `capabilities & mask != 0`
unfoldable pub has_cap : ℕ → ℕ → Bool
has_cap capabilities mask = not (bit_and capabilities mask == 0)

granted : Bool → ℕ → ℕ
granted honoured requested =
    if honoured then clamp_idle_tolerance requested else default_idle_tolerance

-- The result of a negotiation that finds a common version.
agreement : Hello → Hello → Negotiated
unfolding granted
agreement local peer =
    let capabilities = bit_and local.capabilities peer.capabilities in
    let honoured = has_cap capabilities cap_idle_tolerance in
    record {
      version = min local.version peer.version;
      capabilities = capabilities;
      local_idle_tolerance = granted honoured peer.idle_tolerance;
      peer_idle_tolerance = granted honoured local.idle_tolerance;
    }

unfoldable pub negotiate : Hello → Hello → Result Negotiated
unfolding agreement
negotiate local peer = do
  let version = min local.version peer.version
  fail_if (ltb version local.min_supported || ltb version peer.min_supported)
      (Error.version (no_common local.min_supported local.version peer.min_supported peer.version))
  ok (agreement local peer)
