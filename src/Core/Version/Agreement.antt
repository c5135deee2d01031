-- ===== src/Core/Version/Agreement.antt =====
-- What the two peers agree on.
use leshiy.Prelude.{ℕ, ◌≤◌, ◌<◌, ◌≡◌, min, ◌⊎◌, arith, bit_and}
use leshiy.Prelude.Bits.{bit, bit-bit_and, bit_and_comm, bit_and_pow, bit-lt}
use leshiy.Core.Error.{Result, ok, err, no_common}
use leshiy.Core.Error
use leshiy.Core.Version.{
  Hello, Negotiated, negotiate, agreement, has_cap, clamp_idle_tolerance, default_idle_tolerance,
  min_idle_tolerance, max_idle_tolerance,
}

-- The same agreement, seen by the other peer.
abbrev pub mirror : Result Negotiated → Result Negotiated
mirror (ok n) = ok (record n {
  local_idle_tolerance = n.peer_idle_tolerance;
  peer_idle_tolerance = n.local_idle_tolerance;
})
mirror (err (Error.version (no_common a b c d))) = err (Error.version (no_common c d a b))
mirror (err e) = err e

-- The peers run the same rule and reach the same agreement, with no further message: what one
-- computes is what the other computes, with the two tolerances swapped, and if one fails, both do.
pub negotiate-mirror : (a b : Hello) → negotiate b a ≡ mirror (negotiate a b)
unfolding negotiate
negotiate-mirror a b = ground (arith, bit_and_comm a.capabilities b.capabilities)

-- A version is common when both peers support it.
abbrev pub IsCommon : Hello → Hello → ℕ → Type 0
IsCommon a b v = (a.min_supported ≤ v) × (v ≤ a.version) × (b.min_supported ≤ v) × (v ≤ b.version)

-- A negotiated version is common to both peers, and the highest such.
pub negotiate-IsCommon :
    (a b : Hello) (n : Negotiated) (v : ℕ)
    → negotiate a b ≡ ok n
    → IsCommon a b n.version × ((v ≤ n.version) ⊎ ((a.version < v) ⊎ (b.version < v)))
unfolding negotiate
negotiate-IsCommon a b n v e = ground arith

-- Negotiation fails only when there is no common version.
pub negotiate_complete :
    (a b : Hello) (v : ℕ)
    → IsCommon a b v
    → (n : Negotiated) × (negotiate a b ≡ ok n) × (v ≤ n.version)
unfolding negotiate
negotiate_complete a b v c = (agreement a b, ground arith, ground arith)

-- A capability is agreed on exactly when both peers advertise it: its bit is the smaller of theirs.
pub negotiate_capability :
    (a b : Hello) (n : Negotiated) (k : ℕ)
    → negotiate a b ≡ ok n
    → bit k n.capabilities ≡ min (bit k a.capabilities) (bit k b.capabilities)
unfolding negotiate
negotiate_capability a b n k e = ground (arith, bit-bit_and k a.capabilities b.capabilities)

-- Both peers have the tolerance that the other asked for, within 15 to 900 seconds, when both
-- advertise the capability; otherwise both have the default.
pub negotiate_tolerances :
    (a b : Hello) (n : Negotiated)
    → negotiate a b ≡ ok n
    → (((bit 4 a.capabilities ≡ 1)
          × (bit 4 b.capabilities ≡ 1)
          × (n.local_idle_tolerance ≡ clamp_idle_tolerance b.idle_tolerance)
          × (n.peer_idle_tolerance ≡ clamp_idle_tolerance a.idle_tolerance))
        ⊎ (((bit 4 a.capabilities ≡ 0) ⊎ (bit 4 b.capabilities ≡ 0))
            × (n.local_idle_tolerance ≡ default_idle_tolerance)
            × (n.peer_idle_tolerance ≡ default_idle_tolerance)))
      × (min_idle_tolerance ≤ n.local_idle_tolerance)
      × (n.local_idle_tolerance ≤ max_idle_tolerance)
      × (min_idle_tolerance ≤ n.peer_idle_tolerance)
      × (n.peer_idle_tolerance ≤ max_idle_tolerance)
unfolding negotiate has_cap clamp_idle_tolerance
negotiate_tolerances a b n e = ground (
  arith,
  bit-lt 4 a.capabilities,
  bit-lt 4 b.capabilities,
  bit-bit_and 4 a.capabilities b.capabilities,
  bit_and_pow 4 (bit_and a.capabilities b.capabilities),
)
