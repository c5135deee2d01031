-- ===== src/Core/Version/Codec.antt =====
-- The HELLO on the wire, old and new formats.
use leshiy.Prelude.{
  ℕ, ◌≤◌, ◌<◌, ◌≡◌, ◌⊎◌, inl, inr, Bool-cases, ltb, ltb→lt, ltb_false→le, List, ◌++◌, length, take,
  arith,
}
use leshiy.Prelude.Bytes.{from_be-to_be}
use leshiy.Core.Error.{ok, err, short_hello}
use leshiy.Core.Error
use leshiy.Core.Version.{Hello, IsHello, encode, decode, hello_of, default_idle_tolerance}

-- A HELLO whose fields fit their types decodes to itself, whatever a newer peer appends to it.
pub decode-encode_extended :
    (h : Hello) (newer : List ℕ) → IsHello h → decode (encode h ++ newer) ≡ ok h
unfolding decode encode
decode-encode_extended h newer v = ground (
  arith,
  from_be-to_be 2 h.version,
  from_be-to_be 2 h.min_supported,
  from_be-to_be 8 h.capabilities,
  from_be-to_be 4 h.idle_tolerance,
)

-- The twelve bytes of a peer that predates the idle tolerance decode with the default, also when
-- up to three bytes follow.
pub decode_legacy :
    (h : Hello) (tail : List ℕ)
    → IsHello h
    → length tail < 4
    → decode (take 12 (encode h) ++ tail)
      ≡ ok (record h { idle_tolerance = default_idle_tolerance })
unfolding decode encode
decode_legacy h tail v short = ground (
  arith,
  from_be-to_be 2 h.version,
  from_be-to_be 2 h.min_supported,
  from_be-to_be 8 h.capabilities,
)

-- Decoding fails exactly below twelve bytes, and then with one error.
pub decode_cases :
    (b : List ℕ)
    → ((length b < 12) × (decode b ≡ err (Error.version short_hello)))
      ⊎ ((12 ≤ length b) × ((h : Hello) × (decode b ≡ ok h)))
unfolding decode
decode_cases b = elim (Bool-cases (ltb (length b) 12)) [
  | inl short ↦ inl (ltb→lt _ _ short, rw short)
  | inr long ↦ inr (ltb_false→le _ _ long, (hello_of b, rw long))
]
