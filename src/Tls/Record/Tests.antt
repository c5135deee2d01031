-- ===== src/Tls/Record/Tests.antt =====
-- A record of four bytes with two more behind it, and the theorems at it.
use leshiy.Prelude.{ℕ, ◌≡◌, refl, arith, some, List, [], ◌∷◌, ◌++◌, length}
use leshiy.Tls.Error.{failed, done, malformed, record_length}
use leshiy.Tls.Record.{Record, encode, decode}
use leshiy.Tls.Record.Codec.{decode-encode_prefix}

abbrev four : Record
four = record { content_type = 0x16; payload = 1 ∷ 2 ∷ 3 ∷ 4 ∷ [] }

abbrev wire : List ℕ
wire = 0x16 ∷ 3 ∷ 3 ∷ 0 ∷ 4 ∷ 1 ∷ 2 ∷ 3 ∷ 4 ∷ 9 ∷ 9 ∷ []

wire_decodes : decode wire ≡ done (four, 9)
unfolding decode
wire_decodes = refl

oversized : decode (0x17 ∷ 3 ∷ 3 ∷ 65 ∷ 1 ∷ []) ≡ failed (malformed (record_length 16641))
unfolding decode
oversized = refl

decode-encode_prefix_example :
    (bytes : List ℕ) × (encode four ≡ some bytes)
    × (decode (bytes ++ (9 ∷ 9 ∷ [])) ≡ done (four, length bytes))
decode-encode_prefix_example = decode-encode_prefix four (9 ∷ 9 ∷ []) (omega arith)
