-- ===== src/Tls/Record.antt =====
-- crates/leshiy-tls/src/record.rs: a TLS record, `[type | 0x0303 | u16 length | payload]`.
-- A stream is the bytes it delivers before it ends.
pub mod Codec
mod Tests
use leshiy.Prelude.{
  ℕ, ◌+◌, Option, none, some, List, [], ◌∷◌, ◌++◌, length, get_or, take, drop, ltb, if◌then◌else◌,
}
use leshiy.Tls.Error.{
  TlsError, Outcome, failed, done, io, truncated, malformed, record_length, ◌>>=◌,
}
use leshiy.Prelude.Bytes.{to_be, from_be}

abbrev pub header_len : ℕ
header_len = 5

abbrev pub max_record_payload : ℕ
max_record_payload = 16384

abbrev pub max_record_slack : ℕ
max_record_slack = 256

abbrev pub max_record_on_wire : ℕ
max_record_on_wire = max_record_payload + max_record_slack

pub record Record : Type 0 where
  pub content_type : ℕ
  pub payload : List ℕ

-- None is the panic of `expect`.
unfoldable pub encode : Record → Option (List ℕ)
encode r =
    if ltb 65535 (length r.payload)
    then none
    else some ((r.content_type ∷ 0x03 ∷ 0x03 ∷ []) ++ to_be 2 (length r.payload) ++ r.payload)

abbrev pub length_field : List ℕ → ℕ
length_field buf = from_be (get_or buf 3 0 ∷ get_or buf 4 0 ∷ [])

unfoldable pub decode : List ℕ → Outcome (Record × ℕ)
decode buf =
    if ltb (length buf) header_len
    then failed (truncated header_len (length buf))
    else let len = length_field buf in
      let total = header_len + len in
      if ltb max_record_on_wire len
      then failed (malformed (record_length len))
      else if ltb (length buf) total
      then failed (truncated total (length buf))
      else done (
        record { content_type = get_or buf 0 0; payload = take len (drop header_len buf) },
        total,
      )

-- `read_exact`: so many bytes, or the error of a stream that ends before them.
unfoldable pub read_exact : ℕ → List ℕ → Outcome (List ℕ × List ℕ)
read_exact n stream =
    if ltb (length stream) n then failed io else done (take n stream, drop n stream)

-- The record, and the rest of the stream.
unfoldable pub read_record : List ℕ → Outcome (Record × List ℕ)
read_record stream = read_exact header_len stream >>= λ hdr.
    let len = length_field hdr.0 in
    if ltb max_record_on_wire len
    then failed (malformed (record_length len))
    else (read_exact len hdr.1 >>= λ body.
        done (record { content_type = get_or hdr.0 0 0; payload = body.0 }, body.1))
