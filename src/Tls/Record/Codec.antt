-- ===== src/Tls/Record/Codec.antt =====
-- The record codec: what is encoded decodes, and reading a stream agrees with decoding a buffer.
use leshiy.Prelude.{
  ℕ, suc, ◌+◌, ◌/◌, ◌%◌, ◌≤◌, ◌≡◌, inl, inr, refl, subst, ap, sym, ◌∙◌, Bool-cases, some, List, [],
  ◌∷◌, ◌++◌, length, take, drop, ltb, arith, length-append, take-append, true, false,
}
use leshiy.Prelude.Bytes.{to_be, from_be, from_be-to_be}
use leshiy.Tls.Error.{failed, done, truncated, malformed, record_length}
use leshiy.Tls.Record.{
  Record, encode, decode, read_exact, read_record, header_len, max_record_on_wire,
}

take_whole : (xs ys : List ℕ) → take (length xs) (xs ++ ys) ≡ xs
take_whole xs ys = take-append xs ys (length xs) refl

decode_parts :
    (a b c d t len : ℕ) (rest : List ℕ)
    → from_be (d ∷ t ∷ []) ≡ len
    → len ≤ max_record_on_wire
    → len ≤ length rest
    → decode (a ∷ b ∷ c ∷ d ∷ t ∷ rest)
      ≡ done (record { content_type = a; payload = take len rest }, header_len + len)
unfolding decode
decode_parts a b c d t len rest e fits enough =
    let no_short : ltb (length (a ∷ b ∷ c ∷ d ∷ t ∷ rest)) header_len ≡ false = ground arith in
    let no_long : ltb max_record_on_wire len ≡ false = ground (arith, fits) in
    let whole : ltb (length (a ∷ b ∷ c ∷ d ∷ t ∷ rest)) (header_len + len) ≡ false =
      ground (arith, enough) in
    rw (no_short, e, no_long, whole) refl

-- A record whose payload is at most what the wire allows is encoded, and whatever bytes follow its
-- encoding, decoding yields the record and the length of its encoding.
pub decode-encode_prefix :
    (r : Record) (rest : List ℕ)
    → length r.payload ≤ max_record_on_wire
    → (bytes : List ℕ) × (encode r ≡ some bytes) × (decode (bytes ++ rest) ≡ done (r, length bytes))
unfolding encode decode
decode-encode_prefix r rest fits =
    let n = length r.payload in
    let short : ltb 65535 n ≡ false = ground (arith, fits) in
    let read : from_be (to_be 2 n) ≡ n = from_be-to_be 2 n (omega (arith, fits)) in
    let bytes = (r.content_type ∷ 0x03 ∷ 0x03 ∷ []) ++ to_be 2 n ++ r.payload in
    let step =
      decode_parts r.content_type 3 3 (n / 256 % 256) (n % 256) n (r.payload ++ rest) read fits
        (omega (arith, length-append r.payload rest)) in
    let width : header_len + n ≡ length bytes = omega arith in
    (
      bytes,
      rw short refl,
      step
          ∙ ap (λ xs. done (record { content_type = r.content_type; payload = xs }, header_len + n))
              (take_whole r.payload rest)
          ∙ ap (λ (m : ℕ). done (r, m)) width,
    )

drop_header :
    (a b c d t m : ℕ) (rest : List ℕ)
    → drop (header_len + m) (a ∷ b ∷ c ∷ d ∷ t ∷ rest) ≡ drop m rest
drop_header a b c d t m rest =
    let unary : header_len + m ≡ suc (suc (suc (suc (suc m)))) = omega arith in
    ap (λ k. drop k (a ∷ b ∷ c ∷ d ∷ t ∷ rest)) unary

-- When a buffer decodes, reading a record from the same bytes yields the same record and leaves
-- what follows the bytes that decoding counts.
pub read_record-decode :
    (buf : List ℕ) (r : Record) (n : ℕ)
    → decode buf ≡ done (r, n)
    → read_record buf ≡ done (r, drop n buf)
unfolding decode read_record read_exact
read_record-decode [] r n e = cc
read_record-decode (a ∷ []) r n e = cc
read_record-decode (a ∷ b ∷ []) r n e = cc
read_record-decode (a ∷ b ∷ c ∷ []) r n e = cc
read_record-decode (a ∷ b ∷ c ∷ d ∷ []) r n e = cc
read_record-decode (a ∷ b ∷ c ∷ d ∷ t ∷ rest) r n e =
    let len = from_be (d ∷ t ∷ []) in
    let no_short : ltb (length (a ∷ b ∷ c ∷ d ∷ t ∷ rest)) header_len ≡ false = ground arith in
    elim (Bool-cases (ltb max_record_on_wire len)) [
      | inl long ↦
          let bad : failed (malformed (record_length len)) ≡ done (r, n) =
            rw (no_short, long) at e in
          cc bad
      | inr fits ↦ elim (Bool-cases (ltb (length rest) len)) [
        | inl short ↦
            let early : ltb (length (a ∷ b ∷ c ∷ d ∷ t ∷ rest)) (header_len + len) ≡ true =
              ground (arith, short) in
            let bad : failed (truncated (header_len + len) (length (a ∷ b ∷ c ∷ d ∷ t ∷ rest)))
                ≡ done (r, n) =
              rw (no_short, fits, early) at e in
            cc bad
        | inr enough ↦
            let got : done (record { content_type = a; payload = take len rest }, header_len + len)
                ≡ done (r, n) =
              sym (
                decode_parts a b c d t len rest refl (ground (arith, fits))
                  (ground (arith, enough)))
              ∙ e in
            let pair : (record { content_type = a; payload = take len rest }, header_len + len)
                ≡ (r, n) =
              cc got in
            subst
              (λ (q : Record × ℕ).
                read_record (a ∷ b ∷ c ∷ d ∷ t ∷ rest)
                ≡ done (q.0, drop q.1 (a ∷ b ∷ c ∷ d ∷ t ∷ rest)))
              pair (rw (no_short, fits, enough, drop_header a b c d t len rest) refl)
      ]
    ]
