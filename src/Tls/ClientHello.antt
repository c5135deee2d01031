-- ===== src/Tls/ClientHello.antt =====
-- crates/leshiy-tls/src/ja.rs: extract_client_hello_fields. Texts are bytes; from_utf8_lossy is an
-- argument.
use leshiy.Prelude.{
  ℕ, zero, suc, ◌+◌, ◌-◌, not, ◌&&◌, Option, none, some, List, [], ◌∷◌, length, take, drop, ltb,
  leb, ◌==◌, if◌then◌else◌,
}
use leshiy.Prelude.Bytes.{from_be}
use leshiy.Tls.Error.{
  Outcome, failed, done, truncated, malformed, client_hello_type, client_hello_extension_header,
  client_hello_extension_body, refuse_if, ◌>>=◌, ◌>>◌,
}
use leshiy.Tls.Parser.{take_slice, skip, u8, u16, u24}

pub record MlKemClientShare : Type 0 where
  pub ek : List ℕ
  pub x25519 : List ℕ

-- What the loop over the extensions fills in.
pub record Extracted : Type 0 where
  pub key_share_x25519 : Option (List ℕ)
  pub key_share_mlkem : Option MlKemClientShare
  pub sni : Option (List ℕ)

pub record ClientHelloFields : Type 0 where
  pub random : List ℕ
  pub session_id : List ℕ
  pub extracted : Extracted

unfoldable pub keep_share : ℕ → List ℕ → Extracted → Extracted
keep_share group key found =
    if group == 0x001d && length key == 32
    then record found { key_share_x25519 = some key }
    else if group == 0x11ec && length key == 1216
    then record found {
      key_share_mlkem = some (record { ek = take 1184 key; x25519 = take 32 (drop 1184 key) });
    }
    else found

-- The loop over the key shares, with a round for each byte: a round takes four at least.
unfoldable pub shares_loop : ℕ → List ℕ → Extracted → Outcome Extracted
shares_loop zero q found = done found
shares_loop (suc fuel) q found =
    let next = u16 q >>= λ group. u16 group.1 >>= λ klen.
    take_slice klen.1 klen.0 >>= λ key. shares_loop fuel key.1 (keep_share group.0 key.0 found) in
    if leb 4 (length q) then next else done found

unfoldable pub read_sni : (List ℕ → List ℕ) → List ℕ → Extracted → Outcome Extracted
read_sni lossy ebody found = u16 ebody >>= λ entries. u8 entries.1 >>= λ kind.
    u16 kind.1 >>= λ nlen.
    take_slice nlen.1 nlen.0 >>= λ name. done (record found { sni = some (lossy name.0) })

unfoldable pub read_extension : (List ℕ → List ℕ) → ℕ → List ℕ → Extracted → Outcome Extracted
read_extension lossy etype ebody found =
    if etype == 0x0000
    then read_sni lossy ebody found
    else if etype == 0x0033
    then (u16 ebody >>= λ entries. shares_loop (length entries.1) entries.1 found)
    else done found

-- The loop over what is left of the block, with a round for each byte, and what `read` makes of each
-- extension's type and body.
unfoldable pub extensions_loop {ℓ} :
    {A : Type ℓ} → (ℕ → List ℕ → A → Outcome A) → ℕ → List ℕ → A → Outcome A
extensions_loop read zero ext found = done found
extensions_loop read (suc fuel) [] found = done found
extensions_loop read (suc fuel) (b ∷ bs) found =
    let ext = b ∷ bs in
    let etype = from_be (take 2 ext) in
    let elen = from_be (take 2 (drop 2 ext)) in
    let body = drop 4 ext in
    let next = read etype (take elen body) found >>= λ more.
    extensions_loop read fuel (drop elen body) more in
    if ltb (length ext) 4
    then failed (malformed client_hello_extension_header)
    else if ltb (length body) elen
    then failed (malformed client_hello_extension_body)
    else next

-- `total` is the length of the message, which an error's position counts from.
unfoldable pub read_extensions {ℓ} :
    {A : Type ℓ} → (ℕ → List ℕ → A → Outcome A) → A → ℕ → List ℕ → Outcome A
read_extensions read nothing total p =
    if leb 2 (length p)
    then (u16 p >>= λ ext_total.
        if ltb (length ext_total.1) ext_total.0
        then failed (truncated (total - length ext_total.1 + ext_total.0) total)
        else extensions_loop read ext_total.0 (take ext_total.0 ext_total.1) nothing)
    else done nothing

abbrev pub nothing_extracted : Extracted
nothing_extracted = record { key_share_x25519 = none; key_share_mlkem = none; sni = none }

-- From the cipher suites on.
unfoldable pub after_session_id : (List ℕ → List ℕ) → ℕ → List ℕ → Outcome Extracted
after_session_id lossy total p = u16 p >>= λ suites. skip suites.1 suites.0 >>= λ compression.
    u8 compression >>= λ methods. skip methods.1 methods.0 >>= λ rest.
    read_extensions (read_extension lossy) nothing_extracted total rest

unfoldable pub extract_client_hello_fields : (List ℕ → List ℕ) → List ℕ → Outcome ClientHelloFields
extract_client_hello_fields lossy msg = u8 msg >>= λ kind.
    refuse_if (not (kind.0 == 0x01)) (malformed client_hello_type)
    >> (u24 kind.1 >>= λ len. u16 len.1 >>= λ version. take_slice version.1 32 >>= λ random.
        u8 random.1 >>= λ sid_len. take_slice sid_len.1 sid_len.0 >>= λ sid.
        after_session_id lossy (length msg) sid.1 >>= λ extracted.
        done (record { random = random.0; session_id = sid.0; extracted = extracted }))
