-- ===== src/Tls/Messages.antt =====
-- crates/leshiy-tls/src/tls13/messages.rs: handshake messages, built and parsed. A cursor into a
-- body is its position and the bytes from there on, so that an index is the head of what is left.
pub mod Cursor
pub mod RoundTrip
pub mod Certificates
mod Tests
use leshiy.Prelude.{
  ℕ, zero, suc, ◌+◌, ◌-◌, Bool, true, false, not, ◌&&◌, ◌||◌, Option, none, some, List, [], ◌∷◌,
  ◌++◌, length, get_or, take, drop, ltb, leb, ◌==◌, if◌then◌else◌,
}
use leshiy.Prelude.Bytes.{to_be, from_be}
use leshiy.Tls.Error.{
  Outcome, failed, done, truncated, malformed, server_hello_type, server_hello_truncated,
  server_hello_key_share, certificate_type, certificate_empty, certificate_overrun,
  certificate_verify_bad, finished_type, refuse_if, ◌>>=◌, ◌>>◌,
}

unfoldable pub hs_msg : ℕ → List ℕ → List ℕ
hs_msg msg_type body = msg_type ∷ (to_be 3 (length body) ++ body)

-- The type and the body of one message.
unfoldable pub parse_hs_msg : List ℕ → Outcome (ℕ × List ℕ)
parse_hs_msg msg =
    let len = from_be (get_or msg 1 0 ∷ get_or msg 2 0 ∷ get_or msg 3 0 ∷ []) in
    if ltb (length msg) 4
    then failed (truncated 4 (length msg))
    else if ltb (length msg) (4 + len)
    then failed (truncated (4 + len) (length msg))
    else done (get_or msg 0 0, take len (drop 4 msg))

pub record ServerHelloParams : Type 0 where
  pub suite : ℕ
  pub server_random : List ℕ
  pub session_id_echo : List ℕ
  pub key_share_group : ℕ
  pub key_share : List ℕ

-- supported_versions with 0x0304, then key_share.
unfoldable pub server_hello_extensions : ServerHelloParams → List ℕ
server_hello_extensions p =
    (0x00 ∷ 0x2b ∷ 0x00 ∷ 0x02 ∷ 0x03 ∷ 0x04 ∷ 0x00 ∷ 0x33 ∷ [])
    ++ (to_be 2 (4 + length p.key_share)
        ++ (to_be 2 p.key_share_group ++ (to_be 2 (length p.key_share) ++ p.key_share)))

-- `len() as u8` and `as u16` keep the low bytes, as `to_be` does.
unfoldable pub build_server_hello : ServerHelloParams → List ℕ
build_server_hello p =
    let ext = server_hello_extensions p in
    hs_msg 0x02 (
      (0x03 ∷ 0x03 ∷ [])
      ++ (p.server_random
          ++ (to_be 1 (length p.session_id_echo)
              ++ (p.session_id_echo
                  ++ (to_be 2 p.suite ++ ((0x00 ∷ []) ++ (to_be 2 (length ext) ++ ext)))))))

abbrev pub Cursor : Type 0
Cursor = ℕ × List ℕ

unfoldable pub take_bytes : Cursor → ℕ → Outcome (List ℕ × Cursor)
take_bytes c n =
    if ltb (length c.1) n
    then failed (truncated (c.0 + n) (c.0 + length c.1))
    else done (take n c.1, (c.0 + n, drop n c.1))

-- `if p + 2 > body.len() { return Err(trunc()) }`, and the two bytes.
unfoldable pub take_u16 : Cursor → Outcome (ℕ × Cursor)
take_u16 c =
    if ltb (length c.1) 2
    then failed (malformed server_hello_truncated)
    else done (from_be (take 2 c.1), (c.0 + 2, drop 2 c.1))

-- What the loop over the extensions has found: the group and the share.
abbrev pub Share : Type 0
Share = ℕ × List ℕ

-- An extension at the front of what is left of the block, its header taken off: `elen` may end
-- before the share does, which is bounded by the block.
unfoldable pub read_share : ℕ → ℕ → List ℕ → Share → Share
read_share etype elen ext found =
    let kl = from_be (take 2 (drop 2 ext)) in
    if etype == 0x0033 && leb 4 elen
    then (from_be (take 2 ext), if leb (4 + kl) (length ext) then take kl (drop 4 ext) else found.1)
    else found

-- The loop, with a round for each byte of the block: a round takes four bytes at least.
unfoldable pub share_loop : ℕ → List ℕ → Share → Share
share_loop zero ext found = found
share_loop (suc fuel) ext found =
    let etype = from_be (take 2 ext) in
    let elen = from_be (take 2 (drop 2 ext)) in
    let body = drop 4 ext in
    let next = share_loop fuel (drop elen body) (read_share etype elen body found) in
    if ltb (length ext) 4 then found else if ltb (length body) elen then found else next

unfoldable pub parse_server_hello_body : List ℕ → Outcome ServerHelloParams
parse_server_hello_body body = take_bytes (0, body) 2 >>= λ version.
    take_bytes version.1 32 >>= λ random. take_bytes random.1 1 >>= λ sid_len.
    take_bytes sid_len.1 (get_or sid_len.0 0 0) >>= λ sid. take_u16 sid.1 >>= λ suite.
    take_bytes suite.1 1 >>= λ compression. take_u16 compression.1 >>= λ ext_total.
    let ext = take ext_total.0 ext_total.1.1 in
    let share = share_loop (length ext) ext (0, []) in
    done (record {
      suite = suite.0;
      server_random = random.0;
      session_id_echo = sid.0;
      key_share_group = share.0;
      key_share = share.1;
    })

unfoldable pub parse_server_hello : List ℕ → Outcome ServerHelloParams
parse_server_hello msg = parse_hs_msg msg >>= λ m.
    refuse_if (not (m.0 == 0x02)) (malformed server_hello_type) >> parse_server_hello_body m.1

abbrev pub share_fits : ℕ → ℕ → Bool
share_fits group len = (group == 0x001d && len == 32) || (group == 0x11ec && len == 1120)

unfoldable pub adapt_server_hello : List ℕ → List ℕ → Outcome (List ℕ)
adapt_server_hello dest_sh new_share = parse_server_hello dest_sh >>= λ p.
    if share_fits p.key_share_group (length new_share)
    then done (build_server_hello (record p { key_share = new_share }))
    else failed (malformed server_hello_key_share)

abbrev pub alpn_extension : Option (List ℕ) → List ℕ
alpn_extension none = []
alpn_extension (some a) =
    let protos = to_be 1 (length a) ++ a in
    to_be 2 0x0010 ++ (to_be 2 (length protos + 2) ++ (to_be 2 (length protos) ++ protos))

unfoldable pub build_encrypted_extensions : Option (List ℕ) → List ℕ
build_encrypted_extensions alpn =
    let ext = alpn_extension alpn in hs_msg 0x08 (to_be 2 (length ext) ++ ext)

unfoldable pub certificate_entry : List ℕ → List ℕ
certificate_entry cert_der = to_be 3 (length cert_der) ++ (cert_der ++ (0x00 ∷ 0x00 ∷ []))

unfoldable pub build_certificate : List ℕ → List ℕ
build_certificate cert_der =
    let entry = certificate_entry cert_der in
    hs_msg 0x0b ((0x00 ∷ []) ++ (to_be 3 (length entry) ++ entry))

-- A length of three bytes, which must lie before the end `pos + length left`.
unfoldable pub take_u24 : Cursor → Outcome (ℕ × Cursor)
take_u24 c =
    if ltb (length c.1) 3
    then failed (truncated (c.0 + 3) (c.0 + length c.1))
    else done (from_be (take 3 c.1), (c.0 + 3, drop 3 c.1))

-- After the request context: the list within the body, then the first entry within the list.
unfoldable pub parse_certificate_list : Cursor → Outcome (List ℕ)
parse_certificate_list c = take_u24 c >>= λ list_len.
    take_bytes list_len.1 list_len.0 >>= λ entries.
    take_u24 (list_len.1.0, entries.0) >>= λ cert_len.
    if ltb (length cert_len.1.1) cert_len.0
    then failed (malformed certificate_overrun)
    else done (take cert_len.0 cert_len.1.1)

unfoldable pub parse_certificate_body : List ℕ → Outcome (List ℕ)
parse_certificate_body [] = failed (malformed certificate_empty)
parse_certificate_body (ctx_len ∷ rest) =
    if ltb (length rest) (ctx_len + 3)
    then failed (truncated (1 + ctx_len + 3) (1 + length rest))
    else parse_certificate_list (1 + ctx_len, drop ctx_len rest)

unfoldable pub parse_certificate : List ℕ → Outcome (List ℕ)
parse_certificate msg = parse_hs_msg msg >>= λ m.
    refuse_if (not (m.0 == 0x0b)) (malformed certificate_type) >> parse_certificate_body m.1

unfoldable pub build_certificate_verify : ℕ → List ℕ → List ℕ
build_certificate_verify alg signature =
    hs_msg 0x0f (to_be 2 alg ++ (to_be 2 (length signature) ++ signature))

unfoldable pub parse_certificate_verify : List ℕ → Outcome (ℕ × List ℕ)
parse_certificate_verify msg = parse_hs_msg msg >>= λ m.
    let body = m.1 in
    let slen = from_be (take 2 (drop 2 body)) in
    refuse_if (not (m.0 == 0x0f) || ltb (length body) 4) (malformed certificate_verify_bad)
    >> (if ltb (length body) (4 + slen)
        then failed (truncated (4 + slen) (length body))
        else done (from_be (take 2 body), take slen (drop 4 body)))

unfoldable pub build_finished : List ℕ → List ℕ
build_finished verify_data = hs_msg 0x14 verify_data

unfoldable pub parse_finished : List ℕ → Outcome (List ℕ)
parse_finished msg =
    parse_hs_msg msg >>= λ m. refuse_if (not (m.0 == 0x14)) (malformed finished_type) >> done m.1
