-- ===== src/Tls/Ja.antt =====
-- crates/leshiy-tls/src/ja.rs: ClientHelloView::parse and the fingerprints. from_utf8_lossy, SHA-256
-- and MD5 are arguments. The text of a fingerprint is its characters' numbers.
pub mod Text
pub mod Reading
pub mod View
pub mod Sorting
pub mod Parsed
pub mod Visits
pub mod Alike
pub mod Stable
mod Tests
use leshiy.Prelude.{
  ℕ, zero, suc, ◌+◌, ◌/◌, ◌%◌, not, ◌&&◌, Bool, true, false, Option, none, some, List, [], ◌∷◌,
  ◌++◌, map, length, get_or, take, ltb, ◌==◌, if◌then◌else◌,
}
use leshiy.Tls.Error.{
  Outcome, failed, done, malformed, client_hello_msg_type, client_hello_odd_suites, refuse_if,
  ◌>>=◌, ◌>>◌,
}
use leshiy.Tls.Parser.{take_slice, skip, u8, u16, u24}
use leshiy.Tls.Camouflage.{Digest}
use leshiy.Tls.ClientHello.{read_extensions}
use leshiy.Tls.Builder.{without_grease}
use leshiy.Tls.Ja.Text.{decimal, two_digits, hex4, hex_bytes, join, sort, maximum, last_or}

pub record ClientHelloView : Type 0 where
  pub legacy_version : ℕ
  pub cipher_suites : List ℕ
  pub extensions : List ℕ
  pub supported_groups : List ℕ
  pub ec_point_formats : List ℕ
  pub sig_algs : List ℕ
  pub alpn : List (List ℕ)
  pub has_sni : Bool
  pub supported_versions : List ℕ

-- `for _ in 0..n { xs.push(p.u16()?) }`
unfoldable pub read_u16s : ℕ → List ℕ → Outcome (List ℕ × List ℕ)
read_u16s zero p = done ([], p)
read_u16s (suc n) p = u16 p >>= λ x. read_u16s n x.1 >>= λ xs. done (x.0 ∷ xs.0, xs.1)

unfoldable pub read_u8s : ℕ → List ℕ → Outcome (List ℕ × List ℕ)
read_u8s zero p = done ([], p)
read_u8s (suc n) p = u8 p >>= λ x. read_u8s n x.1 >>= λ xs. done (x.0 ∷ xs.0, xs.1)

-- The loop over the protocols, with a round for each byte left.
unfoldable pub read_protocols : (List ℕ → List ℕ) → ℕ → List ℕ → Outcome (List (List ℕ))
read_protocols lossy fuel [] = done []
read_protocols lossy zero (b ∷ bs) = done []
read_protocols lossy (suc fuel) (b ∷ bs) = u8 (b ∷ bs) >>= λ n.
    take_slice n.1 n.0 >>= λ s. read_protocols lossy fuel s.1 >>= λ rest. done (lossy s.0 ∷ rest)

-- The extension's type is pushed first; then its body is read, for the types of interest.
unfoldable pub read_view :
    (List ℕ → List ℕ) → ℕ → List ℕ → ClientHelloView → Outcome ClientHelloView
read_view lossy etype ebody seen =
    let view = record seen { extensions = seen.extensions ++ (etype ∷ []) } in
    if etype == 0x0000
    then done (record view { has_sni = true })
    else if etype == 0x000a
    then (u16 ebody >>= λ l. read_u16s (l.0 / 2) l.1 >>= λ xs.
        done (record view { supported_groups = seen.supported_groups ++ xs.0 }))
    else if etype == 0x000b
    then (u8 ebody >>= λ l. read_u8s l.0 l.1 >>= λ xs.
        done (record view { ec_point_formats = seen.ec_point_formats ++ xs.0 }))
    else if etype == 0x000d
    then (u16 ebody >>= λ l.
        read_u16s (l.0 / 2) l.1 >>= λ xs. done (record view { sig_algs = seen.sig_algs ++ xs.0 }))
    else if etype == 0x0010
    then (u16 ebody >>= λ total. read_protocols lossy (length total.1) total.1 >>= λ xs.
        done (record view { alpn = seen.alpn ++ xs }))
    else if etype == 0x002b
    then (u8 ebody >>= λ l. read_u16s (l.0 / 2) l.1 >>= λ xs.
        done (record view { supported_versions = seen.supported_versions ++ xs.0 }))
    else done view

abbrev pub empty_view : ℕ → List ℕ → ClientHelloView
empty_view version suites = record {
  legacy_version = version;
  cipher_suites = suites;
  extensions = [];
  supported_groups = [];
  ec_point_formats = [];
  sig_algs = [];
  alpn = [];
  has_sni = false;
  supported_versions = [];
}

-- From the cipher suites on; `total` is the length of the message.
unfoldable pub parse_suites : (List ℕ → List ℕ) → ℕ → ℕ → List ℕ → Outcome ClientHelloView
parse_suites lossy version total p = u16 p >>= λ cs_len.
    refuse_if (not (cs_len.0 % 2 == 0)) (malformed (client_hello_odd_suites cs_len.0))
    >> (read_u16s (cs_len.0 / 2) cs_len.1 >>= λ suites. u8 suites.1 >>= λ comp.
        skip comp.1 comp.0 >>= λ rest.
        read_extensions (read_view lossy) (empty_view version suites.0) total rest)

unfoldable pub parse : (List ℕ → List ℕ) → List ℕ → Outcome ClientHelloView
parse lossy msg = u8 msg >>= λ mt.
    refuse_if (not (mt.0 == 0x01)) (malformed (client_hello_msg_type mt.0))
    >> (u24 mt.1 >>= λ len. u16 len.1 >>= λ version. skip version.1 32 >>= λ after_random.
        u8 after_random >>= λ sid.
        skip sid.1 sid.0 >>= λ after_sid. parse_suites lossy version.0 (length msg) after_sid)

-- The numbers that are not GREASE, in decimal.
unfoldable pub j_u16 : List ℕ → List ℕ
j_u16 xs = join b'-' (map decimal (without_grease xs))

unfoldable pub ja3_text : ClientHelloView → List ℕ
ja3_text v =
    decimal v.legacy_version
    ++ (b','
        ∷ (j_u16 v.cipher_suites
            ++ (b','
                ∷ (j_u16 v.extensions
                    ++ (b','
                        ∷ (j_u16 v.supported_groups
                            ++ (b',' ∷ join b'-' (map decimal v.ec_point_formats))))))))

unfoldable pub ja3 : Digest → ClientHelloView → List ℕ
ja3 md5 v = hex_bytes (md5 (ja3_text v))

abbrev pub version_text : Option ℕ → List ℕ
version_text none = b'1' ∷ b'2' ∷ []
version_text (some v) =
    if v == 0x0304
    then b'1' ∷ b'3' ∷ []
    else if v == 0x0303
    then b'1' ∷ b'2' ∷ []
    else if v == 0x0302
    then b'1' ∷ b'1' ∷ []
    else if v == 0x0301
    then b'1' ∷ b'0' ∷ []
    else b'1' ∷ b'2' ∷ []

abbrev pub alpn_tag : List (List ℕ) → List ℕ
alpn_tag [] = b'0' ∷ b'0' ∷ []
alpn_tag (a ∷ rest) = get_or a 0 b'0' ∷ last_or a b'0' ∷ []

unfoldable pub ja4_part_a : ClientHelloView → List ℕ
ja4_part_a v =
    (b't' ∷ version_text (maximum (without_grease v.supported_versions)))
    ++ ((if v.has_sni then b'd' else b'i')
        ∷ (two_digits (length (without_grease v.cipher_suites))
            ++ (two_digits (length (without_grease v.extensions)) ++ alpn_tag v.alpn)))

unfoldable pub ja4_ciphers_str : ClientHelloView → List ℕ
ja4_ciphers_str v = join b',' (map hex4 (sort (without_grease v.cipher_suites)))

-- Without the server name and ALPN.
abbrev pub without_names : List ℕ → List ℕ
without_names [] = []
without_names (x ∷ xs) =
    if not (x == 0x0000) && not (x == 0x0010) then x ∷ without_names xs else without_names xs

unfoldable pub ja4_exts_str : ClientHelloView → List ℕ
ja4_exts_str v = join b',' (map hex4 (sort (without_names (without_grease v.extensions))))

unfoldable pub ja4_sigalgs_str : ClientHelloView → List ℕ
ja4_sigalgs_str v = join b',' (map hex4 (without_grease v.sig_algs))

abbrev pub ja4_c_input : List ℕ → List ℕ → List ℕ
ja4_c_input exts_s [] = exts_s
ja4_c_input exts_s (x ∷ xs) = exts_s ++ (b'_' ∷ x ∷ xs)

unfoldable pub ja4 : Digest → ClientHelloView → List ℕ
ja4 sha256 v =
    ja4_part_a v
    ++ (b'_'
        ∷ (hex_bytes (take 6 (sha256 (ja4_ciphers_str v)))
            ++ (b'_'
                ∷ hex_bytes (take 6 (sha256 (ja4_c_input (ja4_exts_str v) (ja4_sigalgs_str v)))))))

unfoldable pub ja4_r : ClientHelloView → List ℕ
ja4_r v =
    ja4_part_a v
    ++ (b'_' ∷ (ja4_ciphers_str v ++ (b'_' ∷ (ja4_exts_str v ++ (b'_' ∷ ja4_sigalgs_str v)))))
