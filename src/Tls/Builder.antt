-- ===== src/Tls/Builder.antt =====
-- crates/leshiy-tls/src/client_hello.rs: the ClientHello built of a profile. What build_client_hello
-- draws from the operating system is the argument `entropy`.
pub mod Order
pub mod Shares
pub mod Extensions
pub mod Sent
pub mod Fields
use leshiy.Prelude.{ℕ, ◌+◌, ◌*◌, not, List, [], ◌∷◌, ◌++◌, map, length, get_or, ◌==◌, if◌then◌else◌}
use leshiy.Prelude.Bytes.{to_be}
use leshiy.Tls.Fingerprint.{Profile}
use leshiy.Tls.Camouflage.{
  is_grease, Grease, derive_grease, Digest, chrome_ext_permutation, grease_ech_outer,
}

-- `flat_map(|x| x.to_be_bytes())`.
abbrev pub u16s : List ℕ → List ℕ
u16s [] = []
u16s (x ∷ xs) = to_be 2 x ++ u16s xs

unfoldable pub list_u16_with_u16len : List ℕ → List ℕ
list_u16_with_u16len items = let inner = u16s items in to_be 2 (length inner) ++ inner

-- The value of this connection in the place of each GREASE placeholder.
abbrev pub regrease : ℕ → List ℕ → List ℕ
regrease g [] = []
regrease g (x ∷ xs) = (if is_grease x then g else x) ∷ regrease g xs

abbrev pub without_grease : List ℕ → List ℕ
without_grease [] = []
without_grease (t ∷ ts) = if not (is_grease t) then t ∷ without_grease ts else without_grease ts

abbrev pub alpn_protos : List (List ℕ) → List ℕ
alpn_protos [] = []
alpn_protos (a ∷ rest) = to_be 1 (length a) ++ (a ++ alpn_protos rest)

unfoldable pub sni_body : List ℕ → List ℕ
sni_body host = to_be 2 (1 + 2 + length host) ++ ((0x00 ∷ []) ++ (to_be 2 (length host) ++ host))

-- A GREASE share, the hybrid share and the x25519 share.
unfoldable pub key_share_entries : ℕ → List ℕ → List ℕ → List ℕ
key_share_entries group x25519_pub mlkem_ek =
    to_be 2 group
    ++ (to_be 2 1
        ++ ((0x00 ∷ [])
            ++ (to_be 2 0x11ec
                ++ (to_be 2 1216
                    ++ (mlkem_ek
                        ++ (x25519_pub ++ (to_be 2 0x001d ++ (to_be 2 32 ++ x25519_pub))))))))

-- What a connection sends beside its profile.
pub record HelloInput : Type 0 where
  pub sni : List ℕ
  pub x25519_pub : List ℕ
  pub mlkem_ek : List ℕ
  pub random : List ℕ
  pub entropy : List ℕ

-- An unknown type has an empty body, in a release build.
unfoldable pub build_extension : Digest → Profile → HelloInput → ℕ → List ℕ
build_extension sha256 profile input etype =
    let grease = derive_grease input.entropy in
    let entries = key_share_entries grease.group input.x25519_pub input.mlkem_ek in
    let protos = alpn_protos profile.alpn in
    let versions = regrease grease.version profile.supported_versions in
    if etype == 0x0000
    then sni_body input.sni
    else if etype == 0x000a
    then list_u16_with_u16len (regrease grease.group profile.supported_groups)
    else if etype == 0x000b
    then to_be 1 (length profile.ec_point_formats) ++ profile.ec_point_formats
    else if etype == 0x000d
    then list_u16_with_u16len profile.sig_algs
    else if etype == 0x0010
    then to_be 2 (length protos) ++ protos
    else if etype == 0x002b
    then to_be 1 (length profile.supported_versions * 2) ++ u16s versions
    else if etype == 0x0033
    then to_be 2 (length entries) ++ entries
    else if etype == 0xff01
    then 0x00 ∷ []
    else if etype == 0x002d
    then 0x01 ∷ 0x01 ∷ []
    else if etype == 0x0005
    then 0x01 ∷ 0x00 ∷ 0x00 ∷ 0x00 ∷ 0x00 ∷ []
    else if etype == 0x001b
    then 0x02 ∷ 0x00 ∷ 0x02 ∷ []
    else if etype == 0xfe0d
    then grease_ech_outer sha256 input.entropy
    else if etype == 0x44cd
    then 0x00 ∷ 0x03 ∷ 0x02 ∷ b'h' ∷ b'2' ∷ []
    else []

unfoldable pub extension : ℕ → List ℕ → List ℕ → List ℕ
extension etype body more = to_be 2 etype ++ (to_be 2 (length body) ++ (body ++ more))

-- The extensions of the given types, in front of the trailing one.
unfoldable pub extensions_of : (ℕ → List ℕ) → List ℕ → List ℕ → List ℕ
extensions_of body [] more = more
extensions_of body (t ∷ ts) more = extension t (body t) (extensions_of body ts more)

-- The types without the placeholders, in the order of this connection.
unfoldable pub order : Digest → List ℕ → List ℕ → List ℕ
order sha256 entropy middle =
    map (λ idx. get_or middle idx 0) (chrome_ext_permutation sha256 entropy (length middle))

unfoldable pub ext_bytes : Digest → Profile → HelloInput → List ℕ
ext_bytes sha256 profile input =
    let grease = derive_grease input.entropy in
    extension grease.ext1 [] (
      extensions_of (build_extension sha256 profile input)
        (order sha256 input.entropy (without_grease profile.extensions))
        (extension grease.ext2 (0x00 ∷ []) []))

-- Behind the session id.
unfoldable pub hello_tail : Digest → Profile → HelloInput → List ℕ
hello_tail sha256 profile input =
    let suites = u16s (regrease (derive_grease input.entropy).cipher profile.cipher_suites) in
    let ext = ext_bytes sha256 profile input in
    to_be 2 (length suites) ++ (suites ++ ((0x01 ∷ 0x00 ∷ []) ++ (to_be 2 (length ext) ++ ext)))

unfoldable pub build_client_hello_with_entropy : Digest → Profile → HelloInput → List ℕ
build_client_hello_with_entropy sha256 profile input =
    let body =
      (0x03 ∷ 0x03 ∷ [])
      ++ (input.random ++ ((32 ∷ []) ++ (input.random ++ hello_tail sha256 profile input))) in
    (0x01 ∷ []) ++ (to_be 3 (length body) ++ body)
