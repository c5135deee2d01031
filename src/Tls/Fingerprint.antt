-- ===== src/Tls/Fingerprint.antt =====
-- crates/leshiy-tls/src/fingerprint.rs: the profiles. Texts are bytes.
use leshiy.Prelude.{ℕ, List, [], ◌∷◌}

abbrev pub grease : ℕ
grease = 0x0a0a

abbrev pub grease2 : ℕ
grease2 = 0x1a1a

pub record Profile : Type 0 where
  pub name : List ℕ
  pub cipher_suites : List ℕ
  pub extensions : List ℕ
  pub supported_groups : List ℕ
  pub ec_point_formats : List ℕ
  pub sig_algs : List ℕ
  pub supported_versions : List ℕ
  pub alpn : List (List ℕ)

unfoldable pub yandex : Profile
yandex = record {
  name = b'y' ∷ b'a' ∷ b'n' ∷ b'd' ∷ b'e' ∷ b'x' ∷ [];
  cipher_suites =
      grease ∷ 4865 ∷ 4866 ∷ 4867 ∷ 49195 ∷ 49199 ∷ 49196 ∷ 49200 ∷ 52393 ∷ 52392 ∷ 49171 ∷ 49172
      ∷ 156 ∷ 157 ∷ 47 ∷ 53 ∷ [];
  extensions =
      grease ∷ 51 ∷ 27 ∷ 65281 ∷ 18 ∷ 45 ∷ 0 ∷ 35 ∷ 5 ∷ 11 ∷ 43 ∷ 16 ∷ 65037 ∷ 23 ∷ 17613 ∷ 13 ∷ 10
      ∷ grease2 ∷ [];
  supported_groups = grease ∷ 4588 ∷ 29 ∷ 23 ∷ 24 ∷ [];
  ec_point_formats = 0x00 ∷ [];
  sig_algs = 0x0403 ∷ 0x0804 ∷ 0x0401 ∷ 0x0503 ∷ 0x0805 ∷ 0x0501 ∷ 0x0806 ∷ 0x0601 ∷ [];
  supported_versions = grease ∷ 0x0304 ∷ 0x0303 ∷ [];
  alpn = (b'h' ∷ b'2' ∷ []) ∷ (b'h' ∷ b't' ∷ b't' ∷ b'p' ∷ b'/' ∷ b'1' ∷ b'.' ∷ b'1' ∷ []) ∷ [];
}

unfoldable pub chrome : Profile
unfolding yandex
chrome = record yandex { name = b'c' ∷ b'h' ∷ b'r' ∷ b'o' ∷ b'm' ∷ b'e' ∷ [] }
