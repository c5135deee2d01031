-- ===== src/Tls/Ja/Tests.antt =====
-- The JA4 text of the default profile is the repository's golden one, and the theorems at it.
use leshiy.Prelude.{ℕ, ◌≡◌, refl, arith, List, [], ◌∷◌, length, ltb→lt, zero, suc}
use leshiy.Tls.Error.{done, ◌>>=◌}
use leshiy.Tls.Camouflage.{
  Digest, is_grease, grease_ech_outer, derive_grease, grease_from_byte, distinct_from, expand,
  expand_loop, chrome_ext_permutation, shuffle, swap, le_word, range,
}
use leshiy.Tls.Fingerprint.{yandex}
use leshiy.Tls.Builder.{
  HelloInput, build_extension, extension, extensions_of, order, ext_bytes, sni_body,
  key_share_entries, list_u16_with_u16len, build_client_hello_with_entropy, regrease,
}
use leshiy.Tls.Builder.Extensions.{visits}
use leshiy.Tls.Builder.Sent.{IsHello, sent_types}
use leshiy.Tls.Ja.{
  ja4_part_a, ja4_ciphers_str, ja4_exts_str, ja4_sigalgs_str, ja4_r, ja4, parse, read_view,
  empty_view,
}
use leshiy.Tls.Ja.Text.{decimal, two_digits, hex4, join, sort, insert}
use leshiy.Tls.Ja.View.{IsProfile, add_to_view}
use leshiy.Tls.Ja.Parsed.{parse-build_client_hello_with_entropy}
use leshiy.Tls.Ja.Stable.{profile_view, HasOnce, ja4-build_client_hello_with_entropy}

abbrev same_text : List ℕ → List ℕ
same_text name = name

golden : List ℕ
golden =
    b't' ∷ b'1' ∷ b'3' ∷ b'd' ∷ b'1' ∷ b'5' ∷ b'1' ∷ b'6' ∷ b'h' ∷ b'2' ∷ b'_' ∷ b'0' ∷ b'0' ∷ b'2'
    ∷ b'f' ∷ b',' ∷ b'0' ∷ b'0' ∷ b'3' ∷ b'5' ∷ b',' ∷ b'0' ∷ b'0' ∷ b'9' ∷ b'c' ∷ b',' ∷ b'0'
    ∷ b'0' ∷ b'9' ∷ b'd' ∷ b',' ∷ b'1' ∷ b'3' ∷ b'0' ∷ b'1' ∷ b',' ∷ b'1' ∷ b'3' ∷ b'0' ∷ b'2'
    ∷ b',' ∷ b'1' ∷ b'3' ∷ b'0' ∷ b'3' ∷ b',' ∷ b'c' ∷ b'0' ∷ b'1' ∷ b'3' ∷ b',' ∷ b'c' ∷ b'0'
    ∷ b'1' ∷ b'4' ∷ b',' ∷ b'c' ∷ b'0' ∷ b'2' ∷ b'b' ∷ b',' ∷ b'c' ∷ b'0' ∷ b'2' ∷ b'c' ∷ b','
    ∷ b'c' ∷ b'0' ∷ b'2' ∷ b'f' ∷ b',' ∷ b'c' ∷ b'0' ∷ b'3' ∷ b'0' ∷ b',' ∷ b'c' ∷ b'c' ∷ b'a'
    ∷ b'8' ∷ b',' ∷ b'c' ∷ b'c' ∷ b'a' ∷ b'9' ∷ b'_' ∷ b'0' ∷ b'0' ∷ b'0' ∷ b'5' ∷ b',' ∷ b'0'
    ∷ b'0' ∷ b'0' ∷ b'a' ∷ b',' ∷ b'0' ∷ b'0' ∷ b'0' ∷ b'b' ∷ b',' ∷ b'0' ∷ b'0' ∷ b'0' ∷ b'd'
    ∷ b',' ∷ b'0' ∷ b'0' ∷ b'1' ∷ b'2' ∷ b',' ∷ b'0' ∷ b'0' ∷ b'1' ∷ b'7' ∷ b',' ∷ b'0' ∷ b'0'
    ∷ b'1' ∷ b'b' ∷ b',' ∷ b'0' ∷ b'0' ∷ b'2' ∷ b'3' ∷ b',' ∷ b'0' ∷ b'0' ∷ b'2' ∷ b'b' ∷ b','
    ∷ b'0' ∷ b'0' ∷ b'2' ∷ b'd' ∷ b',' ∷ b'0' ∷ b'0' ∷ b'3' ∷ b'3' ∷ b',' ∷ b'4' ∷ b'4' ∷ b'c'
    ∷ b'd' ∷ b',' ∷ b'f' ∷ b'e' ∷ b'0' ∷ b'd' ∷ b',' ∷ b'f' ∷ b'f' ∷ b'0' ∷ b'1' ∷ b'_' ∷ b'0'
    ∷ b'4' ∷ b'0' ∷ b'3' ∷ b',' ∷ b'0' ∷ b'8' ∷ b'0' ∷ b'4' ∷ b',' ∷ b'0' ∷ b'4' ∷ b'0' ∷ b'1'
    ∷ b',' ∷ b'0' ∷ b'5' ∷ b'0' ∷ b'3' ∷ b',' ∷ b'0' ∷ b'8' ∷ b'0' ∷ b'5' ∷ b',' ∷ b'0' ∷ b'5'
    ∷ b'0' ∷ b'1' ∷ b',' ∷ b'0' ∷ b'8' ∷ b'0' ∷ b'6' ∷ b',' ∷ b'0' ∷ b'6' ∷ b'0' ∷ b'1' ∷ []

ja4_r-yandex : ja4_r (profile_view same_text yandex) ≡ golden
unfolding golden ja4_r ja4_part_a ja4_ciphers_str ja4_exts_str ja4_sigalgs_str yandex is_grease
    decimal two_digits hex4 join sort insert leshiy.Tls.Ja.Text.decimal_rounds
ja4_r-yandex = refl

abbrev constant : Digest
constant bytes = 1 ∷ 2 ∷ 3 ∷ 4 ∷ 5 ∷ 6 ∷ 7 ∷ 8 ∷ []

repeat : ℕ → ℕ → List ℕ
repeat zero b = []
repeat (suc n) b = b ∷ repeat n b

unfoldable input : HelloInput
unfolding repeat
input = record {
  sni = b'a' ∷ b'.' ∷ b'b' ∷ [];
  x25519_pub = repeat 32 5;
  mlkem_ek = repeat 1184 0;
  random = repeat 32 6;
  entropy = repeat 32 0x5a;
}

input-IsHello : IsHello constant yandex input
unfolding input repeat yandex chrome_ext_permutation grease_ech_outer expand expand_loop shuffle
    swap le_word range derive_grease grease_from_byte distinct_from ext_bytes build_extension
    extension extensions_of order sni_body key_share_entries list_u16_with_u16len is_grease
input-IsHello = record {
  entropy_bytes = omega arith;
  sni_fits = omega arith;
  x25519_length = refl;
  mlkem_length = refl;
  random_length = refl;
  types_fit = omega arith;
  names_server = omega arith;
  offers_shares = omega arith;
  suites_fit = omega arith;
  ext_fit = ltb→lt (length (ext_bytes constant yandex input)) 65536 refl;
}

yandex-IsProfile : IsProfile yandex
unfolding yandex
yandex-IsProfile = record {
  suites_small = omega arith;
  groups_small = omega arith;
  groups_fit = omega arith;
  formats_fit = omega arith;
  sig_algs_small = omega arith;
  sig_algs_fit = omega arith;
  versions_small = omega arith;
  versions_fit = omega arith;
  protocols_fit = omega arith;
  alpn_fit = omega arith;
}

yandex-HasOnce : HasOnce yandex
unfolding yandex is_grease
yandex-HasOnce = record { sig_algs_once = refl; alpn_once = refl; versions_once = refl }

ja4-build_client_hello_with_entropy_example :
    ((parse same_text (build_client_hello_with_entropy constant yandex input) >>= λ seen.
    done (ja4_r seen))
      ≡ done (ja4_r (profile_view same_text yandex)))
    × ((parse same_text (build_client_hello_with_entropy constant yandex input) >>= λ seen.
          done (ja4 constant seen))
        ≡ done (ja4 constant (profile_view same_text yandex)))
ja4-build_client_hello_with_entropy_example =
    ja4-build_client_hello_with_entropy same_text constant yandex input input-IsHello
      yandex-IsProfile yandex-HasOnce

parse-build_client_hello_with_entropy_example :
    parse same_text (build_client_hello_with_entropy constant yandex input)
    ≡ done (
        visits
          (read_view same_text)
          (add_to_view same_text yandex
            (derive_grease input.entropy).group
            (derive_grease input.entropy).version)
          (sent_types constant yandex input)
          (empty_view 0x0303 (regrease (derive_grease input.entropy).cipher yandex.cipher_suites)))
parse-build_client_hello_with_entropy_example =
    parse-build_client_hello_with_entropy same_text constant yandex input input-IsHello
      yandex-IsProfile
