-- ===== src/Reality/Client/Tests.antt =====
-- A hello of the default profile, and the theorem at it.
use leshiy.Prelude.{ℕ, ◌≡◌, refl, arith, List, [], ◌∷◌, ◌++◌, length, ltb→lt, zero, suc, ◌==◌}
use leshiy.Tls.Camouflage.{
  Digest, is_grease, grease_ech_outer, derive_grease, grease_from_byte, distinct_from, expand,
  expand_loop, chrome_ext_permutation, shuffle, swap, le_word, range,
}
use leshiy.Tls.Fingerprint.{yandex}
use leshiy.Tls.Builder.{
  build_extension, extension, extensions_of, order, ext_bytes, sni_body, key_share_entries,
  list_u16_with_u16len,
}
use leshiy.Tls.Builder.Sent.{IsHello}
use leshiy.Reality.Auth.{ServerAuthConfig, authed, client_auth_key, classify_full}
use leshiy.Reality.Auth.Toy.{eight, thirty_two, toy, toy-IsCrypto}
use leshiy.Reality.Client.{ClientAuthConfig, Draws, hello_input, build_authed_client_hello}
use leshiy.Reality.Client.Admitted.{classify_full-build_authed_client_hello}

abbrev constant : Digest
constant input = thirty_two 7

abbrev server : ServerAuthConfig
server = record {
  static_secret = thirty_two 3;
  sni_allowed = λ sni. length sni == 3;
  max_time_diff = 120;
}

abbrev config : ClientAuthConfig
config = record { server_public = thirty_two 3; short_id = eight 8; sni = b'a' ∷ b'.' ∷ b'b' ∷ [] }

abbrev same_text : List ℕ → List ℕ
same_text name = name

blocks : ℕ → List ℕ
blocks zero = []
blocks (suc n) = thirty_two 0 ++ blocks n

abbrev draws : Draws
draws = record {
  ephem_bytes = thirty_two 5;
  mlkem_dk = [];
  mlkem_ek = blocks 37;
  ch_random = thirty_two 6;
  entropy = thirty_two 0x5a;
}

draws-IsHello : IsHello constant yandex (hello_input toy config draws)
unfolding yandex blocks chrome_ext_permutation grease_ech_outer expand expand_loop shuffle swap
    le_word range derive_grease grease_from_byte distinct_from ext_bytes build_extension extension
    extensions_of order sni_body key_share_entries list_u16_with_u16len is_grease
draws-IsHello = record {
  entropy_bytes = omega arith;
  sni_fits = omega arith;
  x25519_length = refl;
  mlkem_length = refl;
  random_length = refl;
  types_fit = omega arith;
  names_server = omega arith;
  offers_shares = omega arith;
  suites_fit = omega arith;
  ext_fit = ltb→lt (length (ext_bytes constant yandex (hello_input toy config draws))) 65536 refl;
}

classify_full-build_authed_client_hello_example :
    classify_full toy same_text
      (build_authed_client_hello toy constant yandex config 1700000000 draws).0
      server
      1700000060
    ≡ authed (eight 8) 1700000000 (client_auth_key toy (thirty_two 5) (thirty_two 3) (thirty_two 6))
classify_full-build_authed_client_hello_example =
    classify_full-build_authed_client_hello toy constant same_text server yandex config draws
      1700000060 1700000000 toy-IsCrypto draws-IsHello refl refl (omega arith) refl refl
      (omega arith)
