-- ===== src/Reality/Auth/Tests.antt =====
-- A hello with two extensions, a cipher that appends a tag, and the theorems at them.
use leshiy.Prelude.{
  ℕ, ◌+◌, ◌≤◌, ◌≡◌, refl, arith, true, none, some, List, [], ◌∷◌, ◌++◌, length, ◌==◌,
}
use leshiy.Tls.Error.{done}
use leshiy.Tls.Parser.{need, take_slice, skip, u8, u16}
use leshiy.Tls.ClientHello.{
  Extracted, ClientHelloFields, keep_share, shares_loop, read_sni, read_extension, extensions_loop,
  read_extensions, after_session_id, extract_client_hello_fields,
}
use leshiy.Reality.Auth.{
  AuthPayload, decode, ServerAuthConfig, authed, derive_auth_key, open_session_id, padded, abs_diff,
  aad_from_client_hello, client_auth_key, seal_client_hello, classify_full,
}
use leshiy.Reality.Auth.Toy.{eight, thirty_two, toy, toy-IsCrypto}
use leshiy.Reality.Auth.Layout.{hello_of, IsPayload}
use leshiy.Reality.Auth.Accepted.{classify_full-seal_client_hello}
use leshiy.Reality.Auth.Soundness.{classify_full-authed}

abbrev payload : AuthPayload
payload = record { version = 1 ∷ 0 ∷ 0 ∷ []; unix_secs = 1700000000; short_id = eight 8 }

payload-IsPayload : IsPayload payload
payload-IsPayload = record { version_length = refl; secs_fit = omega arith; short_id_length = refl }

abbrev config : ServerAuthConfig
config = record {
  static_secret = thirty_two 3;
  sni_allowed = λ sni. length sni == 3;
  max_time_diff = 120;
}

-- One cipher suite, no compression, the name a.b and an x25519 share.
abbrev behind : List ℕ
behind =
    (0 ∷ 2 ∷ 0x13 ∷ 0x01 ∷ 1 ∷ 0 ∷ 0 ∷ 54 ∷ 0 ∷ 0 ∷ 0 ∷ 8 ∷ 0 ∷ 6 ∷ 0 ∷ 0 ∷ 3 ∷ b'a' ∷ b'.' ∷ b'b'
      ∷ [])
    ++ (0 ∷ 0x33 ∷ 0 ∷ 38 ∷ 0 ∷ 36 ∷ 0 ∷ 0x1d ∷ 0 ∷ 32 ∷ thirty_two 5)

abbrev found : Extracted
found = record {
  key_share_x25519 = some (thirty_two 5);
  key_share_mlkem = none;
  sni = some (b'a' ∷ b'.' ∷ b'b' ∷ []);
}

abbrev same_text : List ℕ → List ℕ
same_text name = name

hello_read : after_session_id same_text (71 + length behind) behind ≡ done found
unfolding after_session_id read_extensions extensions_loop read_extension read_sni shares_loop
    keep_share skip take_slice u8 u16 need
hello_read = refl

abbrev key : List ℕ
key = client_auth_key toy (thirty_two 5) (thirty_two 3) (thirty_two 6)

abbrev sent : List ℕ
sent =
    seal_client_hello toy key (thirty_two 6) payload
      (hello_of (1 ∷ 0 ∷ 0 ∷ 128 ∷ 3 ∷ 3 ∷ thirty_two 6) (thirty_two 6) behind)

classify_full-seal_client_hello_example :
    classify_full toy same_text sent config 1700000060 ≡ authed (eight 8) 1700000000 key
classify_full-seal_client_hello_example =
    classify_full-seal_client_hello toy same_text config (thirty_two 5) (thirty_two 6)
      (thirty_two 6) behind (b'a' ∷ b'.' ∷ b'b' ∷ []) 0 0 128 3 3 1700000060 found payload
      toy-IsCrypto payload-IsPayload refl refl hello_read refl refl refl (omega arith)

classify_full-authed_example :
    (fields : ClientHelloFields) × (share : List ℕ) × (name : List ℕ) × (pt : List ℕ)
    × (extract_client_hello_fields same_text sent ≡ done fields)
    × (fields.extracted.key_share_x25519 ≡ some share)
    × (fields.extracted.sni ≡ some name)
    × (config.sni_allowed name ≡ true)
    × (length fields.session_id ≡ 32)
    × (key ≡ derive_auth_key toy (toy.diffie_hellman config.static_secret share) fields.random)
    × (open_session_id toy key fields.random (padded fields.session_id) (aad_from_client_hello sent)
        ≡ some pt)
    × (eight 8 ≡ (decode pt).short_id)
    × (1700000000 ≡ (decode pt).unix_secs)
    × (abs_diff 1700000060 1700000000 ≤ config.max_time_diff)
classify_full-authed_example =
    classify_full-authed toy same_text sent config 1700000060 (eight 8) 1700000000 key (
      classify_full-seal_client_hello toy same_text config (thirty_two 5) (thirty_two 6)
        (thirty_two 6) behind (b'a' ∷ b'.' ∷ b'b' ∷ []) 0 0 128 3 3 1700000060 found payload
        toy-IsCrypto payload-IsPayload refl refl hello_read refl refl refl (omega arith))
