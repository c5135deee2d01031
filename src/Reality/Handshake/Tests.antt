-- ===== src/Reality/Handshake/Tests.antt =====
-- A whole handshake with both key shares, over primitives that copy, and the theorem at it.
use leshiy.Prelude.{
  ℕ, zero, suc, ◌+◌, ◌<◌, ◌≡◌, refl, arith, inr, true, some, List, [], ◌∷◌, ◌++◌, length, replicate,
  length-replicate,
}
use leshiy.Prelude.Net.{same_bytes}
use leshiy.Tls.Error.{done}
use leshiy.Tls.Camouflage.{
  Digest, is_grease, grease_ech_outer, derive_grease, grease_from_byte, distinct_from, expand,
  expand_loop, chrome_ext_permutation, shuffle, swap, le_word, range,
}
use leshiy.Tls.Parser.{need, take_slice, skip, u8, u16, u24}
use leshiy.Tls.ClientHello.{
  ClientHelloFields, keep_share, shares_loop, read_sni, read_extension, extensions_loop,
  read_extensions, after_session_id, extract_client_hello_fields,
}
use leshiy.Tls.Fingerprint.{yandex}
use leshiy.Tls.Builder.{
  HelloInput, build_extension, extension, extensions_of, order, ext_bytes, sni_body,
  key_share_entries, list_u16_with_u16len, hello_tail, build_client_hello_with_entropy,
}
use leshiy.Tls.Messages.{ServerHelloParams, build_server_hello}
use leshiy.Tls.Messages.RoundTrip.{IsServerHello}
use leshiy.Tls.Protected.{Aead, IsAead}
use leshiy.Tls.Suite.{
  Transcript, new, Hash, Primitives, IsPrimitives, CipherSuite, aes128_gcm_sha256,
  aes256_gcm_sha384, chacha20_poly1305_sha256, from_u16, hash_of, aead_of, key_len,
}
use leshiy.Reality.Auth.{Crypto, IsCrypto}
use leshiy.Reality.Auth.Toy.{thirty_two, toy, toy-IsCrypto}
use leshiy.Reality.Handshake.Error.{got}
use leshiy.Reality.Handshake.{
  Toolkit, Secrets, is_identity, server_messages, ServerCert, ServerHandshake, ClientHandshakeOut,
  ed25519_spki_prefix, extract_ed25519_pubkey, server_handshake, client_handshake, finish,
}
use leshiy.Reality.Handshake.Exchange.{IsToolkit, IsOffer}
use leshiy.Reality.Handshake.Flight.{read_flight-server_messages}
use leshiy.Reality.Handshake.Authentic.{IsCertified, IsSigned, read_flight_authentic}
use leshiy.Reality.Handshake.Completes.{IsCert, finish-client_handshake}

abbrev constant : Digest
constant bytes = 1 ∷ 2 ∷ 3 ∷ 4 ∷ 5 ∷ 6 ∷ 7 ∷ 8 ∷ []

abbrev counting : Hash
counting = record {
  digest = λ msg. length msg ∷ [];
  extract = λ salt ikm. length ikm ∷ [];
  expand = λ prk info n. replicate n 7;
  hmac = λ key msg. (length key + length msg) ∷ [];
}

abbrev copying : Aead
copying = record {
  seal_in_place = λ key n aad buffer. some buffer;
  open_in_place = λ key n aad sealed. some sealed;
}

abbrev prims : Primitives
prims = record {
  sha256 = counting;
  sha384 = counting;
  aes128_gcm = copying;
  aes256_gcm = copying;
  chacha20_poly1305 = copying;
}

copying-IsAead : (key : List ℕ) → IsAead copying key
copying-IsAead key = record { open-seal = λ n aad buffer fits. (buffer, refl, refl) }

length-expand_all :
    (suite : CipherSuite) (prk info : List ℕ) (n : ℕ)
    → length ((hash_of prims suite).expand prk info n) ≡ n
length-expand_all aes128_gcm_sha256 prk info n = length-replicate n 7
length-expand_all aes256_gcm_sha384 prk info n = length-replicate n 7
length-expand_all chacha20_poly1305_sha256 prk info n = length-replicate n 7

length-hmac_all :
    (suite : CipherSuite) (key msg : List ℕ) → length ((hash_of prims suite).hmac key msg) < 65
length-hmac_all aes128_gcm_sha256 key msg = omega arith
length-hmac_all aes256_gcm_sha384 key msg = omega arith
length-hmac_all chacha20_poly1305_sha256 key msg = omega arith

suites-IsAead :
    (suite : CipherSuite) (key : List ℕ)
    → length key ≡ key_len suite
    → IsAead (aead_of prims suite) key
suites-IsAead aes128_gcm_sha256 key h = copying-IsAead key
suites-IsAead aes256_gcm_sha384 key h = copying-IsAead key
suites-IsAead chacha20_poly1305_sha256 key h = copying-IsAead key

prims-IsPrimitives : IsPrimitives prims
prims-IsPrimitives = record {
  length-expand = length-expand_all;
  length-hmac = length-hmac_all;
  aead-IsAead = suites-IsAead;
}

abbrev fixed : Crypto
fixed = record toy { public_key = λ s. thirty_two 4; diffie_hellman = λ a b. thirty_two 1 }

fixed-IsCrypto : IsCrypto fixed
fixed-IsCrypto = record {
  diffie_hellman_agrees = λ a b. refl;
  decrypt-encrypt = toy-IsCrypto.decrypt-encrypt;
  length-encrypt = toy-IsCrypto.length-encrypt;
}

abbrev tools : Toolkit
tools = record {
  crypto = fixed;
  prims = prims;
  kem_encapsulate = λ seed ek. some (replicate 1088 2, thirty_two 3);
  kem_decapsulate = λ dk ct. thirty_two 3;
  verifying_key = λ key. thirty_two 9;
  sign = λ key content. replicate 64 5;
  is_verifying_key = λ key. true;
  verify_strict = λ key content sig. true;
  hmac_sha512 = λ key msg. thirty_two (length key) ++ thirty_two 3;
}

tools-IsToolkit : IsToolkit tools
tools-IsToolkit = record {
  crypto_law = fixed-IsCrypto;
  prims_law = prims-IsPrimitives;
  length-public_key = λ secret. refl;
  key_valid = λ key. refl;
  verify-sign = λ key content. refl;
  length-sign = λ key content. omega (arith, length-replicate {A = ℕ} 64 5);
  length-hmac_sha512 = λ key msg. refl;
}

abbrev cert : ServerCert
cert = record {
  der_template =
      (0x30 ∷ 0x82 ∷ [])
      ++ (ed25519_spki_prefix ++ (thirty_two 9 ++ (thirty_two 0 ++ thirty_two 0)));
  signing_key = thirty_two 8;
}

cert-IsCert : IsCert tools cert
unfolding extract_ed25519_pubkey same_bytes
cert-IsCert = record { room = omega arith; template_fits = omega arith; key_known = refl }

blocks : ℕ → List ℕ
blocks zero = []
blocks (suc n) = thirty_two 0 ++ blocks n

abbrev input : HelloInput
input = record {
  sni = b'a' ∷ b'.' ∷ b'b' ∷ [];
  x25519_pub = thirty_two 4;
  mlkem_ek = blocks 37;
  random = thirty_two 6;
  entropy = thirty_two 0x5a;
}

client_hello : List ℕ
client_hello = build_client_hello_with_entropy constant yandex input

abbrev same_text : List ℕ → List ℕ
same_text name = name

abbrev fields : ClientHelloFields
fields = record {
  random = thirty_two 6;
  session_id = thirty_two 6;
  extracted = record {
    key_share_x25519 = some (thirty_two 4);
    key_share_mlkem = some (record { ek = blocks 37; x25519 = thirty_two 4 });
    sni = some (b'a' ∷ b'.' ∷ b'b' ∷ []);
  };
}

fields_read : extract_client_hello_fields same_text client_hello ≡ done fields
unfolding client_hello yandex blocks chrome_ext_permutation grease_ech_outer expand expand_loop
    shuffle swap le_word range derive_grease grease_from_byte distinct_from ext_bytes
    build_extension extension extensions_of order sni_body key_share_entries list_u16_with_u16len
    is_grease hello_tail build_client_hello_with_entropy need take_slice skip u8 u16 u24 keep_share
    shares_loop read_sni read_extension extensions_loop read_extensions after_session_id
    extract_client_hello_fields
fields_read = refl

fields-IsOffer : IsOffer tools (thirty_two 5) [] fields
unfolding blocks
fields-IsOffer = record {
  ek = blocks 37;
  kem_pair = record {
    ek_length = refl;
    agrees = λ seed. (
      replicate 1088 2,
      thirty_two 3,
      refl,
      omega (arith, length-replicate {A = ℕ} 1088 2),
      refl,
    );
  };
  x25519_offer = refl;
  mlkem_offer = refl;
}

abbrev destination : ServerHelloParams
destination = record {
  suite = 0x1302;
  server_random = thirty_two 7;
  session_id_echo = thirty_two 6;
  key_share_group = 0x11ec;
  key_share = thirty_two 0;
}

destination-IsServerHello : IsServerHello destination
destination-IsServerHello = record {
  suite_fits = omega arith;
  random_length = refl;
  session_id_fits = omega arith;
  group_fits = omega arith;
  share_length = omega arith;
}

suite_known : from_u16 0x1302 ≡ some aes256_gcm_sha384
unfolding from_u16
suite_known = refl

finish-client_handshake_example :
    (state : ServerHandshake) × (flight : List ℕ) × (out : ClientHandshakeOut) × (server_handshake
        tools same_text client_hello
        (build_server_hello destination ++ [])
        (thirty_two 2)
        cert
        (thirty_two 1)
        []
      ≡ got (state, flight))
    × (client_handshake tools client_hello flight (thirty_two 5) (thirty_two 2) [] ≡ got out)
    × (out.session ≡ state.session)
    × (finish tools state out.client_finished_record ≡ got out.session)
finish-client_handshake_example =
    finish-client_handshake tools same_text client_hello (thirty_two 5) [] fields destination []
      aes256_gcm_sha384 cert (thirty_two 2) (thirty_two 1) [] tools-IsToolkit cert-IsCert
      fields-IsOffer destination-IsServerHello fields_read suite_known (inr refl)

abbrev der : List ℕ
der =
    (0x30 ∷ 0x82 ∷ []) ++ (ed25519_spki_prefix ++ (thirty_two 9 ++ (thirty_two 32 ++ thirty_two 3)))

der_known : extract_ed25519_pubkey der ≡ some (thirty_two 9)
unfolding extract_ed25519_pubkey same_bytes
der_known = refl

der_identity : is_identity tools (thirty_two 2) (thirty_two 9) der ≡ true
unfolding same_bytes
der_identity = refl

abbrev some_secrets : Secrets
some_secrets = record { hs = 1 ∷ []; s_hs = 2 ∷ []; c_hs = 3 ∷ [] }

abbrev messages : List ℕ × Transcript
messages = server_messages tools aes256_gcm_sha384 some_secrets cert der (new aes256_gcm_sha384)

read_flight_authentic_example :
    (c : List ℕ × List ℕ × Transcript) × IsCertified tools
      (thirty_two 2)
      messages.0
      (new aes256_gcm_sha384)
      c
    × IsSigned tools aes256_gcm_sha384 some_secrets c messages.1
read_flight_authentic_example =
    read_flight_authentic tools aes256_gcm_sha384 some_secrets (thirty_two 2) messages.0
      (new aes256_gcm_sha384) messages.1
      (read_flight-server_messages tools aes256_gcm_sha384 some_secrets cert (thirty_two 2) der
        (new aes256_gcm_sha384) tools-IsToolkit (omega arith) der_known der_identity)
