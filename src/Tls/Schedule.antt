-- ===== src/Tls/Schedule.antt =====
-- crates/leshiy-tls/src/tls13/kdf.rs and schedule.rs: the TLS 1.3 key schedule. A label is its bytes.
use leshiy.Prelude.{ℕ, ◌≡◌, ◌<◌, List, [], ◌∷◌, ◌++◌, length, replicate}
use leshiy.Prelude.Bytes.{to_be}
use leshiy.Tls.Suite.{Primitives, IsPrimitives, CipherSuite, hash_of, hash_len, key_len}

abbrev tls13_prefix : List ℕ
tls13_prefix = b't' ∷ b'l' ∷ b's' ∷ b'1' ∷ b'3' ∷ b' ' ∷ []

abbrev derived_label : List ℕ
derived_label = b'd' ∷ b'e' ∷ b'r' ∷ b'i' ∷ b'v' ∷ b'e' ∷ b'd' ∷ []

-- `"c hs traffic"` and its kin: the side, then the phase.
abbrev traffic_label : ℕ → ℕ → ℕ → List ℕ
traffic_label side p q =
    side ∷ b' ' ∷ p ∷ q ∷ b' ' ∷ b't' ∷ b'r' ∷ b'a' ∷ b'f' ∷ b'f' ∷ b'i' ∷ b'c' ∷ []

abbrev finished_label : List ℕ
finished_label = b'f' ∷ b'i' ∷ b'n' ∷ b'i' ∷ b's' ∷ b'h' ∷ b'e' ∷ b'd' ∷ []

module _ (prims : Primitives) (suite : CipherSuite) where
  unfoldable pub hkdf_expand_label : List ℕ → List ℕ → List ℕ → ℕ → List ℕ
  hkdf_expand_label secret label context len =
      let full_label = tls13_prefix ++ label in
      (hash_of prims suite).expand secret
        (to_be 2 len
          ++ (to_be 1 (length full_label) ++ (full_label ++ (to_be 1 (length context) ++ context))))
        len

  unfoldable pub derive_secret : List ℕ → List ℕ → List ℕ → List ℕ
  derive_secret secret label transcript_hash =
      hkdf_expand_label secret label transcript_hash (hash_len suite)

  abbrev pub zeros : List ℕ
  zeros = replicate (hash_len suite) 0

  unfoldable pub early_secret : List ℕ
  early_secret = (hash_of prims suite).extract [] zeros

  unfoldable pub handshake_secret : List ℕ → List ℕ → List ℕ
  handshake_secret early ecdhe =
      let empty_hash = (hash_of prims suite).digest [] in
      (hash_of prims suite).extract
        (hkdf_expand_label early derived_label empty_hash (hash_len suite)) ecdhe

  unfoldable pub master_secret : List ℕ → List ℕ
  master_secret handshake =
      let empty_hash = (hash_of prims suite).digest [] in
      (hash_of prims suite).extract
        (hkdf_expand_label handshake derived_label empty_hash (hash_len suite)) zeros

  abbrev pub client_hs_traffic : List ℕ → List ℕ → List ℕ
  client_hs_traffic hs th_chsh = derive_secret hs (traffic_label b'c' b'h' b's') th_chsh

  abbrev pub server_hs_traffic : List ℕ → List ℕ → List ℕ
  server_hs_traffic hs th_chsh = derive_secret hs (traffic_label b's' b'h' b's') th_chsh

  abbrev pub client_ap_traffic : List ℕ → List ℕ → List ℕ
  client_ap_traffic master th_sfin = derive_secret master (traffic_label b'c' b'a' b'p') th_sfin

  abbrev pub server_ap_traffic : List ℕ → List ℕ → List ℕ
  server_ap_traffic master th_sfin = derive_secret master (traffic_label b's' b'a' b'p') th_sfin

  -- The key and the iv.
  unfoldable pub traffic_key : List ℕ → List ℕ × List ℕ
  traffic_key traffic_secret = (
    hkdf_expand_label traffic_secret (b'k' ∷ b'e' ∷ b'y' ∷ []) [] (key_len suite),
    hkdf_expand_label traffic_secret (b'i' ∷ b'v' ∷ []) [] 12,
  )

  unfoldable pub finished_verify_data : List ℕ → List ℕ → List ℕ
  finished_verify_data base_key transcript_hash =
      (hash_of prims suite).hmac (hkdf_expand_label base_key finished_label [] (hash_len suite))
        transcript_hash

  pub length-traffic_key :
      (traffic_secret : List ℕ)
      → IsPrimitives prims
      → length (traffic_key traffic_secret).0 ≡ key_len suite
  unfolding traffic_key hkdf_expand_label
  length-traffic_key traffic_secret v =
      v.length-expand suite traffic_secret
        (to_be 2 (key_len suite)
          ++ (to_be 1 9 ++ (tls13_prefix ++ ((b'k' ∷ b'e' ∷ b'y' ∷ []) ++ (to_be 1 0 ++ [])))))
        (key_len suite)

  pub length-finished_verify_data :
      (base_key transcript_hash : List ℕ)
      → IsPrimitives prims
      → length (finished_verify_data base_key transcript_hash) < 65
  unfolding finished_verify_data
  length-finished_verify_data base_key transcript_hash v =
      v.length-hmac suite (hkdf_expand_label base_key finished_label [] (hash_len suite))
        transcript_hash
