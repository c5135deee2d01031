-- ===== src/Reality/Handshake/Exchange.antt =====
-- What is asked of the primitives, and the secret that both ends compute from the key shares.
use leshiy.Prelude.{
  ℕ, ◌≡◌, ◌⊎◌, inl, inr, refl, sym, true, some, List, ◌++◌, length, length-append, take-append,
  drop-append, arith,
}
use leshiy.Tls.ClientHello.{ClientHelloFields}
use leshiy.Tls.Messages.{ServerHelloParams, share_fits}
use leshiy.Tls.Suite.{IsPrimitives}
use leshiy.Reality.Auth.{IsCrypto}
use leshiy.Reality.Handshake.Error.{got}
use leshiy.Reality.Handshake.{Toolkit, encapsulate, decapsulate, server_shared, client_shared}

-- Keys and signatures have their lengths, and a signature verifies under its key.
pub record IsToolkit (t : Toolkit) : Type 0 where
  pub crypto_law : IsCrypto t.crypto
  pub prims_law : IsPrimitives t.prims
  pub length-public_key : (secret : List ℕ) → 32 ≡ length (t.crypto.public_key secret)
  pub key_valid : (key : List ℕ) → t.is_verifying_key (t.verifying_key key) ≡ true
  pub verify-sign :
      (key content : List ℕ)
      → t.verify_strict (t.verifying_key key) content (t.sign key content) ≡ true
  pub length-sign : (key content : List ℕ) → 64 ≡ length (t.sign key content)
  pub length-hmac_sha512 : (key msg : List ℕ) → 64 ≡ length (t.hmac_sha512 key msg)

-- A pair of ML-KEM keys: what is encapsulated for the one is decapsulated with the other.
pub record IsKemPair (t : Toolkit) (dk ek : List ℕ) : Type 0 where
  pub ek_length : 1184 ≡ length ek
  pub agrees :
      (seed : List ℕ)
      → (ct : List ℕ) × (ss : List ℕ) × (t.kem_encapsulate seed ek ≡ some (ct, ss))
        × (1088 ≡ length ct)
        × (t.kem_decapsulate dk ct ≡ ss)

-- The key shares of the client's hello are those of its secrets.
pub record IsOffer (t : Toolkit) (client_priv dk : List ℕ) (fields : ClientHelloFields)
    : Type 0 where
  pub ek : List ℕ
  pub kem_pair : IsKemPair t dk ek
  pub x25519_offer : fields.extracted.key_share_x25519 ≡ some (t.crypto.public_key client_priv)
  pub mlkem_offer :
      fields.extracted.key_share_mlkem
      ≡ some (record { ek = ek; x25519 = t.crypto.public_key client_priv })

-- The groups of which a ServerHello is adapted.
abbrev pub IsGroup : ℕ → Type 0
IsGroup group = (group ≡ 0x001d) ⊎ (group ≡ 0x11ec)

module _ (t : Toolkit) (client_priv dk : List ℕ) (fields : ClientHelloFields)
    (sk_bytes seed : List ℕ) (law : IsToolkit t) (o : IsOffer t client_priv dk fields) where
  -- The server has a share that fits its group, and the client computes the same secret from it.
  abbrev Agreed : ServerHelloParams → Type 0
  Agreed p =
      (share : List ℕ) × (shared : List ℕ) × (server_shared t fields p.key_share_group sk_bytes seed
        ≡ got (share, shared))
      × (share_fits p.key_share_group (length share) ≡ true)
      × (client_shared t (record p { key_share = share }) client_priv dk ≡ got shared)

  shared_x25519 : (p : ServerHelloParams) → p.key_share_group ≡ 0x001d → Agreed p
  unfolding server_shared client_shared
  shared_x25519 p group =
      let server_pub = t.crypto.public_key sk_bytes in
      let size = law.length-public_key sk_bytes in
      let fits : share_fits p.key_share_group (length server_pub) ≡ true =
        ground (arith, group, size) in
      (
        server_pub,
        t.crypto.diffie_hellman sk_bytes (t.crypto.public_key client_priv),
        rw (group, o.x25519_offer) refl,
        fits,
        rw (group, sym size, law.crypto_law.diffie_hellman_agrees client_priv sk_bytes) refl,
      )

  shared_mlkem : (p : ServerHelloParams) → p.key_share_group ≡ 0x11ec → Agreed p
  unfolding server_shared client_shared encapsulate decapsulate
  shared_mlkem p group =
      let (ct, ss, made, ct_length, opened) = o.kem_pair.agrees seed in
      let server_pub = t.crypto.public_key sk_bytes in
      let size = law.length-public_key sk_bytes in
      let total : 1120 ≡ length (ct ++ server_pub) =
        omega (arith, length-append ct server_pub, ct_length, size) in
      let fits : share_fits p.key_share_group (length (ct ++ server_pub)) ≡ true =
        ground (arith, group, total) in
      (
        ct ++ server_pub,
        ss ++ t.crypto.diffie_hellman sk_bytes (t.crypto.public_key client_priv),
        rw (group, o.mlkem_offer, sym o.kem_pair.ek_length, made) refl,
        fits,
        rw
            (
              group,
              sym total,
              take-append ct server_pub 1088 ct_length,
              drop-append ct server_pub 1088 ct_length,
              sym ct_length,
              opened,
              law.crypto_law.diffie_hellman_agrees client_priv sk_bytes,
            )
            refl,
      )

  pub shared_agrees : (p : ServerHelloParams) → IsGroup p.key_share_group → Agreed p
  shared_agrees p (inl x25519) = shared_x25519 p x25519
  shared_agrees p (inr mlkem) = shared_mlkem p mlkem
