-- ===== src/Reality/Handshake/Certificate.antt =====
-- The certificate of a connection names the server's key and carries its MAC.
use leshiy.Prelude.{
  ℕ, zero, suc, ◌-◌, ◌≤◌, ◌≡◌, ◌≢◌, refl, ap, sym, ◌∙◌, Bool-cases, inl, inr, true, false, not,
  ◌||◌, Option, none, some, List, [], ◌∷◌, ◌++◌, length, take, drop, length-append, length-take,
  length-drop, drop-append, ltb, ◌==◌, arith,
}
use leshiy.Prelude.Net.{same_bytes, same_bytes_refl}
use leshiy.Reality.Handshake.{
  Toolkit, ServerCert, ed25519_spki_prefix, at_prefix, key_behind, extract_ed25519_pubkey,
  signed_for, is_identity,
}

take-shorter : (n : ℕ) (xs ys : List ℕ) → n ≤ length xs → take n (xs ++ ys) ≡ take n xs
take-shorter zero xs ys h = refl
take-shorter (suc n) [] ys h = absurd (omega arith)
take-shorter (suc n) (x ∷ xs) ys h = ap (◌∷◌ x) (take-shorter n xs ys (omega arith))

drop-shorter : (n : ℕ) (xs ys : List ℕ) → n ≤ length xs → drop n (xs ++ ys) ≡ drop n xs ++ ys
drop-shorter zero xs ys h = refl
drop-shorter (suc n) [] ys h = absurd (omega arith)
drop-shorter (suc n) (x ∷ xs) ys h = drop-shorter n xs ys (omega arith)

-- Where the first clause's answer is not taken.
skip_window :
    (b : ℕ) (xs : List ℕ)
    → same_bytes (take 12 (b ∷ xs)) ed25519_spki_prefix ≡ false
    → at_prefix (b ∷ xs) ≡ at_prefix xs
skip_window b xs h = rw h refl

take_window :
    (b : ℕ) (xs : List ℕ)
    → same_bytes (take 12 (b ∷ xs)) ed25519_spki_prefix ≡ true
    → at_prefix (b ∷ xs) ≡ some (b ∷ xs)
take_window b xs h = rw h refl

-- What is found is an end of the bytes.
at_prefix-length : (xs found : List ℕ) → at_prefix xs ≡ some found → length found ≤ length xs
at_prefix-length [] found h = cc
at_prefix-length (x ∷ xs) found h =
    elim (Bool-cases (same_bytes (take 12 (x ∷ xs)) ed25519_spki_prefix)) [
      | inl here ↦ ground (arith, h, here)
      | inr later ↦
          let rest = at_prefix-length xs found (sym (skip_window x xs later) ∙ h) in
          omega (arith, rest)
    ]

at_prefix-append :
    (xs ys found : List ℕ)
    → at_prefix xs ≡ some found
    → 12 ≤ length found
    → at_prefix (xs ++ ys) ≡ some (found ++ ys)
at_prefix-append [] ys found h long = cc
at_prefix-append (x ∷ xs) ys found h long =
    let size = at_prefix-length (x ∷ xs) found h in
    let window = take-shorter 12 (x ∷ xs) ys (omega (arith, size, long)) in
    elim (Bool-cases (same_bytes (take 12 (x ∷ xs)) ed25519_spki_prefix)) [
      | inl here ↦
          let same : (x ∷ xs) ≡ found = cc (take_window x xs here, h) in
          rw (window, here) (ap (λ (l : List ℕ). some (l ++ ys)) same)
      | inr later ↦
          rw (window, later) (at_prefix-append xs ys found (sym (skip_window x xs later) ∙ h) long)
    ]

none_found :
    (found key : List ℕ) → ltb (length found) 44 ≡ true → key_behind (some found) ≢ some key
none_found found key short h = let e : key_behind (some found) ≡ none = rw short refl in cc (e, h)

some_found :
    (found key : List ℕ)
    → ltb (length found) 44 ≡ false
    → key_behind (some found) ≡ some key
    → take 32 (drop 12 found) ≡ key
some_found found key long h =
    let e : key_behind (some found) ≡ some (take 32 (drop 12 found)) = rw long refl in cc (e, h)

key_found :
    (o : Option (List ℕ)) (key : List ℕ)
    → key_behind o ≡ some key
    → (found : List ℕ) × (o ≡ some found)
      × (ltb (length found) 44 ≡ false)
      × (take 32 (drop 12 found) ≡ key)
key_found none key h = cc
key_found (some found) key h = elim (Bool-cases (ltb (length found) 44)) [
  | inl short ↦ absurd (none_found found key short h)
  | inr long ↦ (found, refl, long, some_found found key long h)
]

-- The key is found in front of anything.
pub extract_ed25519_pubkey-append :
    (xs ys key : List ℕ)
    → extract_ed25519_pubkey xs ≡ some key
    → extract_ed25519_pubkey (xs ++ ys) ≡ some key
unfolding extract_ed25519_pubkey
extract_ed25519_pubkey-append xs ys key h =
    let (found, at, long, is_key) = key_found (at_prefix xs) key h in
    let more : ltb (length (found ++ ys)) 44 ≡ false =
      ground (arith, length-append found ys, long) in
    let enough : 44 ≤ length found = ground (arith, long) in
    rw
      (
        at_prefix-append xs ys found at (omega (arith, enough)),
        more,
        drop-shorter 12 found ys (omega (arith, enough)),
        take-shorter 32 (drop 12 found) ys (omega (arith, enough, length-drop 12 found)),
      )
      (ap some is_key)

module _ (t : Toolkit) (cert : ServerCert) (auth_key : List ℕ) where
  -- The certificate for a connection: the client finds the server's key in it, and its MAC.
  pub signed_for-identity :
      64 ≤ length cert.der_template
      → ((key msg : List ℕ) → 64 ≡ length (t.hmac_sha512 key msg))
      → extract_ed25519_pubkey (take (length cert.der_template - 64) cert.der_template)
        ≡ some (t.verifying_key cert.signing_key)
      → (der : List ℕ) × (signed_for t cert auth_key ≡ some der)
        × (length der ≡ length cert.der_template)
        × (extract_ed25519_pubkey der ≡ some (t.verifying_key cert.signing_key))
        × (is_identity t auth_key (t.verifying_key cert.signing_key) der ≡ true)
  unfolding signed_for
  signed_for-identity room mac_length known =
      let template = cert.der_template in
      let n = length template in
      let key = t.verifying_key cert.signing_key in
      let mac = t.hmac_sha512 auth_key key in
      let front = take (n - 64) template in
      let size = length-append front mac in
      let front_size : length front ≡ n - 64 = omega (arith, length-take (n - 64) template) in
      let mac_size = mac_length auth_key key in
      let total : length (front ++ mac) ≡ n = omega (arith, size, front_size, mac_size, room) in
      let ok : (ltb n 64 || not (length mac == 64)) ≡ false = ground (arith, room, mac_size) in
      let tail : drop (length (front ++ mac) - 64) (front ++ mac) ≡ mac =
        drop-append front mac (length (front ++ mac) - 64) (omega (arith, total, front_size)) in
      let long : ltb (length (front ++ mac)) 64 ≡ false = ground (arith, total, room) in
      (
        front ++ mac,
        rw ok refl,
        total,
        extract_ed25519_pubkey-append front mac key known,
        rw (long, tail) (same_bytes_refl mac),
      )
