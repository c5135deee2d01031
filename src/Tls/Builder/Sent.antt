-- ===== src/Tls/Builder/Sent.antt =====
-- What the client sends fits its widths, and the types that it sends are those of the profile.
use leshiy.Prelude.{
  ℕ, zero, suc, ◌<◌, ◌≡◌, refl, Bool-cases, inl, inr, false, List, [], ◌∷◌, ◌++◌, map, All, length,
  get_or, arith,
}
use leshiy.Prelude.Bytes.{IsBytes}
use leshiy.Tls.Camouflage.{is_grease, Digest, derive_grease, chrome_ext_permutation}
use leshiy.Tls.Camouflage.Values.{derive_grease-ne}
use leshiy.Tls.Camouflage.Shuffle.{count, count-append}
use leshiy.Tls.Fingerprint.{Profile}
use leshiy.Tls.Builder.{HelloInput, u16s, regrease, without_grease, order, ext_bytes}
use leshiy.Tls.Builder.Order.{order-count}

-- The fields fit the widths in which they are sent, the profile names a server and offers key
-- shares, and the keys have their lengths.
pub record IsHello (sha256 : Digest) (profile : Profile) (input : HelloInput) : Type 0 where
  pub entropy_bytes : IsBytes input.entropy
  pub sni_fits : length input.sni < 65500
  pub x25519_length : 32 ≡ length input.x25519_pub
  pub mlkem_length : 1184 ≡ length input.mlkem_ek
  pub random_length : 32 ≡ length input.random
  pub types_fit : All (λ t. t < 65536) profile.extensions
  pub names_server : 0 < count 0x0000 (without_grease profile.extensions)
  pub offers_shares : 0 < count 0x0033 (without_grease profile.extensions)
  pub suites_fit : length (u16s profile.cipher_suites) < 65536
  pub ext_fit : length (ext_bytes sha256 profile input) < 65536

pub All-without_grease :
    (ts : List ℕ) → All (λ t. t < 65536) ts → All (λ t. t < 65536) (without_grease ts)
All-without_grease [] h = tt
All-without_grease (t ∷ ts) h = elim (Bool-cases (is_grease t)) [
  | inl left_out ↦ rw left_out (All-without_grease ts h.1)
  | inr kept ↦ rw kept (h.0, All-without_grease ts h.1)
]

get_or-lt : (ts : List ℕ) (i : ℕ) → All (λ t. t < 65536) ts → get_or ts i 0 < 65536
get_or-lt [] i h = omega arith
get_or-lt (t ∷ ts) zero h = h.0
get_or-lt (t ∷ ts) (suc i) h = get_or-lt ts i h.1

All-map : (g : ℕ → ℕ) (xs : List ℕ) → ((i : ℕ) → g i < 65536) → All (λ t. t < 65536) (map g xs)
All-map g [] h = tt
All-map g (x ∷ xs) h = (h x, All-map g xs h)

pub All-order :
    (sha256 : Digest) (entropy middle : List ℕ)
    → All (λ t. t < 65536) middle
    → All (λ t. t < 65536) (order sha256 entropy middle)
unfolding order
All-order sha256 entropy middle h =
    All-map (λ i. get_or middle i 0) (chrome_ext_permutation sha256 entropy (length middle))
      (λ i. get_or-lt middle i h)

pub length-regrease : (g : ℕ) (xs : List ℕ) → length (u16s (regrease g xs)) ≡ length (u16s xs)
length-regrease g [] = refl
length-regrease g (x ∷ xs) = omega (arith, length-regrease g xs)

pub not_grease_name : is_grease 0x0000 ≡ false
unfolding is_grease
not_grease_name = refl

pub not_grease_shares : is_grease 0x0033 ≡ false
unfolding is_grease
not_grease_shares = refl

-- The types in the order sent.
abbrev pub sent_types : Digest → Profile → HelloInput → List ℕ
sent_types sha256 profile input =
    (derive_grease input.entropy).ext1
    ∷ (order sha256 input.entropy (without_grease profile.extensions)
        ++ ((derive_grease input.entropy).ext2 ∷ []))

pub All-sent :
    (sha256 : Digest) (profile : Profile) (input : HelloInput)
    → All (λ t. t < 65536) profile.extensions
    → All (λ t. t < 65536) (order sha256 input.entropy (without_grease profile.extensions))
All-sent sha256 profile input h =
    All-order sha256 input.entropy (without_grease profile.extensions)
      (All-without_grease profile.extensions h)

-- Each type of the profile is sent as often as it stands there, the GREASE values aside.
pub sent_count :
    (sha256 : Digest) (profile : Profile) (input : HelloInput) (t : ℕ)
    → IsBytes input.entropy
    → is_grease t ≡ false
    → count t (sent_types sha256 profile input) ≡ count t (without_grease profile.extensions)
sent_count sha256 profile input t h plain =
    let ts = order sha256 input.entropy (without_grease profile.extensions) in
    let differ = derive_grease-ne input.entropy t h plain in
    ground (
      arith,
      differ.0,
      differ.1,
      order-count sha256 input.entropy (without_grease profile.extensions) t,
      count-append t ts ((derive_grease input.entropy).ext2 ∷ []),
    )
