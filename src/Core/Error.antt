-- ===== src/Core/Error.antt =====
-- crates/leshiy-core/src/error.rs. An error that carries a text in the source carries here the
-- case that wrote the text, with the numbers that the text shows.
use leshiy.Prelude.{◌≡◌, refl, ◌⊎◌, inl, inr, ℕ, Bool, true, false}

pub data ProtocolProblem : Type 0 where
  short_frame datagram_too_large no_cap_datagram no_cap_icmp : ProtocolProblem

pub data VersionProblem : Type 0 where
  short_hello expected_hello : VersionProblem
  -- local minimum and maximum, then the peer's
  no_common : ℕ → ℕ → ℕ → ℕ → VersionProblem

pub data Error : Type 0 where
  io noise closed timeout : Error
  protocol : ProtocolProblem → Error
  frame_too_large : ℕ → Error
  version : VersionProblem → Error

pub data Result {ℓ} (A : Type ℓ) : Type ℓ where
  err : Error → Result A
  ok : A → Result A

infixl 5 ◌>>=◌ ◌>>◌
abbrev pub ◌>>=◌ {ℓ κ} : {A : Type ℓ} {B : Type κ} → Result A → (A → Result B) → Result B
err e >>= next = err e
ok a >>= next = next a

abbrev pub ◌>>◌ {ℓ} : {B : Type ℓ} → Result (Unit {0}) → Result B → Result B
first >> next = first >>= λ _. next

-- An early return with an error when the test holds.
abbrev pub fail_if : Bool → Error → Result (Unit {0})
fail_if true e = err e
fail_if false e = ok tt

pub Result-cases {ℓ} :
    {A : Type ℓ} (r : Result A) → ((e : Error) × (r ≡ err e)) ⊎ ((a : A) × (r ≡ ok a))
Result-cases (err e) = inl (e, refl)
Result-cases (ok a) = inr (a, refl)
