-- ===== src/Reality/Auth/Toy.antt =====
-- A cipher that appends a tag, for the tests.
use leshiy.Prelude.{
  ℕ, ◌+◌, ◌-◌, ap, arith, some, List, [], ◌∷◌, ◌++◌, length, take, length-append, take-append,
}
use leshiy.Prelude.Bytes.{from_be}
use leshiy.Reality.Auth.{Crypto, IsCrypto}

abbrev pub eight : ℕ → List ℕ
eight x = x ∷ x ∷ x ∷ x ∷ x ∷ x ∷ x ∷ x ∷ []

abbrev pub thirty_two : ℕ → List ℕ
thirty_two x = eight x ++ (eight x ++ (eight x ++ eight x))

abbrev tag : List ℕ
tag = eight 1 ++ eight 2

abbrev pub toy : Crypto
toy = record {
  public_key = λ s. s;
  diffie_hellman = λ a b. (from_be a + from_be b) ∷ [];
  hkdf = λ salt ikm info. salt ++ ikm;
  encrypt = λ key nonce msg aad. msg ++ tag;
  decrypt = λ key nonce sealed aad. some (take (length sealed - 16) sealed);
}

pub toy-IsCrypto : IsCrypto toy
toy-IsCrypto = record {
  diffie_hellman_agrees = λ a b. ap (λ (n : ℕ). n ∷ []) (omega arith);
  decrypt-encrypt = λ key nonce msg aad.
      ap some
        (take-append msg tag (length (msg ++ tag) - 16) (omega (arith, length-append msg tag)));
  length-encrypt = λ key nonce msg aad. omega (arith, length-append msg tag);
}
