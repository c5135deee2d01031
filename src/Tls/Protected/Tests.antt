-- ===== src/Tls/Protected/Tests.antt =====
-- A cipher that copies, and the theorem at a record that ends in zeros.
use leshiy.Prelude.{ℕ, ◌≤◌, ◌<◌, ◌≡◌, refl, arith, ◌⊎◌, some, List, [], ◌∷◌}
use leshiy.Tls.Error.{failed, done, malformed, record_too_large, record_empty}
use leshiy.Tls.Protected.{Aead, IsAead, seal_record, open_record_parts, open_record, nonce}
use leshiy.Tls.Protected.RoundTrip.{open_record-seal_record}

abbrev copying : Aead
copying = record {
  seal_in_place = λ key n aad buffer. some buffer;
  open_in_place = λ key n aad sealed. some sealed;
}

copying-IsAead : IsAead copying []
copying-IsAead = record { open-seal = λ n aad buffer fits. (buffer, refl, refl) }

only_padding : open_record_parts copying [] [] 0 [] (0 ∷ 0 ∷ []) ≡ failed (malformed record_empty)
unfolding open_record_parts
only_padding = refl

first_nonce :
    nonce (1 ∷ 1 ∷ 1 ∷ 1 ∷ 1 ∷ 1 ∷ 1 ∷ 1 ∷ 1 ∷ 1 ∷ 1 ∷ 1 ∷ []) 258
    ≡ 1 ∷ 1 ∷ 1 ∷ 1 ∷ 1 ∷ 1 ∷ 1 ∷ 1 ∷ 1 ∷ 1 ∷ 0 ∷ 3 ∷ []
unfolding nonce
first_nonce = refl

open_record-seal_record_example :
    (65518 < 3)
      × (seal_record copying [] [] 5 0x17 (7 ∷ 0 ∷ 0 ∷ []) ≡ failed (malformed record_too_large))
    ⊎ ((bytes : List ℕ) × (3 ≤ 65518)
        × (seal_record copying [] [] 5 0x17 (7 ∷ 0 ∷ 0 ∷ []) ≡ done bytes)
        × (open_record copying [] [] 5 bytes ≡ done (0x17, 7 ∷ 0 ∷ 0 ∷ [])))
open_record-seal_record_example =
    open_record-seal_record copying [] [] (7 ∷ 0 ∷ 0 ∷ []) 5 0x17 copying-IsAead (omega arith)
