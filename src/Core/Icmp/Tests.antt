-- ===== src/Core/Icmp/Tests.antt =====
-- Runs on a ping, and the theorems at it.
use leshiy.Prelude.{◌%◌, ◌<◌, ◌≡◌, ◌⊎◌, refl, false, List, ℕ, [], ◌∷◌, some, arith}
use leshiy.Core.Icmp.{parse_echo_request, is_echo_reply, checksum, sum_words, fold, fold_loop}
use leshiy.Core.Icmp.Fold.{fold_loop_lem}
use leshiy.Core.Icmp.Echoes.{request_or_reply}

abbrev ping : List ℕ
ping = 8 ∷ 0 ∷ 0xf7 ∷ 0xfd ∷ 0 ∷ 1 ∷ 0 ∷ 1 ∷ 7 ∷ []

abbrev ping6 : List ℕ
ping6 = 128 ∷ 0 ∷ 0 ∷ 0 ∷ 0 ∷ 1 ∷ 0 ∷ 1 ∷ []

abbrev loopback : List ℕ
loopback = 0 ∷ 0 ∷ 0 ∷ 0 ∷ 0 ∷ 0 ∷ 0 ∷ 0 ∷ 0 ∷ 0 ∷ 0 ∷ 0 ∷ 0 ∷ 0 ∷ 0 ∷ 1 ∷ []

-- RFC 1071, section 3.
rfc_1071 : checksum (0x00 ∷ 0x01 ∷ 0xf2 ∷ 0x03 ∷ 0xf4 ∷ 0xf5 ∷ 0xf6 ∷ 0xf7 ∷ []) ≡ 0x220d
unfolding checksum sum_words fold fold_loop
rfc_1071 = refl

ping_seen : parse_echo_request ping false ≡ some (record { id = 1; seq = 1 })
unfolding parse_echo_request
ping_seen = refl

request_or_reply_example : is_echo_reply ping false ≡ false
request_or_reply_example = request_or_reply ping false (record { id = 1; seq = 1 }) ping_seen

fold_loop_lem_example :
    (fold_loop 3 0x1ffff ≡ fold_loop 2 0x1ffff)
    × (fold_loop 2 0x1ffff < 0x10000)
    × (fold_loop 2 0x1ffff % 65535 ≡ 0x1ffff % 65535)
    × (((0 < fold_loop 2 0x1ffff) × (0 < 0x1ffff))
        ⊎ ((◌≡◌ {A = ℕ} 0x1ffff 0) × (fold_loop 2 0x1ffff ≡ 0)))
fold_loop_lem_example = fold_loop_lem 0x1ffff 1 (omega arith)
