-- ===== src/Core/Icmp.antt =====
-- crates/leshiy-core/src/icmp.rs: the ICMP echo header and the internet checksum. A message is a
-- list of bytes; a function that writes in place returns its answer with the new message.
pub mod Fold
pub mod Checksum
pub mod Echoes
mod Tests
use leshiy.Prelude.{
  ℕ, zero, suc, ◌+◌, ◌-◌, ◌*◌, ◌/◌, ◌%◌, ◌^◌, ◌<◌, Bool, true, false, not, ◌&&◌, ◌||◌, Option, none,
  some, List, [], ◌∷◌, length, get_or, set, ltb, leb, ◌==◌, if◌then◌else◌,
}
use leshiy.Prelude.Bytes.{from_be}

abbrev pub v4_echo_request : ℕ
v4_echo_request = 8

abbrev pub v4_echo_reply : ℕ
v4_echo_reply = 0

abbrev pub v6_echo_request : ℕ
v6_echo_request = 128

abbrev pub v6_echo_reply : ℕ
v6_echo_reply = 129

abbrev pub ipproto_icmpv6 : ℕ
ipproto_icmpv6 = 58

abbrev pub header_len : ℕ
header_len = 8

abbrev pub off_type : ℕ
off_type = 0

abbrev pub off_code : ℕ
off_code = 1

abbrev pub off_checksum : ℕ
off_checksum = 2

abbrev pub off_id : ℕ
off_id = 4

abbrev pub off_seq : ℕ
off_seq = 6

pub record Echo : Type 0 where
  pub id : ℕ
  pub seq : ℕ

-- `u16::from_be_bytes` at an offset, which the callers have checked to be in range.
abbrev pub read_u16 : List ℕ → ℕ → ℕ
read_u16 msg off = from_be (get_or msg off 0 ∷ get_or msg (suc off) 0 ∷ [])

-- `msg[off..off + 2].copy_from_slice(&v.to_be_bytes())`
abbrev pub write_u16 : List ℕ → ℕ → ℕ → List ℕ
write_u16 msg off v = set (set msg off (v / 256 % 256)) (suc off) (v % 256)

unfoldable pub parse_echo_request : List ℕ → Bool → Option Echo
parse_echo_request msg v6 =
    let want = if v6 then v6_echo_request else v4_echo_request in
    if ltb (length msg) header_len
      || (not (get_or msg off_type 0 == want) || not (get_or msg off_code 0 == 0))
    then none
    else some (record { id = read_u16 msg off_id; seq = read_u16 msg off_seq })

unfoldable pub is_echo_reply : List ℕ → Bool → Bool
is_echo_reply msg v6 =
    let want = if v6 then v6_echo_reply else v4_echo_reply in
    leb header_len (length msg) && get_or msg off_type 0 == want

unfoldable pub set_id : List ℕ → ℕ → Bool × List ℕ
set_id msg id =
    if ltb (length msg) header_len
    then (false, msg)
    else (true, write_u16 (write_u16 msg off_id id) off_checksum 0)

-- u32 addition.
abbrev pub add_u32 : ℕ → ℕ → ℕ
add_u32 a b = (a + b) % 2 ^ 32

-- The words of a buffer added to an accumulator; a last odd byte is the high byte of a word.
pub sum_words : ℕ → List ℕ → ℕ
sum_words sum [] = sum
sum_words sum (last ∷ []) = add_u32 sum (last * 256)
sum_words sum (a ∷ b ∷ rest) = sum_words (add_u32 sum (from_be (a ∷ b ∷ []))) rest

-- `while sum >> 16 != 0`. A u32 needs two rounds (Icmp/Fold).
pub fold_loop : ℕ → ℕ → ℕ
fold_loop zero sum = sum
fold_loop (suc fuel) sum =
    let rest = fold_loop fuel (sum % 2 ^ 16 + sum / 2 ^ 16) in
    if sum / 2 ^ 16 == 0 then sum else rest

-- `!(sum as u16)`
pub fold : ℕ → ℕ
fold sum = 65535 - fold_loop 3 sum % 2 ^ 16

unfoldable pub checksum : List ℕ → ℕ
checksum bytes = fold (sum_words 0 bytes)

unfoldable pub set_v4_checksum : List ℕ → Bool × List ℕ
set_v4_checksum msg =
    if ltb (length msg) header_len
    then (false, msg)
    else let zeroed = write_u16 msg off_checksum 0 in
      (true, write_u16 zeroed off_checksum (checksum zeroed))

-- The pseudo-header: both addresses, the length as a 32-bit field, and the next header.
pub pseudo_sum : List ℕ → List ℕ → ℕ → ℕ
pseudo_sum src dst len =
    add_u32 (add_u32 (add_u32 (sum_words (sum_words 0 src) dst) (len / 2 ^ 16)) (len % 2 ^ 16))
      ipproto_icmpv6

-- The words of the message, but for the one at the checksum's offset; `i` counts the pairs.
pub sum_message : ℕ → ℕ → List ℕ → ℕ
sum_message i sum [] = sum
sum_message i sum (last ∷ []) = add_u32 sum (last * 256)
sum_message i sum (a ∷ b ∷ rest) =
    sum_message (i + 1) (if i * 2 == off_checksum then sum else add_u32 sum (from_be (a ∷ b ∷ [])))
      rest

unfoldable pub v6_checksum : List ℕ → List ℕ → List ℕ → ℕ
v6_checksum msg src dst = fold (sum_message 0 (pseudo_sum src dst (length msg % 2 ^ 32)) msg)

unfoldable pub set_v6_checksum : List ℕ → List ℕ → List ℕ → Bool × List ℕ
set_v6_checksum msg src dst =
    if ltb (length msg) header_len
    then (false, msg)
    else let zeroed = write_u16 msg off_checksum 0 in
      (true, write_u16 zeroed off_checksum (v6_checksum zeroed src dst))
