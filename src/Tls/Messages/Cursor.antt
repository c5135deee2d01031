-- ===== src/Tls/Messages/Cursor.antt =====
-- Reading back what was written at a cursor.
use leshiy.Prelude.{
  ℕ, ◌+◌, ◌<◌, ◌≡◌, refl, ap, false, List, [], ◌∷◌, ◌++◌, length, take, ltb, arith, length-append,
  take-append, drop-append,
}
use leshiy.Prelude.Bytes.{to_be, from_be, from_be-to_be}
use leshiy.Tls.Error.{done}
use leshiy.Tls.Messages.{hs_msg, parse_hs_msg, take_bytes, take_u16, take_u24}

pub take_all : (xs : List ℕ) → take (length xs) xs ≡ xs
take_all [] = refl
take_all (x ∷ xs) = ap (◌∷◌ x) (take_all xs)

enough : (n : ℕ) (xs ys : List ℕ) → n ≡ length xs → ltb (length (xs ++ ys)) n ≡ false
enough n xs ys h = ground (arith, length-append xs ys, h)

pub take_bytes-append :
    (pos n : ℕ) (xs ys : List ℕ)
    → n ≡ length xs
    → take_bytes (pos, xs ++ ys) n ≡ done (xs, (pos + n, ys))
unfolding take_bytes
take_bytes-append pos n xs ys h =
    rw (enough n xs ys h, take-append xs ys n h, drop-append xs ys n h) refl

pub take_u16-to_be :
    (pos v : ℕ) (ys : List ℕ)
    → v < 65536
    → take_u16 (pos, to_be 2 v ++ ys) ≡ done (v, (pos + 2, ys))
unfolding take_u16
take_u16-to_be pos v ys h =
    let read : from_be (to_be 2 v) ≡ v = from_be-to_be 2 v h in
    let long : ltb (length (to_be 2 v ++ ys)) 2 ≡ false = ground arith in rw (long, read) refl

pub take_u24-to_be :
    (pos v : ℕ) (ys : List ℕ)
    → v < 16777216
    → take_u24 (pos, to_be 3 v ++ ys) ≡ done (v, (pos + 3, ys))
unfolding take_u24
take_u24-to_be pos v ys h =
    let read : from_be (to_be 3 v) ≡ v = from_be-to_be 3 v h in
    let long : ltb (length (to_be 3 v ++ ys)) 3 ≡ false = ground arith in rw (long, read) refl

pub parse_hs_msg-hs_msg :
    (msg_type : ℕ) (body rest : List ℕ)
    → length body < 16777216
    → parse_hs_msg (hs_msg msg_type body ++ rest) ≡ done (msg_type, body)
unfolding parse_hs_msg hs_msg
parse_hs_msg-hs_msg msg_type body rest h =
    let read : from_be (to_be 3 (length body)) ≡ length body = from_be-to_be 3 (length body) h in
    let head : ltb (length (msg_type ∷ (to_be 3 (length body) ++ (body ++ rest)))) 4 ≡ false =
      ground arith in
    let whole : ltb (length (msg_type ∷ (to_be 3 (length body) ++ (body ++ rest))))
          (4 + length body)
        ≡ false =
      ground (arith, length-append body rest) in
    rw (read, head, whole, take-append body rest (length body) refl) refl
