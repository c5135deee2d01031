-- ===== src/Tls/Ja/Text.antt =====
-- Formatting of numbers, and what the fingerprints use of the standard library's iterators.
use leshiy.Prelude.{
  ℕ, zero, suc, ◌+◌, ◌-◌, ◌/◌, ◌%◌, max, Option, none, some, List, [], ◌∷◌, ◌++◌, length, ltb, leb,
  if◌then◌else◌,
}

-- The decimal digits of n, with a round for each of n: a round divides by ten.
unfoldable pub decimal_rounds : ℕ → ℕ → List ℕ
decimal_rounds zero n = (b'0' + n) ∷ []
decimal_rounds (suc f) n =
    let upper = decimal_rounds f (n / 10) in
    if ltb n 10 then (b'0' + n) ∷ [] else upper ++ ((b'0' + n % 10) ∷ [])

unfoldable pub decimal : ℕ → List ℕ
decimal n = decimal_rounds n n

-- `{n:02}`
unfoldable pub two_digits : ℕ → List ℕ
two_digits n = let digits = decimal n in if ltb (length digits) 2 then b'0' ∷ digits else digits

abbrev pub hex_digit : ℕ → ℕ
hex_digit d = if ltb d 10 then b'0' + d else b'a' + (d - 10)

-- `{x:04x}` of a u16.
unfoldable pub hex4 : ℕ → List ℕ
hex4 x =
    hex_digit (x / 4096 % 16)
    ∷ hex_digit (x / 256 % 16)
    ∷ hex_digit (x / 16 % 16)
    ∷ hex_digit (x % 16)
    ∷ []

-- `hex::encode`
unfoldable pub hex_bytes : List ℕ → List ℕ
hex_bytes [] = []
hex_bytes (b ∷ bs) = hex_digit (b / 16) ∷ hex_digit (b % 16) ∷ hex_bytes bs

abbrev join_onto : ℕ → List (List ℕ) → List ℕ
join_onto sep [] = []
join_onto sep (x ∷ xs) = sep ∷ (x ++ join_onto sep xs)

unfoldable pub join : ℕ → List (List ℕ) → List ℕ
join sep [] = []
join sep (x ∷ xs) = x ++ join_onto sep xs

unfoldable pub insert : ℕ → List ℕ → List ℕ
insert x [] = x ∷ []
insert x (y ∷ ys) = if leb x y then x ∷ y ∷ ys else y ∷ insert x ys

-- `sort_unstable`
unfoldable pub sort : List ℕ → List ℕ
sort [] = []
sort (x ∷ xs) = insert x (sort xs)

abbrev pub larger : ℕ → Option ℕ → Option ℕ
larger x none = some x
larger x (some y) = some (max x y)

abbrev pub maximum : List ℕ → Option ℕ
maximum [] = none
maximum (x ∷ xs) = larger x (maximum xs)

abbrev pub last_or : List ℕ → ℕ → ℕ
last_or [] d = d
last_or (x ∷ xs) d = last_or xs x
