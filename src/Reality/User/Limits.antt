-- ===== src/Reality/User/Limits.antt =====
-- The limits of a user, apart from the code's test of them.
use leshiy.Prelude.{
  ℕ, ◌+◌, ◌-◌, ◌^◌, ◌≤◌, ◌<◌, ◌≡◌, ◌⊎◌, inl, inr, refl, min, true, false, Bool-cases, Option, none,
  some, arith,
}
use leshiy.Reality.User.{
  User, Entry, def_of, expired, spent, ok, used_total, authorize_entry, upsert_entry,
}

-- The limits of a user, in the user's own words.
abbrev pub InTime : Option ℕ → ℕ → Type 0
InTime none now = Unit
InTime (some exp) now = now ≤ exp

abbrev pub UnderCap : Option ℕ → ℕ → Type 0
UnderCap none used = Unit
UnderCap (some cap) used = used < cap

abbrev pub Admits : User → ℕ → ℕ → Type 0
Admits u used now = (u.enabled ≡ true) × InTime u.expires_at now × UnderCap u.data_cap used

-- What an id has used: both directions, at most the largest u64.
abbrev pub used_so_far : Option Entry → ℕ
used_so_far none = 0
used_so_far (some e) = min (e.used_up + e.used_down) (2 ^ 64 - 1)

in_time : (exp : Option ℕ) (now : ℕ) → expired exp now ≡ false → InTime exp now
in_time none now h = tt
in_time (some exp) now h = ground (arith, h)

past_expiry : (exp : Option ℕ) (now : ℕ) → expired exp now ≡ true → ¬ InTime exp now
past_expiry none now h t = cc
past_expiry (some exp) now h t = ground (arith, h, t)

under_cap : (cap : Option ℕ) (used : ℕ) → spent cap used ≡ false → UnderCap cap used
under_cap none used h = tt
under_cap (some cap) used h = ground (arith, h)

over_cap : (cap : Option ℕ) (used : ℕ) → spent cap used ≡ true → ¬ UnderCap cap used
over_cap none used h t = cc
over_cap (some cap) used h t = ground (arith, h, t)

-- The code's test decides the limits.
pub ok-Admits :
    (u : User) (used now : ℕ)
    → (Admits u used now × (ok (def_of u) used now ≡ true))
      ⊎ ((¬ Admits u used now) × (ok (def_of u) used now ≡ false))
unfolding ok def_of
ok-Admits u used now = elim (Bool-cases u.enabled) [
  | inr off ↦ inr (λ a. cc (off, a.0), rw off refl)
  | inl on ↦ elim (Bool-cases (expired u.expires_at now)) [
    | inl late ↦ inr (λ a. past_expiry u.expires_at now late a.1, rw (on, late) refl)
    | inr early ↦ elim (Bool-cases (spent u.data_cap used)) [
      | inl over ↦ inr (λ a. over_cap u.data_cap used over a.2, rw (on, early, over) refl)
      | inr under ↦ inl (
        (on, in_time u.expires_at now early, under_cap u.data_cap used under),
        rw (on, early, under) refl,
      )
    ]
  ]
]

pub admitted_limits :
    (u : User) (o : Option Entry) (now : ℕ)
    → ok (def_of u) (used_so_far o) now ≡ true
    → authorize_entry (some (upsert_entry u o)) now
      ≡ some (record { up = u.rate_up; down = u.rate_down })
unfolding authorize_entry upsert_entry used_total def_of
admitted_limits u none now h = rw h refl
admitted_limits u (some e) now h = rw h refl

pub refused_limits :
    (u : User) (o : Option Entry) (now : ℕ)
    → ok (def_of u) (used_so_far o) now ≡ false
    → authorize_entry (some (upsert_entry u o)) now ≡ none
unfolding authorize_entry upsert_entry used_total def_of
refused_limits u none now h = rw h refl
refused_limits u (some e) now h = rw h refl
