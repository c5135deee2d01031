-- ===== src/Reality/User/Admission.antt =====
-- Who is admitted, and what the operations do to that.
use leshiy.Prelude.{
  ℕ, ◌+◌, ◌^◌, ◌≤◌, ◌<◌, ◌≡◌, ◌≢◌, ◌⊎◌, inl, inr, refl, sym, Bool, true, false, Bool-cases, Option,
  none, some, ◌==◌, if◌then◌else◌, arith,
}
use leshiy.Prelude.Assoc.{lookup, lookup-insert, lookup-erase}
use leshiy.Reality.User.{
  User, UserLimits, Def, Entry, Store, expired, spent, ok, used_total, authorize, authorize_entry,
  allowed_entry, fetch_add, modify, add_usage, still_allowed, upsert, upsert_entry, remove,
  set_enabled, reset_usage,
}
use leshiy.Reality.User.Limits.{Admits, used_so_far, ok-Admits, admitted_limits, refused_limits}

abbrev pub found_limits : Option UserLimits → Bool
found_limits none = false
found_limits (some limits) = true

map_entry : (Entry → Entry) → Option Entry → Option Entry
map_entry f none = none
map_entry f (some e) = some (f e)

lookup-modify :
    (k j : ℕ) (f : Entry → Entry) (s : Store) (o : Option Entry)
    → lookup k s ≡ o
    → lookup j (modify k f s o) ≡ (if k == j then map_entry f o else lookup j s)
unfolding map_entry
lookup-modify k j f s none absent = elim (Bool-cases (k == j)) [
  | inl same ↦ rw same (ground (arith, same, absent))
  | inr other ↦ rw other refl
]
lookup-modify k j f s (some e) present = lookup-insert k j (f e) s

lookup-modify_same :
    (k : ℕ) (f : Entry → Entry) (s : Store)
    → lookup k (modify k f s (lookup k s)) ≡ map_entry f (lookup k s)
lookup-modify_same k f s =
    let self : (k == k) ≡ true = ground arith in
    let e = lookup-modify k k f s (lookup k s) refl in rw self at e

lookup-modify_other :
    (k j : ℕ) (f : Entry → Entry) (s : Store)
    → k ≢ j
    → lookup j (modify k f s (lookup k s)) ≡ lookup j s
lookup-modify_other k j f s other =
    let apart : (k == j) ≡ false = ground (arith, other) in
    let e = lookup-modify k j f s (lookup k s) refl in rw apart at e

-- An id is authorized if and only if it is still allowed at that moment: the two checks agree.
pub authorize-still_allowed :
    (s : Store) (k now : ℕ) → found_limits (authorize s k now) ≡ still_allowed s k now
unfolding authorize still_allowed authorize_entry allowed_entry
authorize-still_allowed s k now = agree (lookup k s)
  where
    agree : (o : Option Entry) → found_limits (authorize_entry o now) ≡ allowed_entry o now
    agree none = refl
    agree (some e) = elim (Bool-cases (ok e.def (used_total e) now)) [
      | inl may ↦ rw may refl
      | inr may_not ↦ rw may_not refl
    ]

expired_later :
    (exp : Option ℕ) (now later : ℕ)
    → now ≤ later
    → expired exp now ≡ true
    → expired exp later ≡ true
expired_later none now later t h = h
expired_later (some exp) now later t h = ground (arith, t, h)

spent_more :
    (cap : Option ℕ) (used more : ℕ) → used ≤ more → spent cap used ≡ true → spent cap more ≡ true
spent_more none used more u h = h
spent_more (some cap) used more u h = ground (arith, u, h)

ok_stays_false :
    (def : Def) (used more now later : ℕ)
    → used ≤ more
    → now ≤ later
    → ok def used now ≡ false
    → ok def more later ≡ false
unfolding ok
ok_stays_false def used more now later u t h = elim (Bool-cases def.enabled) [
  | inr off ↦ rw off refl
  | inl on ↦ elim (Bool-cases (expired def.expires_at later)) [
    | inl late ↦ rw (on, late) refl
    | inr early ↦ elim (Bool-cases (spent def.data_cap more)) [
      | inl over ↦ rw (on, early, over) refl
      | inr under ↦ elim (Bool-cases (expired def.expires_at now)) [
        | inl late ↦ cc (expired_later def.expires_at now later t late)
        | inr early_now ↦ elim (Bool-cases (spent def.data_cap used)) [
          | inl over ↦ cc (spent_more def.data_cap used more u over)
          | inr under_now ↦ cc (rw (on, early_now, under_now) at h)
        ]
      ]
    ]
  ]
]

-- A user that is no longer allowed stays so as time passes and as usage is added to any user, as
-- long as that user's two counters stay below 2^64.
pub add_usage-still_allowed :
    (s : Store) (k j up down now later : ℕ)
    → ((e : Entry)
        → lookup k s ≡ some e
        → (e.used_up + up < 2 ^ 64) × (e.used_down + down < 2 ^ 64))
    → now ≤ later
    → still_allowed s j now ≡ false
    → still_allowed (add_usage s k up down) j later ≡ false
unfolding add_usage still_allowed allowed_entry map_entry used_total fetch_add
add_usage-still_allowed s k j up down now later bound t h = elim (Bool-cases (k == j)) [
  | inl same ↦
      let here : k ≡ j = ground (arith, same) in
      let h_k : allowed_entry (lookup k s) now ≡ false = rw here h in
      rw (sym here) (rw (lookup-modify_same k _ s) (revoked (lookup k s) refl h_k))
  | inr apart ↦
      let other : k ≢ j = ground (arith, apart) in
      rw (lookup-modify_other k j _ s other) (allowed_later (lookup j s) h)
]
  where
    count_usage : Entry → Entry
    count_usage e = record e {
      used_up = fetch_add e.used_up up;
      used_down = fetch_add e.used_down down;
    }

    allowed_later : (o : Option Entry) → allowed_entry o now ≡ false → allowed_entry o later ≡ false
    allowed_later none g = refl
    allowed_later (some e) g =
        ok_stays_false e.def (used_total e) (used_total e) now later (omega arith) t g

    revoked :
        (o : Option Entry)
        → lookup k s ≡ o
        → allowed_entry o now ≡ false
        → allowed_entry (map_entry count_usage o) later ≡ false
    revoked none e g = refl
    revoked (some e) eq g =
        ok_stays_false e.def (used_total e) (used_total (count_usage e)) now later
          (ground (arith, bound e eq)) t g

-- Inserting or replacing a user puts its limits in force at once: the id is authorized, at the user's
-- rates, if and only if the user is enabled, its expiry is not past and what the id has used so far,
-- nothing for a new one, is below its cap.
pub authorize-upsert :
    (s : Store) (u : User) (now : ℕ)
    → Admits u (used_so_far (lookup u.short_id s)) now
        × (authorize (upsert s u) u.short_id now
            ≡ some (record { up = u.rate_up; down = u.rate_down }))
      ⊎ (¬ Admits u (used_so_far (lookup u.short_id s)) now)
        × (authorize (upsert s u) u.short_id now ≡ none)
unfolding authorize upsert
authorize-upsert s u now =
    let self : (u.short_id == u.short_id) ≡ true = ground arith in
    rw (lookup-insert u.short_id u.short_id (upsert_entry u (lookup u.short_id s)) s, self)
      (limits (lookup u.short_id s))
  where
    limits :
        (o : Option Entry)
        → Admits u (used_so_far o) now
            × (authorize_entry (some (upsert_entry u o)) now
                ≡ some (record { up = u.rate_up; down = u.rate_down }))
          ⊎ (¬ Admits u (used_so_far o) now)
            × (authorize_entry (some (upsert_entry u o)) now ≡ none)
    limits o = elim (ok-Admits u (used_so_far o) now) [
      | inl (admitted, passed) ↦ inl (admitted, admitted_limits u o now passed)
      | inr (barred, failed) ↦ inr (barred, refused_limits u o now failed)
    ]

-- A removed user is not authorized, and neither is one that is disabled, at any time.
pub authorize-revoked :
    (s : Store) (k now : ℕ)
    → (authorize (remove s k).0 k now ≡ none) × (authorize (set_enabled s k false).0 k now ≡ none)
unfolding authorize remove set_enabled authorize_entry ok map_entry
authorize-revoked s k now =
    let self : (k == k) ≡ true = ground arith in
    (rw (lookup-erase k k s, self) refl, rw (lookup-modify_same k _ s) (refused (lookup k s)))
  where
    refused :
        (o : Option Entry)
        → authorize_entry
            (map_entry (λ e. record e { def = record e.def { enabled = false } }) o)
            now
          ≡ none
    refused none = refl
    refused (some e) = refl

-- No operation on one id changes whether another is authorized, or its limits.
pub authorize-others :
    (s : Store) (u : User) (j up down now : ℕ) (on : Bool)
    → u.short_id ≢ j
    → let k = u.short_id in
      (authorize (upsert s u) j now ≡ authorize s j now)
      × (authorize (remove s k).0 j now ≡ authorize s j now)
      × (authorize (add_usage s k up down) j now ≡ authorize s j now)
      × (authorize (set_enabled s k on).0 j now ≡ authorize s j now)
      × (authorize (reset_usage s k).0 j now ≡ authorize s j now)
unfolding authorize upsert remove add_usage set_enabled reset_usage
authorize-others s u j up down now on other =
    let k = u.short_id in
    let apart : (k == j) ≡ false = ground (arith, other) in
    (
      rw (lookup-insert k j (upsert_entry u (lookup k s)) s, apart) refl,
      rw (lookup-erase k j s, apart) refl,
      rw (lookup-modify_other k j _ s other) refl,
      rw (lookup-modify_other k j _ s other) refl,
      rw (lookup-modify_other k j _ s other) refl,
    )
