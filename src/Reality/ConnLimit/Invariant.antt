-- ===== src/Reality/ConnLimit/Invariant.antt =====
-- The counters are exact, and the caps hold, after any history of connections and drops.
use leshiy.Prelude.{
  ℕ, zero, suc, ◌+◌, ◌-◌, ◌≤◌, ◌≡◌, inl, inr, refl, ◌∙◌, Bool-cases, Option, Option-cases, none,
  some, List, [], ◌∷◌, length, ltb, leb, ◌==◌, if◌then◌else◌, arith,
}
use leshiy.Prelude.Assoc.{lookup, lookup-insert, lookup-erase}
use leshiy.Reality.ConnLimit.{
  State, Event, connects, drops, new_limiter, bucket, key_of, count_or_zero, try_acquire,
  release_count, drop_guard, remove_at, step, run,
}
use leshiy.Prelude.Net.{IpAddr}

-- How often a key is among the guards that are held.
unfoldable pub count : ℕ → List ℕ → ℕ
count k [] = 0
count k (x ∷ xs) = let rest = count k xs in if x == k then suc rest else rest

pub record Inv (s : State) : Type 0 where
  pub total_right : s.limiter.total ≡ length s.held
  pub total_cap : s.limiter.total ≤ s.limiter.max_total
  pub counts :
      (k : ℕ)
      → (count_or_zero (lookup k s.limiter.per_ip) ≡ count k s.held)
        × (count k s.held ≤ s.limiter.max_per_ip)

init-Inv : (m n : ℕ) → Inv (record { limiter = new_limiter m n; held = [] })
unfolding new_limiter lookup count
init-Inv m n = record { total_right = refl; total_cap = omega arith; counts = λ k. omega arith }

try_acquire-Inv : (s : State) (ip : IpAddr) → Inv s → Inv (step s (connects ip))
unfolding step try_acquire count
try_acquire-Inv s ip v =
    let key = key_of (bucket ip) in
    let cur = count_or_zero (lookup key s.limiter.per_ip) in
    elim (Bool-cases (leb s.limiter.max_total s.limiter.total)) [
      | inl full ↦ rw full v
      | inr room ↦ elim (Bool-cases (leb s.limiter.max_per_ip cur)) [
        | inl many ↦ rw (room, many) v
        | inr few ↦
            rw (room, few)
              (record {
                total_right = omega (arith, v.total_right);
                total_cap = ground (arith, room);
                counts = λ k. (
                  ground (
                    arith,
                    v.counts k,
                    v.counts key,
                    lookup-insert key k (cur + 1) s.limiter.per_ip,
                  ),
                  ground (arith, few, v.counts k, v.counts key),
                );
              })
      ]
    ]

remove_at_lem :
    (i : ℕ) (held : List ℕ) (p : ℕ × List ℕ)
    → remove_at i held ≡ some p
    → (length held ≡ suc (length p.1))
      × ((k : ℕ) → count k held ≡ (if p.0 == k then suc (count k p.1) else count k p.1))
unfolding remove_at count
remove_at_lem i [] p e = cc
remove_at_lem zero (x ∷ xs) p e = (ground arith, λ k. ground arith)
remove_at_lem (suc i) (x ∷ xs) p e = elim (Option-cases (remove_at i xs)) [
  | inl gone ↦ cc (rw gone at e)
  | inr (q, found) ↦
      let (l, c) = remove_at_lem i xs q found in
      let same : some (q.0, x ∷ q.1) ≡ some p = rw found at e in
      (ground (arith, same, l), λ k. ground (arith, same, c k))
]

lookup-release_count :
    (key k : ℕ) (m : List (ℕ × ℕ)) (o : Option ℕ)
    → lookup key m ≡ o
    → count_or_zero (lookup k (release_count key m o))
      ≡ (if key == k then count_or_zero o - 1 else count_or_zero (lookup k m))
unfolding release_count
lookup-release_count key k m none absent = elim (Bool-cases (key == k)) [
  | inl same ↦ let e : lookup k m ≡ none = ground (arith, same, absent) in rw (same, e) refl
  | inr other ↦ rw other refl
]
lookup-release_count key k m (some c) found = elim (Bool-cases (c - 1 == 0)) [
  | inl last ↦ elim (Bool-cases (key == k)) [
    | inl same ↦ rw (last, lookup-erase key k m, same) (ground (arith, last))
    | inr other ↦ rw (last, lookup-erase key k m, other) refl
  ]
  | inr more ↦ elim (Bool-cases (key == k)) [
    | inl same ↦ rw (more, lookup-insert key k (c - 1) m, same) refl
    | inr other ↦ rw (more, lookup-insert key k (c - 1) m, other) refl
  ]
]

drop_guard-Inv :
    (s : State) (p : ℕ × List ℕ)
    → Inv s
    → (length s.held ≡ suc (length p.1))
    → ((k : ℕ) → count k s.held ≡ (if p.0 == k then suc (count k p.1) else count k p.1))
    → Inv (record { limiter = drop_guard s.limiter p.0; held = p.1 })
unfolding drop_guard
drop_guard-Inv s p v l c = record {
  total_right = omega (arith, v.total_right);
  total_cap = omega (arith, v.total_cap);
  counts = λ k.
      let r = lookup-release_count p.0 k s.limiter.per_ip (lookup p.0 s.limiter.per_ip) refl in
      (ground (arith, r, v.counts k, v.counts p.0, c k, c p.0), ground (arith, v.counts k, c k));
}

pub step-Inv : (s : State) (e : Event) → Inv s → Inv (step s e)
unfolding step
step-Inv s (connects ip) v = try_acquire-Inv s ip v
step-Inv s (drops i) v = elim (Option-cases (remove_at i s.held)) [
  | inl gone ↦ rw gone v
  | inr (p, found) ↦
      let (l, c) = remove_at_lem i s.held p found in rw found (drop_guard-Inv s p v l c)
]

run-Inv : (s : State) (es : List Event) → Inv s → Inv (run s es)
unfolding run
run-Inv s [] v = v
run-Inv s (e ∷ es) v = run-Inv (step s e) es (step-Inv s e v)

step_caps :
    (s : State) (e : Event)
    → ((step s e).limiter.max_total ≡ s.limiter.max_total)
      × ((step s e).limiter.max_per_ip ≡ s.limiter.max_per_ip)
unfolding step try_acquire drop_guard
step_caps s (connects ip) = ground arith
step_caps s (drops i) = elim (Option-cases (remove_at i s.held)) [
  | inl gone ↦ rw gone (refl, refl)
  | inr (p, found) ↦ rw found (refl, refl)
]

run_caps :
    (s : State) (es : List Event)
    → ((run s es).limiter.max_total ≡ s.limiter.max_total)
      × ((run s es).limiter.max_per_ip ≡ s.limiter.max_per_ip)
unfolding run
run_caps s [] = (refl, refl)
run_caps s (e ∷ es) =
    let (a, b) = run_caps (step s e) es in let (c, d) = step_caps s e in (a ∙ c, b ∙ d)

-- From a new limiter, after any history of connections tried and guards dropped, the total is the
-- number of guards held and at most the global cap, and for every bucket the map's count is the
-- number of guards held for it and at most the cap per address; the caps are those it was made with.
pub run-new_limiter :
    (max_total max_per_ip : ℕ) (es : List Event)
    → let s = run (record { limiter = new_limiter max_total max_per_ip; held = [] }) es in
      Inv s × (s.limiter.max_total ≡ max_total) × (s.limiter.max_per_ip ≡ max_per_ip)
unfolding new_limiter
run-new_limiter max_total max_per_ip es =
    let start : State = record { limiter = new_limiter max_total max_per_ip; held = [] } in
    let caps = run_caps start es in
    (run-Inv start es (init-Inv max_total max_per_ip), caps.0, caps.1)

-- When the counters are exact, a connection is admitted, with the key of its bucket, if and only if
-- fewer guards are held than the global cap and fewer for its bucket than the cap per address.
pub try_acquire_admits :
    (s : State) (ip : IpAddr)
    → Inv s
    → let key = key_of (bucket ip) in
      (try_acquire s.limiter ip).1 ≡ (
        if ltb (length s.held) s.limiter.max_total
        then if ltb (count key s.held) s.limiter.max_per_ip then some key else none
        else none)
unfolding try_acquire
try_acquire_admits s ip v = ground (arith, v.total_right, v.counts (key_of (bucket ip)))
