-- ===== src/Reality/Replay/Guard.antt =====
-- The index stays in step with the queue, memory is bounded, and a key that is still live is found.
use leshiy.Prelude.{
  ℕ, ◌+◌, ◌-◌, ◌≤◌, ◌<◌, ◌≡◌, ◌⊎◌, inl, inr, refl, sym, ◌∙◌, Bool, true, false, Bool-cases, List,
  [], ◌∷◌, ◌++◌, length, length-append, ltb, ltb→lt, leb, if◌then◌else◌, arith,
}
use mathlib.Core.Logic.{ite}
use leshiy.Reality.Replay.{
  ReplayGuard, set_insert, set_remove, evict, record_key, drop_oldest, make_room, check_and_record,
}

module _ {K : Type 0} (same : Discrete K) where
  abbrev pub contains : K → List (K × ℕ) → Bool
  contains k [] = false
  contains k (e ∷ es) = ite (same e.0 k) true (contains k es)

  abbrev pub Distinct : List (K × ℕ) → Type 0
  Distinct [] = Unit
  Distinct (e ∷ es) = (contains e.0 es ≡ false) × Distinct es

  abbrev pub Agrees : (K → Bool) → List (K × ℕ) → Type 0
  Agrees set es = (k : K) → set k ≡ contains k es

  -- The set holds the keys of the queue, each once, and the queue is bounded.
  pub record Inv (g : ReplayGuard K) : Type 0 where
    pub distinct : Distinct g.order
    pub agrees : Agrees g.present g.order
    pub bounded : length g.order ≤ g.max_entries
    pub capacity : 0 < g.max_entries

  set_remove-Agrees :
      (e : K × ℕ) (es : List (K × ℕ)) (set : K → Bool)
      → Distinct (e ∷ es)
      → Agrees set (e ∷ es)
      → Agrees (set_remove same e.0 set) es
  unfolding set_remove
  set_remove-Agrees e es set d a k = ground (arith, a k)

  evict-Agrees :
      (cutoff : ℕ) (es : List (K × ℕ)) (set : K → Bool)
      → Distinct es
      → Agrees set es
      → Distinct (evict same cutoff es set).0
        × Agrees (evict same cutoff es set).1 (evict same cutoff es set).0
        × (length (evict same cutoff es set).0 ≤ length es)
  unfolding evict
  evict-Agrees cutoff [] set d a = (tt, a, omega arith)
  evict-Agrees cutoff (e ∷ es) set d a = elim (Bool-cases (ltb e.1 cutoff)) [
    | inl old ↦
        let (d', a', l) =
          evict-Agrees cutoff es (set_remove same e.0 set) d.1 (set_remove-Agrees e es set d a) in
        rw old (d', a', omega arith)
    | inr live ↦ rw live (d, a, omega arith)
  ]

  contains-append :
      (k : K) (es fs : List (K × ℕ))
      → contains k (es ++ fs) ≡ (if contains k es then true else contains k fs)
  contains-append k [] fs = refl
  contains-append k (e ∷ es) fs = ground (arith, contains-append k es fs)

  Distinct-snoc :
      (k : K) (t : ℕ) (es : List (K × ℕ))
      → Distinct es
      → contains k es ≡ false
      → Distinct (es ++ ((k, t) ∷ []))
  Distinct-snoc k t [] d h = (refl, tt)
  Distinct-snoc k t (e ∷ es) d h = (
    ground (arith, contains-append e.0 es ((k, t) ∷ [])),
    Distinct-snoc k t es d.1 (ground arith),
  )

  drop_oldest-Agrees :
      (es : List (K × ℕ)) (set : K → Bool)
      → Distinct es
      → Agrees set es
      → Distinct (drop_oldest same es set).0
        × Agrees (drop_oldest same es set).1 (drop_oldest same es set).0
        × (length (drop_oldest same es set).0 ≡ length es - 1)
        × ((k : K) → contains k es ≡ false → contains k (drop_oldest same es set).0 ≡ false)
  unfolding drop_oldest
  drop_oldest-Agrees [] set d a = (tt, a, omega arith, λ k h. refl)
  drop_oldest-Agrees (e ∷ es) set d a =
      (d.1, set_remove-Agrees e es set d a, omega arith, λ k h. ground arith)

  make_room-Agrees :
      (m : ℕ) (p : List (K × ℕ) × (K → Bool))
      → 0 < m
      → Distinct p.0
      → Agrees p.1 p.0
      → length p.0 ≤ m
      → Distinct (make_room same m p).0
        × Agrees (make_room same m p).1 (make_room same m p).0
        × (length (make_room same m p).0 < m)
        × ((k : K) → contains k p.0 ≡ false → contains k (make_room same m p).0 ≡ false)
  make_room-Agrees m p pos d a l = elim (Bool-cases (leb m (length p.0))) [
    | inl full ↦
        let (d', a', l', c') = drop_oldest-Agrees p.0 p.1 d a in rw full (d', a', omega arith, c')
    | inr room ↦ rw room (d, a, ground arith, λ k h. h)
  ]

  record_key-Inv :
      (g : ReplayGuard K) (key : K) (now : ℕ) (kept : List (K × ℕ) × (K → Bool))
      → 0 < g.max_entries
      → Distinct kept.0
      → Agrees kept.1 kept.0
      → length kept.0 < g.max_entries
      → contains key kept.0 ≡ false
      → Inv (record_key same g key now kept)
  unfolding record_key set_insert
  record_key-Inv g key now kept pos d a l c = record {
    distinct = Distinct-snoc key now kept.0 d c;
    agrees = λ k. ground (arith, a k, contains-append k kept.0 ((key, now) ∷ []));
    bounded = omega (arith, length-append kept.0 ((key, now) ∷ []));
    capacity = pos;
  }

  -- After any call the set holds the keys of the queue, each once, and the queue is within its bound.
  pub check_and_record-Inv :
      (g : ReplayGuard K) (key : K) (now : ℕ) → Inv g → Inv (check_and_record same g key now).0
  unfolding check_and_record
  check_and_record-Inv g key now v =
      let live = evict same (now - g.ttl_secs) g.order g.present in
      let (d, a, l) = evict-Agrees (now - g.ttl_secs) g.order g.present v.distinct v.agrees in
      let (d', a', l', c') =
        make_room-Agrees g.max_entries live v.capacity d a (omega (arith, v.bounded)) in
      elim (Bool-cases (live.1 key)) [
        | inl hit ↦ rw hit (record {
          distinct = d;
          agrees = a;
          bounded = omega (arith, v.bounded);
          capacity = v.capacity;
        })
        | inr miss ↦ rw miss (
            record_key-Inv g key now (make_room same g.max_entries live) v.capacity d' a' l'
              (c' key (sym (a key) ∙ miss)))
      ]

  -- An entry for the key, no older than the cutoff.
  abbrev pub HasLive : ℕ → K → List (K × ℕ) → Type 0
  HasLive cutoff k [] = ⊥
  HasLive cutoff k (e ∷ es) = ((e.0 ≡ k) × (cutoff ≤ e.1)) ⊎ HasLive cutoff k es

  HasLive-contains :
      (cutoff : ℕ) (k : K) (es : List (K × ℕ)) → HasLive cutoff k es → contains k es ≡ true
  HasLive-contains cutoff k [] h = absurd h
  HasLive-contains cutoff k (e ∷ es) (inl h) = ground arith
  HasLive-contains cutoff k (e ∷ es) (inr h) = ground (arith, HasLive-contains cutoff k es h)

  evict-HasLive :
      (cutoff : ℕ) (k : K) (es : List (K × ℕ)) (set : K → Bool)
      → HasLive cutoff k es
      → HasLive cutoff k (evict same cutoff es set).0
  unfolding evict
  evict-HasLive cutoff k [] set h = absurd h
  evict-HasLive cutoff k (e ∷ es) set h = elim (Bool-cases (ltb e.1 cutoff)) [
    | inl old ↦ rw old (evict-HasLive cutoff k es (set_remove same e.0 set) (later old h))
    | inr live ↦ rw live h
  ]
    where
      later : ltb e.1 cutoff ≡ true → HasLive cutoff k (e ∷ es) → HasLive cutoff k es
      later old (inl (same_key, young)) = absurd (omega (arith, ltb→lt e.1 cutoff old))
      later old (inr g) = g

  -- A key that is still queued, with a time within the lifetime before `now`, is reported as a replay,
  -- whatever else is queued; and nothing is recorded: what stays queued is what the eviction of
  -- expired entries leaves, and the set has the same keys as that.
  pub check_and_record_replay :
      (g : ReplayGuard K) (key : K) (now : ℕ)
      → Inv g
      → HasLive (now - g.ttl_secs) key g.order
      → ((check_and_record same g key now).1 ≡ true)
        × ((check_and_record same g key now).0.order
            ≡ (evict same (now - g.ttl_secs) g.order g.present).0)
        × Agrees
            (check_and_record same g key now).0.present
            (check_and_record same g key now).0.order
  unfolding check_and_record
  check_and_record_replay g key now v h =
      let cutoff = now - g.ttl_secs in
      let (d, a, l) = evict-Agrees cutoff g.order g.present v.distinct v.agrees in
      let found =
        HasLive-contains cutoff key (evict same cutoff g.order g.present).0
          (evict-HasLive cutoff key g.order g.present h) in
      (rw (a key, found) refl, rw (a key, found) refl, rw (a key, found) a)

  HasLive-snoc :
      (cutoff t : ℕ) (k : K) (es : List (K × ℕ))
      → cutoff ≤ t
      → HasLive cutoff k (es ++ ((k, t) ∷ []))
  HasLive-snoc cutoff t k [] h = inl (refl, h)
  HasLive-snoc cutoff t k (e ∷ es) h = inr (HasLive-snoc cutoff t k es h)

  recorded-HasLive :
      (g : ReplayGuard K) (key : K) (now later : ℕ)
      → (check_and_record same g key now).1 ≡ false
      → later ≤ now + g.ttl_secs
      → HasLive
          (later - (check_and_record same g key now).0.ttl_secs)
          key
          (check_and_record same g key now).0.order
  unfolding check_and_record record_key
  recorded-HasLive g key now later fresh soon =
      let live = evict same (now - g.ttl_secs) g.order g.present in
      elim (Bool-cases (live.1 key)) [
        | inl hit ↦ cc (rw hit at fresh)
        | inr miss ↦ rw miss (
            HasLive-snoc (later - g.ttl_secs) now key (make_room same g.max_entries live).0
              (omega arith))
      ]

  -- A ClientHello that was taken for new is a replay when it comes again within the lifetime.
  pub check_and_record_twice :
      (g : ReplayGuard K) (key : K) (now later : ℕ)
      → Inv g
      → (check_and_record same g key now).1 ≡ false
      → later ≤ now + g.ttl_secs
      → (check_and_record same (check_and_record same g key now).0 key later).1 ≡ true
  check_and_record_twice g key now later v fresh soon =
      (check_and_record_replay (check_and_record same g key now).0 key later
        (check_and_record-Inv g key now v) (recorded-HasLive g key now later fresh soon)).0
