-- ===== src/Reality/Replay.antt =====
-- crates/leshiy-reality/src/replay.rs: the guard against replayed ClientHellos.
-- Keys are of any type with decidable equality; the hash set is its membership function. A call
-- holds the lock from its first line to its last, so calls are steps.
pub mod Guard
mod Tests
use leshiy.Prelude.{
  ℕ, ◌+◌, ◌-◌, Bool, true, false, not, ◌||◌, Option, none, some, List, [], ◌∷◌, ◌++◌, length, ltb,
  leb, ◌==◌, if◌then◌else◌,
}
use mathlib.Core.Logic.{ite}

-- The key of a ClientHello: its random and its session id, if both are 32 bytes.
pub replay_key : List ℕ → List ℕ → Option (List ℕ)
replay_key random session_id =
    if not (length random == 32) || not (length session_id == 32)
    then none
    else some (random ++ session_id)

-- `order` has the oldest entry first, with the second at which it was recorded.
pub record ReplayGuard (K : Type 0) : Type 0 where
  pub ttl_secs : ℕ
  pub max_entries : ℕ
  pub order : List (K × ℕ)
  pub present : K → Bool

module _ {K : Type 0} (same : Discrete K) where
  -- `HashSet::insert` and `HashSet::remove`.
  pub set_insert : K → (K → Bool) → K → Bool
  set_insert k set j = ite (same k j) true (set j)

  pub set_remove : K → (K → Bool) → K → Bool
  set_remove k set j = ite (same k j) false (set j)

  -- The loop that pops expired entries from the front.
  pub evict : ℕ → List (K × ℕ) → (K → Bool) → List (K × ℕ) × (K → Bool)
  evict cutoff [] set = ([], set)
  evict cutoff (oldest ∷ rest) set =
      let more = evict cutoff rest (set_remove oldest.0 set) in
      if ltb oldest.1 cutoff then more else (oldest ∷ rest, set)

  -- `pop_front`, with its key taken out of the set.
  pub drop_oldest : List (K × ℕ) → (K → Bool) → List (K × ℕ) × (K → Bool)
  drop_oldest [] set = ([], set)
  drop_oldest (oldest ∷ rest) set = (rest, set_remove oldest.0 set)

  abbrev pub make_room : ℕ → List (K × ℕ) × (K → Bool) → List (K × ℕ) × (K → Bool)
  make_room max_entries e = if leb max_entries (length e.0) then drop_oldest e.0 e.1 else e

  -- `push_back` and `insert`.
  pub record_key : ReplayGuard K → K → ℕ → List (K × ℕ) × (K → Bool) → ReplayGuard K
  record_key g key now kept = record g {
    order = kept.0 ++ ((key, now) ∷ []);
    present = set_insert key kept.1;
  }

  pub check_and_record : ReplayGuard K → K → ℕ → ReplayGuard K × Bool
  check_and_record g key now =
      let live = evict (now - g.ttl_secs) g.order g.present in
      if live.1 key
      then (record g { order = live.0; present = live.1 }, true)
      else (record_key g key now (make_room g.max_entries live), false)
