-- ===== src/Reality/User.antt =====
-- crates/leshiy-reality/src/user.rs: users, their limits and what they have used. A short id is the
-- number its eight bytes spell. A rate-limiting bucket is the rate it was made with: the tokens it
-- holds are not part of the model. An operation that changes an entry holds the lock it needs.
pub mod Limits
pub mod Admission
mod Tests
use leshiy.Prelude.{
  ℕ, ◌-◌, ◌+◌, ◌%◌, ◌^◌, Bool, true, false, not, Option, none, some, List, [], ◌∷◌, ltb, leb, min,
  if◌then◌else◌,
}
use leshiy.Prelude.Assoc.{lookup, insert, erase}

pub record User : Type 0 where
  pub short_id : ℕ
  pub enabled : Bool
  pub expires_at : Option ℕ
  pub data_cap : Option ℕ
  pub rate_up : Option ℕ
  pub rate_down : Option ℕ

-- The buckets of the two directions, by their rates.
pub record UserLimits : Type 0 where
  pub up : Option ℕ
  pub down : Option ℕ

pub record UserStatus : Type 0 where
  pub user : User
  pub used_up : ℕ
  pub used_down : ℕ

pub record Def : Type 0 where
  pub enabled : Bool
  pub expires_at : Option ℕ
  pub data_cap : Option ℕ
  pub up : Option ℕ
  pub down : Option ℕ
  pub rate_up : Option ℕ
  pub rate_down : Option ℕ

pub record Entry : Type 0 where
  pub short_id : ℕ
  pub def : Def
  pub used_up : ℕ
  pub used_down : ℕ

abbrev pub Store : Type 0
Store = List (ℕ × Entry)

unfoldable pub def_of : User → Def
def_of u = record {
  enabled = u.enabled;
  expires_at = u.expires_at;
  data_cap = u.data_cap;
  up = u.rate_up;
  down = u.rate_down;
  rate_up = u.rate_up;
  rate_down = u.rate_down;
}

abbrev pub expired : Option ℕ → ℕ → Bool
expired none now = false
expired (some exp) now = ltb exp now

abbrev pub spent : Option ℕ → ℕ → Bool
spent none used = false
spent (some cap) used = leb cap used

unfoldable pub ok : Def → ℕ → ℕ → Bool
ok def used now =
    if not def.enabled
    then false
    else if expired def.expires_at now
    then false
    else if spent def.data_cap used
    then false
    else true

-- `used_up.saturating_add(used_down)` on u64
unfoldable pub used_total : Entry → ℕ
used_total e = min (e.used_up + e.used_down) (2 ^ 64 - 1)

unfoldable pub authorize_entry : Option Entry → ℕ → Option UserLimits
authorize_entry none now = none
authorize_entry (some e) now =
    if not (ok e.def (used_total e) now)
    then none
    else some (record { up = e.def.up; down = e.def.down })

unfoldable pub authorize : Store → ℕ → ℕ → Option UserLimits
unfolding authorize_entry
authorize s short_id now = authorize_entry (lookup short_id s) now

-- `fetch_add` on an AtomicU64 wraps.
unfoldable pub fetch_add : ℕ → ℕ → ℕ
fetch_add n more = if ltb 0 more then (n + more) % 2 ^ 64 else n

-- What an operation does to the entry of an id, when there is one.
abbrev pub modify : ℕ → (Entry → Entry) → Store → Option Entry → Store
modify short_id f s none = s
modify short_id f s (some e) = insert short_id (f e) s

abbrev pub found : Option Entry → Bool
found none = false
found (some e) = true

unfoldable pub add_usage : Store → ℕ → ℕ → ℕ → Store
add_usage s short_id up down =
    modify short_id
      (λ e. record e { used_up = fetch_add e.used_up up; used_down = fetch_add e.used_down down }) s
      (lookup short_id s)

unfoldable pub allowed_entry : Option Entry → ℕ → Bool
allowed_entry none now = false
allowed_entry (some e) now = ok e.def (used_total e) now

unfoldable pub still_allowed : Store → ℕ → ℕ → Bool
unfolding allowed_entry
still_allowed s short_id now = allowed_entry (lookup short_id s) now

unfoldable pub upsert_entry : User → Option Entry → Entry
upsert_entry u (some e) = record e { def = def_of u }
upsert_entry u none = record { short_id = u.short_id; def = def_of u; used_up = 0; used_down = 0 }

unfoldable pub upsert : Store → User → Store
unfolding upsert_entry
upsert s u = insert u.short_id (upsert_entry u (lookup u.short_id s)) s

unfoldable pub remove : Store → ℕ → Store × Bool
remove s short_id = (erase short_id s, found (lookup short_id s))

unfoldable pub set_enabled : Store → ℕ → Bool → Store × Bool
set_enabled s short_id on =
    let o = lookup short_id s in
    (modify short_id (λ e. record e { def = record e.def { enabled = on } }) s o, found o)

unfoldable pub reset_usage : Store → ℕ → Store × Bool
reset_usage s short_id =
    let o = lookup short_id s in
    (modify short_id (λ e. record e { used_up = 0; used_down = 0 }) s o, found o)

abbrev pub status : Entry → UserStatus
status e = record {
  user = record {
    short_id = e.short_id;
    enabled = e.def.enabled;
    expires_at = e.def.expires_at;
    data_cap = e.def.data_cap;
    rate_up = e.def.rate_up;
    rate_down = e.def.rate_down;
  };
  used_up = e.used_up;
  used_down = e.used_down;
}

unfoldable pub snapshot : Store → List UserStatus
snapshot [] = []
snapshot (entry ∷ s) = status entry.1 ∷ snapshot s

-- `new`: an upsert of each user in turn.
unfoldable pub new_store : Store → List User → Store
new_store s [] = s
new_store s (u ∷ users) = new_store (upsert s u) users

unfoldable pub unlimited : List ℕ → List User
unlimited [] = []
unlimited (id ∷ ids) =
    record {
      short_id = id;
      enabled = true;
      expires_at = none;
      data_cap = none;
      rate_up = none;
      rate_down = none;
    }
    ∷ unlimited ids

unfoldable pub from_short_ids : List ℕ → Store
unfolding unlimited
from_short_ids ids = new_store [] (unlimited ids)
