-- ===== src/Reality/User/Tests.antt =====
-- A store of two users, one with a cap of ten bytes, and the theorems at it.
use leshiy.Prelude.{arith, ◌⊎◌, ◌+◌, ◌^◌, ◌<◌, ◌≡◌, refl, true, false, none, some, [], ◌∷◌}
use leshiy.Prelude.Assoc.{lookup, insert}
use leshiy.Reality.User.{
  User, Entry, Store, def_of, ok, used_total, authorize, allowed_entry, fetch_add, add_usage,
  still_allowed, upsert, upsert_entry, new_store,
}
use leshiy.Reality.User.Limits.{Admits, used_so_far}
use leshiy.Reality.User.Admission.{add_usage-still_allowed, authorize-upsert}

abbrev capped : User
capped = record {
  short_id = 3;
  enabled = true;
  expires_at = some 100;
  data_cap = some 10;
  rate_up = none;
  rate_down = some 1000;
}

abbrev free : User
free = record {
  short_id = 4;
  enabled = true;
  expires_at = none;
  data_cap = none;
  rate_up = none;
  rate_down = none;
}

abbrev used_up_store : Store
used_up_store = add_usage (new_store [] (capped ∷ free ∷ [])) 3 6 6

capped_refused : still_allowed used_up_store 3 50 ≡ false
unfolding still_allowed allowed_entry add_usage new_store upsert upsert_entry lookup insert ok
    used_total def_of fetch_add
capped_refused = refl

free_allowed : still_allowed used_up_store 4 50 ≡ true
unfolding still_allowed allowed_entry add_usage new_store upsert upsert_entry lookup insert ok
    used_total def_of fetch_add
free_allowed = refl

abbrev capped_entry : Entry
capped_entry = record { short_id = 3; def = def_of capped; used_up = 6; used_down = 6 }

capped_found : lookup 3 used_up_store ≡ some capped_entry
unfolding add_usage new_store upsert upsert_entry lookup insert fetch_add
capped_found = refl

capped_bound :
    (e : Entry)
    → lookup 3 used_up_store ≡ some e
    → (e.used_up + 5 < 2 ^ 64) × (e.used_down + 0 < 2 ^ 64)
capped_bound e h =
    let same : some capped_entry ≡ some e = ground (arith, capped_found, h) in
    (ground (arith, same), ground (arith, same))

add_usage-still_allowed_example : still_allowed (add_usage used_up_store 3 5 0) 3 60 ≡ false
add_usage-still_allowed_example =
    add_usage-still_allowed used_up_store 3 3 5 0 50 60 capped_bound (omega arith) capped_refused

authorize-upsert_example :
    Admits capped (used_so_far (lookup 3 used_up_store)) 50
      × (authorize (upsert used_up_store capped) 3 50
          ≡ some (record { up = none; down = some 1000 }))
    ⊎ (¬ Admits capped (used_so_far (lookup 3 used_up_store)) 50)
      × (authorize (upsert used_up_store capped) 3 50 ≡ none)
authorize-upsert_example = authorize-upsert used_up_store capped 50
