-- ===== src/Core/Version/Tests.antt =====
-- A phone and a server negotiate; the theorems at their hellos.
use leshiy.Prelude.{◌≤◌, ◌<◌, ◌≡◌, ◌⊎◌, refl}
use leshiy.Core.Error.{ok, err, no_common}
use leshiy.Core.Error
use leshiy.Core.Version.{Hello, Negotiated, new_hello, negotiate, has_cap, clamp_idle_tolerance}
use leshiy.Core.Version.Agreement.{IsCommon, mirror, negotiate-mirror, negotiate-IsCommon}

abbrev server : Hello
unfolding new_hello
server = new_hello 3 1 0x1f

abbrev phone : Hello
phone = record { version = 2; min_supported = 2; capabilities = 0x12; idle_tolerance = 1000 }

abbrev agreed : Negotiated
agreed = record {
  version = 2;
  capabilities = 0x12;
  local_idle_tolerance = 900;
  peer_idle_tolerance = 45;
}

agreed_run : negotiate server phone ≡ ok agreed
unfolding negotiate has_cap clamp_idle_tolerance new_hello
agreed_run = refl

too_old : negotiate (new_hello 1 1 0) phone ≡ err (Error.version (no_common 1 1 2 2))
unfolding negotiate new_hello
too_old = refl

negotiate-mirror_example : negotiate phone server ≡ mirror (negotiate server phone)
negotiate-mirror_example = negotiate-mirror server phone

negotiate-IsCommon_example : IsCommon server phone 2 × ((3 ≤ 2) ⊎ ((server.version < 3) ⊎ (2 < 3)))
negotiate-IsCommon_example = negotiate-IsCommon server phone agreed 3 agreed_run
