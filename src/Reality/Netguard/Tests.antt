-- ===== src/Reality/Netguard/Tests.antt =====
-- Addresses inside and outside the policy.
use leshiy.Prelude.{◌≡◌, refl, true, false, [], ◌∷◌}
use leshiy.Prelude.Net.{v4}
use leshiy.Reality.Netguard.{canonical_ip, forbidden, check_ip}

private_refused : check_ip (v4 (10 ∷ 1 ∷ 2 ∷ 3 ∷ [])) false ≡ false
unfolding check_ip canonical_ip forbidden
private_refused = refl

public_permitted : check_ip (v4 (93 ∷ 184 ∷ 216 ∷ 34 ∷ [])) false ≡ true
unfolding check_ip canonical_ip forbidden
public_permitted = refl
