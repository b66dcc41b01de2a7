-- ===== src/Dial/Tests.antt =====
-- The dial guard on concrete addresses.
use cynative.Base.{◌≡◌, refl, ◌↔◌, true, false, [], ◌∷◌, ◌++◌, none, ok}
use cynative.Dial.Address.{Addr, v6, zeros10}
use cynative.Dial.Floor.{nat64_well_known, floor_forbidden, is_internal_ip, authorize_addr}
use cynative.Dial.Embedded.{nat64, IsNotInternal, authorize_addr-Writes_iff}

authorize_addr-Writes_iff_example :
    (authorize_addr none (v6 (nat64_well_known ++ 169 ∷ 254 ∷ 169 ∷ 254 ∷ []) []) ≡ ok tt)
    ↔ IsNotInternal 169 254 169 254
authorize_addr-Writes_iff_example = authorize_addr-Writes_iff (nat64 169 254 169 254 [])

abbrev private_site : Addr
private_site = v6 (32 ∷ 2 ∷ 10 ∷ 0 ∷ 0 ∷ 1 ∷ zeros10) []

site_not_floor : floor_forbidden private_site ≡ false
unfolding floor_forbidden
site_not_floor = refl

site_internal : is_internal_ip private_site ≡ true
unfolding is_internal_ip
site_internal = refl

unique_local_forbidden : floor_forbidden (v6 (253 ∷ 0 ∷ zeros10 ++ 0 ∷ 0 ∷ 2 ∷ 84 ∷ []) []) ≡ true
unfolding floor_forbidden
unique_local_forbidden = refl
