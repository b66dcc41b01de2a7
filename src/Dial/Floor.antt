-- ===== src/Dial/Floor.antt =====
-- internal/auth/addr.go: `floorForbidden`, `isInternalIP` and `AuthorizeAddr`.
use cynative.Base.{
  ℕ, Bool, true, false, ◌&&◌, ◌||◌, if◌then◌else◌, ◌==◌, Str, List, [], ◌∷◌, Option, none, some,
  has_prefix, drop, Result, ok, err,
}
use cynative.Dial.Address.{
  Addr, invalid, v4, v6, addr_from4, unmap, without_zone, is_private, is_loopback, is_unspecified,
  is_link_local_unicast, is_link_local_multicast, is_interface_local_multicast, is6,
}

-- `nat64WellKnown` and `sixToFour`
abbrev pub nat64_well_known : List ℕ
nat64_well_known = 0 ∷ 100 ∷ 255 ∷ 155 ∷ 0 ∷ 0 ∷ 0 ∷ 0 ∷ 0 ∷ 0 ∷ 0 ∷ 0 ∷ []

abbrev pub six_to_four : List ℕ
six_to_four = 32 ∷ 2 ∷ []

-- the `switch` of `extractEmbeddedIPv4`, on the bytes of an unmapped address
unfoldable pub embedded_in : List ℕ → Option Addr
unfolding has_prefix addr_from4
embedded_in b =
    if has_prefix b nat64_well_known
    then some (addr_from4 (drop 12 b))
    else (if has_prefix b six_to_four then some (addr_from4 (drop 2 b)) else none)

abbrev extract_unmapped : Addr → Option Addr
extract_unmapped (v6 b z) = embedded_in b
extract_unmapped _ = none

-- `extractEmbeddedIPv4`
unfoldable pub extract_embedded_ipv4 : Addr → Option Addr
unfolding unmap embedded_in
extract_embedded_ipv4 ip = extract_unmapped (without_zone (unmap ip))

-- `slices.Contains(cloudHostLocalAddrs, ip)`
unfoldable pub is_cloud_host_local : Addr → Bool
is_cloud_host_local (v4 a b c d) =
    (a == 168 && b == 63 && c == 129 && d == 16) || (a == 100 && b == 100 && c == 100 && d == 200)
is_cloud_host_local _ = false

-- the tests that `floorForbidden` makes of the unmapped address itself
unfoldable pub own_floor : Addr → Bool
unfolding is_cloud_host_local is_private is_loopback is_unspecified is_link_local_unicast
    is_link_local_multicast is_interface_local_multicast
own_floor ip =
    is_cloud_host_local ip
    || (is6 ip && is_private ip)
    || is_loopback ip
    || is_unspecified ip
    || is_link_local_unicast ip
    || is_link_local_multicast ip
    || is_interface_local_multicast ip

-- `floorForbidden` of an address with no other embedded in it: the call on the embedded address
abbrev pub flat_floor : Addr → Bool
flat_floor invalid = true
flat_floor ip = own_floor ip

abbrev or_embedded : (Addr → Bool) → Option Addr → Bool
or_embedded test none = false
or_embedded test (some ip) = test ip

-- `floorForbidden`
unfoldable pub floor_forbidden : Addr → Bool
unfolding own_floor unmap extract_embedded_ipv4
floor_forbidden invalid = true
floor_forbidden ip =
    or_embedded flat_floor (extract_embedded_ipv4 (unmap ip)) || own_floor (unmap ip)

-- `isInternalIP` of an address with no other embedded in it
abbrev pub flat_internal : Addr → Bool
flat_internal ip = flat_floor ip || is_private ip

-- `isInternalIP`
unfoldable pub is_internal_ip : Addr → Bool
unfolding floor_forbidden unmap extract_embedded_ipv4 is_private own_floor
is_internal_ip ip =
    floor_forbidden ip
    || or_embedded flat_internal (extract_embedded_ipv4 (unmap ip))
    || is_private (unmap ip)

-- the errors of `AuthorizeAddr` after `find`
pub data AddrError : Type 0 where
  provider_failed : Str → AddrError
  addr_not_authorized internal_address : AddrError

abbrev pub addr_answer : Result Str Bool → Result AddrError (Unit {0})
addr_answer (err e) = err (provider_failed e)
addr_answer (ok true) = ok tt
addr_answer (ok false) = err addr_not_authorized

-- `AuthorizeAddr`, on the `AuthorizesAddr` of the provider if it has one
unfoldable pub authorize_addr : Option (Addr → Result Str Bool) → Addr → Result AddrError (Unit {0})
unfolding is_internal_ip
authorize_addr (some gate) ip = addr_answer (gate ip)
authorize_addr none ip = if is_internal_ip ip then err internal_address else ok tt
