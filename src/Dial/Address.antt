-- ===== src/Dial/Address.antt =====
-- Addresses of package net/netip, as bytes, and the methods that the floor calls.
use cynative.Base.{
  ℕ, ◌/◌, ◌%◌, Bool, true, false, ◌&&◌, ◌||◌, if◌then◌else◌, ◌==◌, Str, List, [], ◌∷◌, ◌++◌, drop,
  str_eq, has_prefix,
}

-- `netip.Addr`: the zero value, four bytes, or sixteen with a zone
pub data Addr : Type 0 where
  invalid : Addr
  v4 : ℕ → ℕ → ℕ → ℕ → Addr
  v6 : List ℕ → Str → Addr

-- `netip.AddrFrom4` of the first four bytes of a list; the lists here have them
unfoldable pub addr_from4 : List ℕ → Addr
addr_from4 (a ∷ b ∷ c ∷ d ∷ rest) = v4 a b c d
addr_from4 _ = invalid

abbrev pub zeros10 : List ℕ
zeros10 = 0 ∷ 0 ∷ 0 ∷ 0 ∷ 0 ∷ 0 ∷ 0 ∷ 0 ∷ 0 ∷ 0 ∷ []

-- ::ffff:0:0/96
abbrev pub mapped_prefix : List ℕ
mapped_prefix = 0 ∷ 0 ∷ 0 ∷ 0 ∷ 0 ∷ 0 ∷ 0 ∷ 0 ∷ 0 ∷ 0 ∷ 255 ∷ 255 ∷ []

-- `Unmap`, which keeps the zone of an address that it leaves
unfoldable pub unmap : Addr → Addr
unfolding has_prefix addr_from4
unmap invalid = invalid
unmap (v4 a b c d) = v4 a b c d
unmap (v6 bs z) = if has_prefix bs mapped_prefix then addr_from4 (drop 12 bs) else v6 bs z

-- `WithZone("")`
abbrev pub without_zone : Addr → Addr
without_zone (v6 bs z) = v6 bs []
without_zone ip = ip

-- `IsPrivate`: 10.0.0.0/8, 172.16.0.0/12, 192.168.0.0/16, and fc00::/7
unfoldable pub is_private : Addr → Bool
is_private invalid = false
is_private (v4 a b c d) = a == 10 || (a == 172 && b / 16 == 1) || (a == 192 && b == 168)
is_private (v6 [] z) = false
is_private (v6 (x ∷ bs) z) = x / 2 == 126

-- `IsLoopback`: 127.0.0.0/8 and ::1, with any zone
unfoldable pub is_loopback : Addr → Bool
unfolding str_eq
is_loopback invalid = false
is_loopback (v4 a b c d) = a == 127
is_loopback (v6 bs z) = str_eq bs (zeros10 ++ 0 ∷ 0 ∷ 0 ∷ 0 ∷ 0 ∷ 1 ∷ [])

-- `IsUnspecified`: 0.0.0.0 and ::, which has no zone
unfoldable pub is_unspecified : Addr → Bool
unfolding str_eq
is_unspecified invalid = false
is_unspecified (v4 a b c d) = a == 0 && b == 0 && c == 0 && d == 0
is_unspecified (v6 bs z) = str_eq bs (zeros10 ++ 0 ∷ 0 ∷ 0 ∷ 0 ∷ 0 ∷ 0 ∷ []) && str_eq z []

-- `IsLinkLocalUnicast`: 169.254.0.0/16 and fe80::/10
unfoldable pub is_link_local_unicast : Addr → Bool
is_link_local_unicast invalid = false
is_link_local_unicast (v4 a b c d) = a == 169 && b == 254
is_link_local_unicast (v6 (x ∷ y ∷ bs) z) = x == 254 && y / 64 == 2
is_link_local_unicast (v6 _ z) = false

-- `IsLinkLocalMulticast`: 224.0.0.0/24 and ff02::/16 with any flags
unfoldable pub is_link_local_multicast : Addr → Bool
is_link_local_multicast invalid = false
is_link_local_multicast (v4 a b c d) = a == 224 && b == 0 && c == 0
is_link_local_multicast (v6 (x ∷ y ∷ bs) z) = x == 255 && y % 16 == 2
is_link_local_multicast (v6 _ z) = false

-- `IsInterfaceLocalMulticast`: ff01::/16 with any flags
unfoldable pub is_interface_local_multicast : Addr → Bool
is_interface_local_multicast (v6 (x ∷ y ∷ bs) z) = x == 255 && y % 16 == 1
is_interface_local_multicast _ = false

abbrev pub is6 : Addr → Bool
is6 (v6 _ _) = true
is6 _ = false
