-- ===== src/Dial/Embedded.antt =====
-- An IPv4 address fares the same in every form that it can be written in.
use cynative.Base.{
  ℕ, ◌/◌, ◌≡◌, ◌≢◌, refl, ◌∙◌, ◌↔◌, inl, inr, Bool, true, false, ◌||◌, Str, List, [], ◌∷◌, ◌++◌,
  none, ok, Bool-cases, arith,
}
use cynative.Dial.Address.{Addr, v4, v6, mapped_prefix, is_private}
use cynative.Dial.Floor.{nat64_well_known, own_floor, is_internal_ip, authorize_addr}

-- The address a.b.c.d, as itself, mapped (::ffff:a.b.c.d), behind the well-known NAT64 prefix
-- (64:ff9b::a.b.c.d), and as a 6to4 site (2002:ab:cd::/48), these with any zone.
pub data Writes : Addr → ℕ → ℕ → ℕ → ℕ → Type 0 where
  plain : (a b c d : ℕ) → Writes (v4 a b c d) a b c d
  mapped : (a b c d : ℕ) (z : Str) → Writes (v6 (mapped_prefix ++ a ∷ b ∷ c ∷ d ∷ []) z) a b c d
  nat64 : (a b c d : ℕ) (z : Str) → Writes (v6 (nat64_well_known ++ a ∷ b ∷ c ∷ d ∷ []) z) a b c d
  site :
      (a b c d : ℕ) (rest : List ℕ) (z : Str)
      → Writes (v6 (32 ∷ 2 ∷ a ∷ b ∷ c ∷ d ∷ rest) z) a b c d

plain_or : (x p : Bool) → ((x || false) || p) ≡ (x || p)
plain_or true p = refl
plain_or false p = refl

carried_or : (x p : Bool) → (((x || false) || (x || p)) || false) ≡ (x || p)
carried_or true p = refl
carried_or false true = refl
carried_or false false = refl

-- what the tests say of a.b.c.d
abbrev internal4 : ℕ → ℕ → ℕ → ℕ → Bool
internal4 a b c d = own_floor (v4 a b c d) || is_private (v4 a b c d)

is_internal_ip-Writes :
    {ip : Addr} {a b c d : ℕ} → Writes ip a b c d → is_internal_ip ip ≡ internal4 a b c d
unfolding is_internal_ip
is_internal_ip-Writes (plain a b c d) = plain_or (own_floor (v4 a b c d)) (is_private (v4 a b c d))
is_internal_ip-Writes (mapped a b c d z) =
    plain_or (own_floor (v4 a b c d)) (is_private (v4 a b c d))
is_internal_ip-Writes (nat64 a b c d z) =
    carried_or (own_floor (v4 a b c d)) (is_private (v4 a b c d))
is_internal_ip-Writes (site a b c d rest z) =
    carried_or (own_floor (v4 a b c d)) (is_private (v4 a b c d))

-- outside 10.0.0.0/8, 172.16.0.0/12, 192.168.0.0/16, 127.0.0.0/8, 169.254.0.0/16 and 224.0.0.0/24
abbrev IsOutsideRanges : ℕ → ℕ → ℕ → Type 0
IsOutsideRanges a b c =
    a ≢ 10
    × ¬ (a ≡ 172 × b / 16 ≡ 1)
    × ¬ (a ≡ 192 × b ≡ 168)
    × a ≢ 127
    × ¬ (a ≡ 169 × b ≡ 254)
    × ¬ (a ≡ 224 × b ≡ 0 × c ≡ 0)

-- and none of 0.0.0.0, 168.63.129.16 and 100.100.100.200. This is less than being a public address:
-- shared address space (100.64.0.0/10), the rest of multicast and 240.0.0.0/4 are not internal.
abbrev pub IsNotInternal : ℕ → ℕ → ℕ → ℕ → Type 0
IsNotInternal a b c d =
    IsOutsideRanges a b c
    × ¬ (a ≡ 0 × b ≡ 0 × c ≡ 0 × d ≡ 0)
    × ¬ (a ≡ 168 × b ≡ 63 × c ≡ 129 × d ≡ 16)
    × ¬ (a ≡ 100 × b ≡ 100 × c ≡ 100 × d ≡ 200)

internal4_iff : (a b c d : ℕ) → internal4 a b c d ≡ false ↔ IsNotInternal a b c d
unfolding own_floor
internal4_iff a b c d = ground arith

-- Under a provider with no rule of its own for addresses, `AuthorizeAddr` allows an IPv4 address
-- exactly when it lies outside 10.0.0.0/8, 172.16.0.0/12, 192.168.0.0/16, 127.0.0.0/8, 169.254.0.0/16
-- and 224.0.0.0/24 and is none of 0.0.0.0, 168.63.129.16 and 100.100.100.200, and it answers alike for
-- its four forms: plain, mapped into IPv6, behind the well-known NAT64 prefix, and as a 6to4 site.
pub authorize_addr-Writes_iff :
    {ip : Addr} {a b c d : ℕ}
    → Writes ip a b c d
    → (authorize_addr none ip ≡ ok tt) ↔ IsNotInternal a b c d
unfolding authorize_addr
authorize_addr-Writes_iff {ip = ip} {a = a} {b = b} {c = c} {d = d} w =
    elim (Bool-cases (internal4 a b c d)) [
      | inl y ↦
          let z : is_internal_ip ip ≡ true = is_internal_ip-Writes w ∙ y in
          (λ e. cc (rw z at e), λ p. cc ((internal4_iff a b c d).1 p, y))
      | inr n ↦
          let z : is_internal_ip ip ≡ false = is_internal_ip-Writes w ∙ n in
          (λ e. (internal4_iff a b c d).0 n, λ p. rw z)
    ]
