-- ===== src/Authreq/Unescape.antt =====
-- `url.PathUnescape` of Go's net/url, with the relation that says what a percent-encoding is.
use cynative.Base.{
  ℕ, ◌+◌, ◌-◌, ◌*◌, Str, ◌≡◌, refl, ap, true, false, ◌&&◌, if◌then◌else◌, [], ◌∷◌, Option, none,
  some, ◌==◌, leb,
}

-- the value of a hexadecimal digit
unfoldable pub hex_digit : ℕ → Option ℕ
hex_digit c =
    if leb b'0' c && leb c b'9'
    then some (c - b'0')
    else if leb b'a' c && leb c b'f'
    then some (c - b'a' + 10)
    else if leb b'A' c && leb c b'F'
    then some (c - b'A' + 10)
    else none

-- the byte of an escape
unfoldable pub hex_byte : ℕ → ℕ → Option ℕ
unfolding hex_digit
hex_byte h l = elim (hex_digit h) [
  | none ↦ none
  | some a ↦ elim (hex_digit l) [ none ↦ none | some b ↦ some (a * 16 + b) ]
]

abbrev pub cons_byte : ℕ → Option Str → Option Str
cons_byte c none = none
cons_byte c (some s) = some (c ∷ s)

abbrev pub cons_escape : Option ℕ → Option Str → Option Str
cons_escape none rest = none
cons_escape (some b) rest = cons_byte b rest

-- `url.PathUnescape`; `none` is its error
unfoldable pub path_unescape : Str → Option Str
unfolding hex_byte
path_unescape [] = some []
path_unescape (c ∷ []) = if c == b'%' then none else some (c ∷ [])
path_unescape (c ∷ h ∷ []) =
    let rest = path_unescape (h ∷ []) in if c == b'%' then none else cons_byte c rest
path_unescape (c ∷ h ∷ l ∷ s) =
    let escaped = path_unescape s in
    let plain = path_unescape (h ∷ l ∷ s) in
    if c == b'%' then cons_escape (hex_byte h l) escaped else cons_byte c plain

-- `e` spells `s`, each byte of it plain or as an escape.
pub data Encodes : Str → Str → Type 0 where
  end : Encodes [] []
  plain : {c : ℕ} {e s : Str} → (c == b'%') ≡ false → Encodes e s → Encodes (c ∷ e) (c ∷ s)
  escape :
      {c h l b : ℕ} {e s : Str}
      → (c == b'%') ≡ true
      → hex_byte h l ≡ some b
      → Encodes e s
      → Encodes (c ∷ h ∷ l ∷ e) (b ∷ s)

pub Encodes→path_unescape : {e s : Str} → Encodes e s → path_unescape e ≡ some s
unfolding path_unescape
Encodes→path_unescape end = refl
Encodes→path_unescape (plain {e = []} p d) = rw p (ap (cons_byte _) (Encodes→path_unescape d))
Encodes→path_unescape (plain {e = h ∷ []} p d) = rw p (ap (cons_byte _) (Encodes→path_unescape d))
Encodes→path_unescape (plain {e = h ∷ l ∷ e} p d) =
    rw p (ap (cons_byte _) (Encodes→path_unescape d))
Encodes→path_unescape (escape p q d) = simp (p, q) (ap (cons_byte _) (Encodes→path_unescape d))
