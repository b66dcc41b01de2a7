-- ===== src/Agents/Name.antt =====
-- internal/agentcatalog/name.go: `ValidName`.
use cynative.Base.{
  ℕ, ◌-◌, Str, codes, Bool, true, false, ◌&&◌, ◌||◌, not, if◌then◌else◌, List, [], ◌∷◌, ◌==◌, leb,
  ltb, length, drop, all, str_eq, contains, starts_with, ends_with, Result, ok, err, ◌>>◌,
}

-- the messages under `ErrAgentName`
pub data NameError : Type 0 where
  empty_name too_long has_extension wrong_byte edge_hyphen windows_device : NameError

-- `maxNameLen`
abbrev pub max_name_len : ℕ
max_name_len = 64

-- `hasMDSuffix`
unfoldable pub has_md_suffix : Str → Bool
unfolding str_eq
has_md_suffix name =
    if ltb 3 (length name) then str_eq (drop (length name - 3) name) (codes ".md") else false

-- `isNameByte`
unfoldable pub is_name_byte : ℕ → Bool
is_name_byte b = (leb b'a' b && leb b b'z') || (leb b'0' b && leb b b'9') || b == b'-'

-- `isWindowsDevice`
abbrev pub windows_devices : List Str
windows_devices =
    codes "con"
    ∷ codes "prn"
    ∷ codes "aux"
    ∷ codes "nul"
    ∷ codes "com1"
    ∷ codes "com2"
    ∷ codes "com3"
    ∷ codes "com4"
    ∷ codes "com5"
    ∷ codes "com6"
    ∷ codes "com7"
    ∷ codes "com8"
    ∷ codes "com9"
    ∷ codes "lpt1"
    ∷ codes "lpt2"
    ∷ codes "lpt3"
    ∷ codes "lpt4"
    ∷ codes "lpt5"
    ∷ codes "lpt6"
    ∷ codes "lpt7"
    ∷ codes "lpt8"
    ∷ codes "lpt9"
    ∷ []

unfoldable pub is_windows_device : Str → Bool
unfolding contains
is_windows_device name = contains windows_devices name

-- a test that returns an error
unfoldable pub reject : Bool → NameError → Result NameError (Unit {0})
reject true e = err e
reject false e = ok tt

-- `ValidName`
unfoldable pub valid_name : Str → Result NameError (Unit {0})
unfolding reject str_eq has_md_suffix is_name_byte all starts_with ends_with is_windows_device
valid_name name = do
  reject (str_eq name []) empty_name
  reject (ltb max_name_len (length name)) too_long
  reject (has_md_suffix name) has_extension
  reject (not (all is_name_byte name)) wrong_byte
  reject (starts_with b'-' name || ends_with b'-' name) edge_hyphen
  reject (is_windows_device name) windows_device
