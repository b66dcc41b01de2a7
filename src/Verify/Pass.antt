-- ===== src/Verify/Pass.antt =====
-- internal/agent/verify.go: one pass from the model's reply to a verdict per finding, and the two
-- passes of a call. `strings.ToLower`, `fmt.Sprintf` and what `json.Decoder` answers are given.
use cynative.Base.{
  ℕ, zero, suc, ◌+◌, ◌-◌, Bool, ◌&&◌, ◌||◌, if◌then◌else◌, Option, none, some, List, [], ◌∷◌, ◌++◌,
  ◌==◌, leb, Str, codes, str_eq, contains, any, length, drop, Result, err, ok, has_prefix,
  trim_suffix, cut_before, cut_after,
}
use cynative.Verify.Walk.{
  Token, End, Verdict, clean, duplicate, malformed, panics, ensure_no_duplicate_keys,
}
use cynative.Verify.Verdicts.{
  VerdictEntry, Entries, lookup, insufficient, degraded_pass, known_verdict,
}
use cynative.Verify.Decode.{
  Answers, DecodeError, decoder_error, not_an_object, duplicate_finding_id, trailing_content,
  decode_verdict_object,
}

-- What the packages outside the repository answer: `strings.ToLower`, `TrimSpace` and `EqualFold`, the
-- `%d` and the `%v` of `fmt`, and the decoder on a text, read twice.
pub record World : Type 0 where
  pub lower : Str → Str
  pub trim_space : Str → Str
  pub equal_fold : Str → Str → Bool
  pub decimal : ℕ → Str
  pub show : Token → Str
  pub tokens : Str → List Token × End
  pub answers : Str → Answers

abbrev fence : Str
fence = codes "```"

-- `strings.HasSuffix(s, suffix)`
unfoldable has_suffix : Str → Str → Bool
unfolding str_eq
has_suffix s suffix =
    leb (length suffix) (length s) && str_eq (drop (length s - length suffix) s) suffix

-- the tests of the opening line in `stripCodeFence`
abbrev drop_info : World → Str → Str
drop_info w inner =
    if any (λ c. c == b'\n') inner
    then (let lang = w.trim_space (cut_before b'\n' inner) in
        if str_eq lang [] || w.equal_fold lang (codes "json") then cut_after b'\n' inner else inner)
    else inner

unfoldable pub strip_code_fence : World → Str → Str
unfolding has_prefix has_suffix trim_suffix any str_eq cut_before cut_after
strip_code_fence w s =
    if has_prefix s fence && has_suffix s fence && leb 6 (length s)
    then w.trim_space (drop_info w (trim_suffix (drop 3 s) fence))
    else s

abbrev pub decode_text : World → DecodeError → Str
decode_text w (decoder_error e) = e
decode_text w (not_an_object t) = codes "expected a JSON object, got " ++ w.show t
decode_text w duplicate_finding_id = codes "verification response repeated a finding ID"
decode_text w trailing_content = codes "trailing content after the JSON object"

-- `findingID`
unfoldable pub finding_id : World → ℕ → Str
finding_id w i = codes "f" ++ w.decimal (i + 1)

-- the IDs of the findings from `i` on
unfoldable pub ids_from : World → ℕ → ℕ → List Str
unfolding finding_id
ids_from w i zero = []
ids_from w i (suc n) = finding_id w i ∷ ids_from w (i + 1) n

-- The first key that is no finding's. Go takes the keys in no fixed order.
unfoldable pub unexpected : List Str → Entries → Option Str
unfolding contains
unexpected expected [] = none
unexpected expected (kv ∷ m) =
    let rest = unexpected expected m in if contains expected kv.0 then rest else some kv.0

-- the body of the last loop of `parsePass`
unfoldable pub entry_of : Option VerdictEntry → VerdictEntry
unfolding known_verdict
entry_of none = insufficient (codes "verdict missing for this finding")
entry_of (some v) =
    if known_verdict v.verdict
    then v
    else insufficient (codes "unknown verdict; " ++ v.justification)

unfoldable pub entries_from : World → Entries → ℕ → ℕ → List VerdictEntry
unfolding entry_of lookup finding_id
entries_from w m i zero = []
entries_from w m i (suc n) = entry_of (lookup m (finding_id w i)) ∷ entries_from w m (i + 1) n

abbrev unparseable : ℕ → Str → List VerdictEntry
unparseable n e = degraded_pass n (codes "verification JSON unparseable: " ++ e)

abbrev pub with_expected : World → Entries → ℕ → Option Str → List VerdictEntry
with_expected w m n none = entries_from w m 0 n
with_expected w m n (some key) =
    degraded_pass n (codes "verification response carried an unexpected finding ID: " ++ key)

abbrev pub with_entries : World → ℕ → Result DecodeError Entries → List VerdictEntry
with_entries w n (err e) = unparseable n (decode_text w e)
with_entries w n (ok m) = with_expected w m n (unexpected (ids_from w 0 n) m)

-- `none` where the walk over the tokens panics
abbrev pub with_walk : World → Str → ℕ → Verdict → Option (List VerdictEntry)
with_walk w s n clean = some (with_entries w n (decode_verdict_object (w.answers s)))
with_walk w s n duplicate = some (unparseable n (codes "verification response repeated a JSON key"))
with_walk w s n (malformed e) = some (unparseable n e)
with_walk w s n panics = none

-- `parsePass`
unfoldable pub parse_pass : World → Str → ℕ → Option (List VerdictEntry)
unfolding ensure_no_duplicate_keys decode_verdict_object unexpected ids_from entries_from
    degraded_pass
parse_pass w raw n =
    let s = strip_code_fence w (w.trim_space raw) in
    let t = w.tokens s in with_walk w s n (ensure_no_duplicate_keys w.lower t.0 t.1)
