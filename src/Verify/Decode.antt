-- ===== src/Verify/Decode.antt =====
-- internal/agent/verify.go: `decodeVerdictObject`. What `json.Decoder` answers is given.
use cynative.Base.{Option, none, some, List, [], ◌∷◌, Str, codes, Result, err, ok, ◌>>◌, ◌>>=◌}
use cynative.Verify.Walk.{Token, open_object, key_of}
use cynative.Verify.Verdicts.{VerdictEntry, Entries, lookup}

-- What one call of `dec.Token` answers: a token, the end of the input, or an error.
pub data Reading : Type 0 where
  reads : Token → Reading
  ends : Reading
  fails : Str → Reading

-- What the decoder answers to `decodeVerdictObject`: its first token; a key token and a decoded entry
-- for each time `dec.More` holds; and the two tokens after these.
pub record Answers : Type 0 where
  pub first : Reading
  pub members : List (Reading × Result Str VerdictEntry)
  pub closing : Reading
  pub trailing : Reading

pub data DecodeError : Type 0 where
  decoder_error : Str → DecodeError
  not_an_object : Token → DecodeError
  duplicate_finding_id trailing_content : DecodeError

-- `_, err := dec.Token()`
abbrev pub read_token : Reading → Result DecodeError Token
read_token (reads t) = ok t
read_token ends = err (decoder_error (codes "EOF"))
read_token (fails e) = err (decoder_error e)

abbrev must_open : Token → Result DecodeError (Unit {0})
must_open open_object = ok tt
must_open t = err (not_an_object t)

abbrev must_end : Reading → Entries → Result DecodeError Entries
must_end ends m = ok m
must_end _ m = err trailing_content

abbrev decode_entry : Result Str VerdictEntry → Result DecodeError VerdictEntry
decode_entry (ok v) = ok v
decode_entry (err e) = err (decoder_error e)

abbrev must_be_new : Option VerdictEntry → Result DecodeError (Unit {0})
must_be_new none = ok tt
must_be_new (some _) = err duplicate_finding_id

-- the loop of `decodeVerdictObject`
unfoldable pub decode_members :
    List (Reading × Result Str VerdictEntry) → Entries → Result DecodeError Entries
unfolding lookup
decode_members [] m = ok m
decode_members (a ∷ rest) m = read_token a.0 >>= λ t.
    must_be_new (lookup m (key_of t)) >> decode_entry a.1 >>= λ v.
    decode_members rest ((key_of t, v) ∷ m)

unfoldable pub decode_verdict_object : Answers → Result DecodeError Entries
unfolding decode_members
decode_verdict_object a = read_token a.first >>= λ t.
    must_open t >> decode_members a.members [] >>= λ m.
    read_token a.closing >>= λ _. must_end a.trailing m
