-- ===== src/Verify/Walk.antt =====
-- internal/agent/verify.go: the walk over a reply's tokens that refuses a repeated key. The tokens
-- are what `json.Decoder` yields for the reply, and `lower` is `strings.ToLower`.
use cynative.Base.{
  Bool, true, false, if◌then◌else◌, Option, none, some, List, [], ◌∷◌, Str, contains,
}

-- `json.Token`: the four delimiters, a string, or a number, a Boolean or null.
pub data Token : Type 0 where
  open_object close_object open_array close_array scalar : Token
  text : Str → Token

-- How the tokens end: `io.EOF`, or the text of another error.
pub data End : Type 0 where
  eof : End
  broken : Str → End

-- `objectFrame`
pub record Frame : Type 0 where
  pub seen : List Str
  pub expect_key : Bool

-- What the walk returns: nil, the decoder's error, or `errDuplicateJSONKey`. `panics` stands for a
-- slice out of its bounds.
pub data Verdict : Type 0 where
  clean duplicate panics : Verdict
  malformed : Str → Verdict

-- The innermost scope comes first. Of the frames only the innermost is ever written through.
abbrev pub Stack : Type 0
Stack = List (Option Frame)

unfoldable pub top_frame : Stack → Option Frame
top_frame [] = none
top_frame (f ∷ _) = f

-- `afterValue` on the top frame
unfoldable pub after_value : Stack → Stack
after_value (some f ∷ st) = some (record f { expect_key = true }) ∷ st
after_value st = st

abbrev pub fresh_frame : Frame
fresh_frame = record { seen = []; expect_key = true }

-- `stack[:len(stack)-1]`
unfoldable pub pop : Stack → Option Stack
pop [] = none
pop (_ ∷ st) = some st

-- `stepDelim`, or none where the slice expression panics; a token that is no delimiter is none of
-- its business
unfoldable pub step_delim : Stack → Token → Option Stack
unfolding after_value pop
step_delim st open_object = some (some fresh_frame ∷ after_value st)
step_delim st open_array = some (none ∷ after_value st)
step_delim st close_object = pop st
step_delim st close_array = pop st
step_delim st scalar = some st
step_delim st (text _) = some st

-- `key, _ := tok.(string)`
abbrev pub key_of : Token → Str
key_of (text s) = s
key_of _ = []

abbrev pub is_delim : Token → Bool
is_delim (text _) = false
is_delim scalar = false
is_delim _ = true

-- The stack after a key, or none for a key seen before.
abbrev pub take_key : Str → Frame → Stack → Option Stack
take_key key f st =
    if contains f.seen key
    then none
    else some (some (record { seen = key ∷ f.seen; expect_key = false }) ∷ st)

-- One token of the loop: where it returns, and where it goes on.
pub data StepResult : Type 0 where
  halts : Verdict → StepResult
  goes_on : Stack → StepResult

abbrev or_halt : Verdict → Option Stack → StepResult
or_halt v none = halts v
or_halt v (some st) = goes_on st

abbrev pub next_of : StepResult → (Stack → Verdict) → Verdict
next_of (halts v) k = v
next_of (goes_on st) k = k st

module _ (lower : Str → Str) where
  -- the part of the loop that sees no delimiter
  unfoldable pub step_value : Stack → Token → StepResult
  unfolding after_value
  step_value (some f ∷ st) t =
      if f.expect_key
      then or_halt duplicate (take_key (lower (key_of t)) f st)
      else goes_on (after_value (some f ∷ st))
  step_value st t = goes_on (after_value st)

  unfoldable pub step : Stack → Token → StepResult
  unfolding step_delim step_value
  step st t = if is_delim t then or_halt panics (step_delim st t) else step_value st t

  unfoldable pub walk : List Token → End → Stack → Verdict
  unfolding step
  walk [] eof st = clean
  walk [] (broken e) st = malformed e
  walk (t ∷ ts) e st = next_of (step st t) (walk ts e)

  -- `ensureNoDuplicateKeys`
  unfoldable pub ensure_no_duplicate_keys : List Token → End → Verdict
  unfolding walk
  ensure_no_duplicate_keys ts e = walk ts e []
