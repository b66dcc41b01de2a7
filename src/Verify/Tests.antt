-- ===== src/Verify/Tests.antt =====
-- One finding, confirmed by both passes.
use cynative.Base.{
  ℕ, ◌+◌, ◌≡◌, ◌≢◌, ◌<◌, refl, ◌↔◌, false, some, List, [], ◌∷◌, Str, codes, contains, to_lower,
  trim_space, equal_fold, length, ok,
}
use cynative.Verify.Walk.{
  Token, open_object, close_object, text, eof, clean, duplicate, panics, ensure_no_duplicate_keys,
}
use cynative.Verify.Documents.{
  Items, item, end, object, member, word, done, emit_items, HasNoRepeatItems,
}
use cynative.Verify.Keys.{ensure_no_duplicate_keys_iff}
use cynative.Verify.Verdicts.{VerdictEntry, verified, verdict_confirmed}
use cynative.Verify.Decode.{reads, ends}
use cynative.Verify.Pass.{World}
use cynative.Verify.Passes.{Chance, FindingArg, Report, outcomes, stop_normal, replied, run_scoped}
use cynative.Verify.Confirmed.{Confirms, IsNestedWorld}
use cynative.Verify.Reported.{Reports, IsAccepted, run_scoped-verified_iff}

-- {"f1":{"verdict":"confirmed"}}
abbrev reply_items : Items
reply_items =
    item
      (object (
        member (codes "f1") (object (member (codes "verdict") (word (codes "confirmed")) done))
          done))
      end

-- {"verdict":"refuted","VERDICT":"confirmed"}
abbrev steered_items : Items
steered_items =
    item
      (object (
        member (codes "verdict") (word (codes "refuted"))
          (member (codes "VERDICT") (word (codes "confirmed")) done)))
      end

steered : ensure_no_duplicate_keys to_lower (emit_items steered_items []) eof ≡ duplicate
unfolding ensure_no_duplicate_keys emit_items to_lower contains
steered = refl

abbrev confirmed : VerdictEntry
confirmed = record { verdict = verdict_confirmed; justification = [] }

abbrev reply_tokens : List Token
reply_tokens =
    open_object
    ∷ text (codes "f1")
    ∷ open_object
    ∷ text (codes "verdict")
    ∷ text (codes "confirmed")
    ∷ close_object
    ∷ close_object
    ∷ []

abbrev one_digit : ℕ → Str
one_digit n = (n + b'0') ∷ []

abbrev one_reply : World
one_reply = record {
  lower = to_lower;
  trim_space = trim_space;
  equal_fold = equal_fold;
  decimal = one_digit;
  show = λ t. [];
  tokens = λ s. (reply_tokens, eof);
  answers = λ s. record {
    first = reads open_object;
    members = (reads (text (codes "f1")), ok confirmed) ∷ [];
    closing = reads close_object;
    trailing = ends;
  };
}

one_reply-IsNestedWorld : IsNestedWorld one_reply
one_reply-IsNestedWorld s = tt

abbrev quiet : Chance
quiet = record {
  interrupted = false;
  budget_exceeded = false;
  reply = replied (some (codes "{}")) stop_normal;
}

abbrev one_finding : List FindingArg
one_finding = record { title = codes "open"; claim = codes "public"; evidence = codes "{}" } ∷ []

one_verified :
    run_scoped one_reply 0 (some one_finding) quiet quiet false ≡ some (outcomes (verified ∷ []))
unfolding run_scoped to_lower contains
one_verified = refl

ensure_no_duplicate_keys_iff_example :
    ((ensure_no_duplicate_keys to_lower (emit_items reply_items []) eof ≡ clean)
      ↔ (HasNoRepeatItems to_lower reply_items × (eof ≡ eof)))
    × ((ensure_no_duplicate_keys to_lower (emit_items reply_items []) eof ≡ duplicate)
        ↔ ¬ HasNoRepeatItems to_lower reply_items)
    × (ensure_no_duplicate_keys to_lower (emit_items reply_items []) eof ≢ panics)
ensure_no_duplicate_keys_iff_example = ensure_no_duplicate_keys_iff to_lower reply_items eof

run_scoped-verified_iff_example :
    (r : Report) × (run_scoped one_reply 0 (some one_finding) quiet quiet false ≡ some r)
    × ((i : ℕ)
        → i < length one_finding
        → Reports r i ↔ (
            IsAccepted 0 one_finding
            × (false ≡ false)
            × Confirms one_reply quiet (length one_finding) i
            × Confirms one_reply quiet (length one_finding) i))
run_scoped-verified_iff_example =
    run_scoped-verified_iff one_reply 0 one_finding quiet quiet false one_reply-IsNestedWorld
