-- ===== src/Audit/Files.antt =====
-- The active file under the writer: the records that `Log` stamps, and the rotations by age and by
-- size. The logger may start a new file whenever it is told to write, and so it may when a rotation
-- fails: what it does is given, write by write.
use cynative.Base.{
  List, [], ◌∷◌, ◌++◌, ℕ, ◌+◌, ◌≤◌, ◌<◌, ◌≡◌, refl, Bool, true, false, if◌then◌else◌, Option, none,
  some, ok, All, All-append, leb, Bool-cases, inl, inr, arith,
}
use cynative.Audit.{is_positive, rotate_due_by_age, Answers, write_inner, write}

-- One record: when `Log` stamps it, what the clock and the logger answer to the writer, whether the
-- logger's `Write` starts a new file first, and whether its `Rotate` moves the file away if it fails.
pub record Call : Type 0 where
  pub stamp : ℕ
  pub answers : Answers
  pub starts_anew : Bool
  pub moves_away : Bool

-- The times of the records in the active file, after the logger's `Write`.
unfoldable pub appended : Call → List ℕ → List ℕ
appended c file =
    let kept = if c.starts_anew then [] else file in
    if c.answers.writes then kept ++ c.stamp ∷ [] else kept

-- And after the writer's.
unfoldable pub active_file : ℕ → Option ℕ → Call → List ℕ → List ℕ
unfolding appended rotate_due_by_age
active_file retention oldest c file =
    if rotate_due_by_age oldest c.answers.now retention
    then (if c.answers.rotates then appended c [] else (if c.moves_away then [] else file))
    else appended c file

-- The clock does not go back, and the record is written `slack` after its stamp at the latest.
abbrev pub IsTimely : ℕ → ℕ → Call → Type 0
IsTimely slack clock c =
    (clock ≤ c.stamp)
    × (c.stamp ≤ c.answers.now)
    × (c.answers.now ≤ c.answers.then_now)
    × (c.answers.then_now ≤ c.stamp + slack)

-- What writes lead to, from a new file, or from one that is opened again and whose first record, the
-- oldest, gives the anchor: the time, the writer's `oldest` and the active file.
pub data History (retention slack : ℕ) : ℕ → Option ℕ → List ℕ → Type 0 where
  opened : (clock : ℕ) → History retention slack clock none []
  reopened :
      (clock t : ℕ) (file : List ℕ)
      → t ≤ clock
      → All (λ x. t ≤ x) file
      → History retention slack clock (some t) (t ∷ file)
  wrote :
      {clock : ℕ} {oldest : Option ℕ} {file : List ℕ}
      → History retention slack clock oldest file
      → (c : Call) → IsTimely slack clock c
      → History retention slack c.answers.then_now
          (write retention oldest c.answers).1
          (active_file retention oldest c file)

-- No record was stamped more than `slack` before the anchor.
abbrev IsCovered : ℕ → ℕ → Option ℕ → List ℕ → Type 0
IsCovered slack clock none file = file ≡ []
IsCovered slack clock (some o) file = (o ≤ clock) × All (λ t. o ≤ t + slack) file

All-map : {P Q : ℕ → Type 0} (f : (t : ℕ) → P t → Q t) (file : List ℕ) → All P file → All Q file
All-map f [] h = tt
All-map f (t ∷ file) h = (f t h.0, All-map f file h.1)

All-if :
    (P : ℕ → Type 0) (b : Bool) (xs ys : List ℕ)
    → All P xs
    → All P ys
    → All P (if b then xs else ys)
All-if P true xs ys h k = h
All-if P false xs ys h k = k

-- Nothing is in the file but what was there, and the new record.
All-appended :
    (P : ℕ → Type 0) (c : Call) (file : List ℕ) → P c.stamp → All P file → All P (appended c file)
unfolding appended
All-appended P c file p h =
    let kept = All-if P c.starts_anew [] file tt h in
    All-if P c.answers.writes _ _ (All-append P _ (c.stamp ∷ []) kept (p, tt)) kept

appended-nil : (c : Call) → c.answers.writes ≡ false → appended c [] ≡ []
unfolding appended
appended-nil c e = ground (arith, e)

inner-IsCovered :
    (slack clock : ℕ) (oldest : Option ℕ) (c : Call) (file : List ℕ)
    → IsTimely slack clock c
    → IsCovered slack clock oldest file
    → IsCovered slack c.answers.then_now (write_inner oldest c.answers).1 (appended c file)
unfolding write_inner
inner-IsCovered slack clock none c file (p, q, r, s) h = elim (Bool-cases c.answers.writes) [
  | inl e ↦ simp (e, h) (omega arith, All-appended (λ t. c.answers.then_now ≤ t + slack) c [] s tt)
  | inr e ↦ simp (e, h) (appended-nil c e)
]
inner-IsCovered slack clock (some o) c file (p, q, r, s) (k, h) =
    let a : All (λ t. o ≤ t + slack) (appended c file) =
      All-appended (λ t. o ≤ t + slack) c file (omega (arith, p, k)) h in
    let l : o ≤ c.answers.then_now = omega (arith, k, p, q, r) in
    elim (Bool-cases c.answers.writes) [ inl e ↦ simp e (l, a) | inr e ↦ simp e (l, a) ]

-- A rotation that fails leaves the anchor, and the file or nothing.
failed-IsCovered :
    (slack clock later : ℕ) (oldest : Option ℕ) (b : Bool) (file : List ℕ)
    → clock ≤ later
    → IsCovered slack clock oldest file
    → IsCovered slack later oldest (if b then [] else file)
failed-IsCovered slack clock later none true file l h = refl
failed-IsCovered slack clock later none false file l h = h
failed-IsCovered slack clock later (some o) true file l h = (omega (arith, l, h.0), tt)
failed-IsCovered slack clock later (some o) false file l h = (omega (arith, l, h.0), h.1)

write-IsCovered :
    (retention slack clock : ℕ) (oldest : Option ℕ) (c : Call) (file : List ℕ)
    → IsTimely slack clock c
    → IsCovered slack clock oldest file
    → IsCovered slack c.answers.then_now
        (write retention oldest c.answers).1
        (active_file retention oldest c file)
unfolding write active_file
write-IsCovered retention slack clock oldest c file t h =
    elim (Bool-cases (rotate_due_by_age oldest c.answers.now retention)) [
      | inr e ↦ simp e (inner-IsCovered slack clock oldest c file t h)
      | inl e ↦ elim (Bool-cases c.answers.rotates) [
        | inl f ↦ simp (e, f) (inner-IsCovered slack clock none c [] t refl)
        | inr f ↦
            simp (e, f)
              (failed-IsCovered slack clock c.answers.then_now oldest c.moves_away file
                (omega (arith, t.0, t.1, t.2)) h)
      ]
    ]

History-IsCovered :
    {retention slack clock : ℕ} {oldest : Option ℕ} {file : List ℕ}
    → History retention slack clock oldest file
    → IsCovered slack clock oldest file
History-IsCovered (opened clock) = refl
History-IsCovered {slack = slack} (reopened clock t file h k) =
    (h, (omega arith, All-map (λ x l. omega (arith, l)) file k))
History-IsCovered {retention = retention} {slack = slack}
      (wrote {clock = clock} {oldest = oldest} {file = file} h c t) =
    write-IsCovered retention slack clock oldest c file t (History-IsCovered h)

-- Younger than the retention and the slack, at the test of the age.
abbrev pub IsYoung : ℕ → ℕ → Call → ℕ → Type 0
IsYoung retention slack c t = c.answers.now < t + slack + retention

positive_lem : (retention : ℕ) → is_positive retention ≡ true → 1 ≤ retention
unfolding is_positive
positive_lem retention p = ground arith

not_due :
    (retention o now : ℕ)
    → is_positive retention ≡ true
    → rotate_due_by_age (some o) now retention ≡ false
    → now < o + retention
unfolding rotate_due_by_age
not_due retention o now p e =
    let e' : leb (o + retention) now ≡ false = simp p at e in ground (arith, e')

kept-IsYoung :
    (retention slack clock : ℕ) (oldest : Option ℕ) (c : Call) (file : List ℕ)
    → is_positive retention ≡ true
    → rotate_due_by_age oldest c.answers.now retention ≡ false
    → IsCovered slack clock oldest file
    → All (IsYoung retention slack c) file
kept-IsYoung retention slack clock none c file p e h = rw h tt
kept-IsYoung retention slack clock (some o) c file p e h =
    let n = not_due retention o c.answers.now p e in All-map (λ t l. omega (arith, n, l)) file h.1

-- Let the clock not go back, every record be written `slack` after its stamp at the latest, and the
-- retention be positive. Then from a new file, or one that is opened again with the time of its first
-- and oldest record, whatever was written, rotated and failed before, and whenever the logger starts
-- a new file for its size: a write that succeeds leaves no record in the active file that was as old
-- as the retention and `slack` together when the writer tested the age.
pub write-IsYoung :
    (retention slack clock : ℕ) (oldest : Option ℕ) (file : List ℕ) (c : Call)
    → is_positive retention ≡ true
    → History retention slack clock oldest file
    → IsTimely slack clock c
    → (write retention oldest c.answers).0 ≡ ok tt
    → All (IsYoung retention slack c) (active_file retention oldest c file)
unfolding write active_file
write-IsYoung retention slack clock oldest file c p h t e =
    let k = History-IsCovered h in
    let y : IsYoung retention slack c c.stamp = omega (arith, positive_lem retention p, t.2, t.3) in
    elim (Bool-cases (rotate_due_by_age oldest c.answers.now retention)) [
      | inr d ↦ simp d (
          All-appended (IsYoung retention slack c) c file y
            (kept-IsYoung retention slack clock oldest c file p d k))
      | inl d ↦ elim (Bool-cases c.answers.rotates) [
        | inl f ↦ simp (d, f) (All-appended (IsYoung retention slack c) c [] y tt)
        | inr f ↦ cc (simp (d, f) at e)
      ]
    ]
