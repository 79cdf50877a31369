-- ===== src/ShortCode/Completion.antt =====
-- A batch of codes is completed by one answer to each of its tasks.
use dist_link.Base.{
  ℕ, zero, suc, ◌+◌, ◌≤◌, ◌<◌, String, ◌≡◌, refl, inl, inr, ap, ◌∙◌, false, Option, none, some,
  List, [], ◌∷◌, ◌++◌, has, length, All, arith, ◌==◌, eq_iff, eqb, leb, sym, Bool-cases,
}
use dist_link.ShortCode.{Batch, start, finish, is_pending, deliver, run, resolved, generate_batch}
use dist_link.ShortCode.Uniqueness.{IsUnique, run-IsConsistent, start-IsConsistent}

-- One answer to each task from `i` on.
abbrev pub answers : ℕ → List String → List (ℕ × String)
answers i [] = []
answers i (c ∷ codes) = (i, c) ∷ answers (suc i) codes

abbrev pub IsFresh : List String → String → Type 0
IsFresh generated c = has generated c ≡ false

finish-done :
    (slots : List (Option String)) (i : ℕ) (code : String)
    → is_pending (finish slots i code) i ≡ false
unfolding finish is_pending
finish-done [] i code = refl
finish-done (none ∷ slots) zero code = refl
finish-done (some c ∷ slots) zero code = refl
finish-done (none ∷ slots) (suc i) code = finish-done slots i code
finish-done (some c ∷ slots) (suc i) code = finish-done slots i code

finish-keeps :
    (slots : List (Option String)) (i j : ℕ) (code : String)
    → is_pending slots j ≡ false
    → is_pending (finish slots i code) j ≡ false
unfolding finish is_pending
finish-keeps [] i j code h = refl
finish-keeps (none ∷ slots) i zero code h = cc
finish-keeps (some c ∷ slots) zero j code h = h
finish-keeps (some c ∷ slots) (suc i) zero code h = refl
finish-keeps (none ∷ slots) zero (suc j) code h = h
finish-keeps (none ∷ slots) (suc i) (suc j) code h = finish-keeps slots i j code h
finish-keeps (some c ∷ slots) (suc i) (suc j) code h = finish-keeps slots i j code h

deliver-keeps :
    (b : Batch) (i j : ℕ) (code : String)
    → is_pending b.slots j ≡ false
    → is_pending (deliver b i code).slots j ≡ false
unfolding deliver
deliver-keeps b i j code h = ground (arith, finish-keeps b.slots i j code h)

deliver-done :
    (b : Batch) (i : ℕ) (code : String)
    → IsFresh b.generated code
    → is_pending (deliver b i code).slots i ≡ false
unfolding deliver
deliver-done b i code fresh = ground (arith, finish-done b.slots i code)

deliver-IsFresh :
    (b : Batch) (i : ℕ) (code c : String)
    → (code == c) ≡ false
    → IsFresh b.generated c
    → IsFresh (deliver b i code).generated c
unfolding deliver
deliver-IsFresh b i code c other fresh = ground arith

run-keeps :
    (b : Batch) (schedule : List (ℕ × String)) (j : ℕ)
    → is_pending b.slots j ≡ false
    → is_pending (run b schedule).slots j ≡ false
unfolding run
run-keeps b [] j h = h
run-keeps b ((i, code) ∷ schedule) j h =
    run-keeps (deliver b i code) schedule j (deliver-keeps b i j code h)

run-append : (b : Batch) (xs ys : List (ℕ × String)) → run b (xs ++ ys) ≡ run (run b xs) ys
unfolding run
run-append b [] ys = refl
run-append b ((i, code) ∷ xs) ys = run-append (deliver b i code) xs ys

deliver-AllFresh :
    (b : Batch) (i : ℕ) (code : String) (codes : List String)
    → has codes code ≡ false
    → All (IsFresh b.generated) codes
    → All (IsFresh (deliver b i code).generated) codes
deliver-AllFresh b i code [] new h = tt
deliver-AllFresh b i code (c ∷ codes) new h = (
  deliver-IsFresh b i code c (ground (arith, eq_iff c code, eq_iff code c)) h.0,
  deliver-AllFresh b i code codes (ground arith) h.1,
)

-- Each task that gets an answer is done.
run-answers :
    (b : Batch) (i : ℕ) (codes : List String) (j : ℕ)
    → IsUnique codes
    → All (IsFresh b.generated) codes
    → i ≤ j
    → j < i + length codes
    → is_pending (run b (answers i codes)).slots j ≡ false
unfolding run
run-answers b i [] j unique fresh low high = absurd (omega arith)
run-answers b i (c ∷ codes) j unique fresh low high = elim (Bool-cases (eqb i j)) [
  | inl same ↦
      let here : i ≡ j = ground arith in
      run-keeps (deliver b i c) (answers (suc i) codes) j
        (ap (is_pending (deliver b i c).slots) (sym here) ∙ deliver-done b i c fresh.0)
  | inr other ↦
      run-answers (deliver b i c) (suc i) codes j unique.1
        (deliver-AllFresh b i c codes unique.0 fresh.1) (ground arith) (omega arith)
]

resolved-done :
    (slots : List (Option String))
    → ((j : ℕ) → is_pending slots j ≡ false)
    → (cs : List String) × (resolved slots ≡ some cs)
unfolding is_pending resolved
resolved-done [] h = ([], refl)
resolved-done (none ∷ slots) h = let bad = h zero in cc
resolved-done (some c ∷ slots) h =
    let (cs, done) = resolved-done slots (λ j. h (suc j)) in (c ∷ cs, ground arith)

is_pending-end :
    (slots : List (Option String)) (j : ℕ) → length slots ≤ j → is_pending slots j ≡ false
unfolding is_pending
is_pending-end [] j h = refl
is_pending-end (s ∷ slots) zero h = absurd (omega arith)
is_pending-end (none ∷ slots) (suc j) h = is_pending-end slots j (omega arith)
is_pending-end (some c ∷ slots) (suc j) h = is_pending-end slots j (omega arith)

-- However the tasks of a batch have run so far, the batch resolves once each task gets one more
-- answer, if these answers differ from each other and from the codes that are taken.
pub generate_batch_completes :
    (size : ℕ) (schedule : List (ℕ × String)) (codes : List String)
    → length codes ≡ size
    → IsUnique codes
    → All (IsFresh (run (start size) schedule).generated) codes
    → (cs : List String) × (generate_batch size (schedule ++ answers 0 codes) ≡ some cs)
unfolding generate_batch
generate_batch_completes size schedule codes count unique fresh =
    let b = run (start size) schedule in
    let h =
      run-IsConsistent size b (answers 0 codes)
        (run-IsConsistent size (start size) schedule (start-IsConsistent size)) in
    rw run-append (
      resolved-done (run b (answers 0 codes)).slots (λ j. elim (Bool-cases (leb size j)) [
        | inl past ↦ is_pending-end (run b (answers 0 codes)).slots j (rw h.size (ground arith))
        | inr inside ↦ run-answers b 0 codes j unique fresh (omega arith) (ground arith)
      ]))
