-- ===== src/ShortCode/Uniqueness.antt =====
-- A batch of codes has no repetition, whatever the order in which the tasks' answers arrive.
use dist_link.Base.{
  ℕ, zero, suc, String, ◌≡◌, refl, inl, inr, ap, ◌∙◌, Bool, true, false, ◌||◌, Option, none, some,
  List, [], ◌∷◌, has, length, arith, ◌==◌, eq_iff, Bool-cases, Option-cases,
}
use dist_link.ShortCode.{
  Batch, pending, start, finish, is_pending, deliver, run, resolved, generate_batch,
}

abbrev pub IsUnique : List String → Type 0
IsUnique [] = Unit
IsUnique (c ∷ cs) = (has cs c ≡ false) × IsUnique cs

-- The codes of the tasks that have returned.
abbrev occurs : List (Option String) → String → Bool
occurs [] c = false
occurs (none ∷ slots) c = occurs slots c
occurs (some d ∷ slots) c = d == c || occurs slots c

abbrev IsDistinct : List (Option String) → Type 0
IsDistinct [] = Unit
IsDistinct (none ∷ slots) = IsDistinct slots
IsDistinct (some d ∷ slots) = (occurs slots d ≡ false) × IsDistinct slots

occurs-finish :
    (slots : List (Option String)) (i : ℕ) (code c : String)
    → is_pending slots i ≡ true
    → occurs (finish slots i code) c ≡ (code == c || occurs slots c)
unfolding finish is_pending
occurs-finish [] i code c h = cc
occurs-finish (none ∷ slots) zero code c h = refl
occurs-finish (some d ∷ slots) zero code c h = cc
occurs-finish (none ∷ slots) (suc i) code c h = occurs-finish slots i code c h
occurs-finish (some d ∷ slots) (suc i) code c h = ground (arith, occurs-finish slots i code c h)

finish-IsDistinct :
    (slots : List (Option String)) (i : ℕ) (code : String)
    → is_pending slots i ≡ true
    → occurs slots code ≡ false
    → IsDistinct slots
    → IsDistinct (finish slots i code)
unfolding finish is_pending
finish-IsDistinct [] i code h new d = tt
finish-IsDistinct (none ∷ slots) zero code h new d = (new, d)
finish-IsDistinct (some e ∷ slots) zero code h new d = d
finish-IsDistinct (none ∷ slots) (suc i) code h new d = finish-IsDistinct slots i code h new d
finish-IsDistinct (some e ∷ slots) (suc i) code h new d = (
  ground (arith, d.0, occurs-finish slots i code e h, eq_iff code e, eq_iff e code),
  finish-IsDistinct slots i code h (ground arith) d.1,
)

length-finish :
    (slots : List (Option String)) (i : ℕ) (code : String)
    → length (finish slots i code) ≡ length slots
unfolding finish
length-finish [] i code = refl
length-finish (none ∷ slots) zero code = refl
length-finish (some d ∷ slots) zero code = refl
length-finish (none ∷ slots) (suc i) code = ap suc (length-finish slots i code)
length-finish (some d ∷ slots) (suc i) code = ap suc (length-finish slots i code)

-- The set holds exactly the codes that tasks have returned, and no two tasks share one.
pub record IsConsistent (n : ℕ) (b : Batch) : Type 0 where
  pub recorded : (c : String) → occurs b.slots c ≡ has b.generated c
  pub distinct : IsDistinct b.slots
  pub size : length b.slots ≡ n

deliver-IsConsistent :
    (n : ℕ) (b : Batch) (i : ℕ) (code : String)
    → IsConsistent n b
    → IsConsistent n (deliver b i code)
unfolding deliver
deliver-IsConsistent n b i code h = elim (Bool-cases (is_pending b.slots i)) [
  | inr idle ↦ rw idle h
  | inl waits ↦ elim (Bool-cases (has b.generated code)) [
    | inl taken ↦ rw (waits, taken) h
    | inr new ↦
        rw (waits, new)
          (record {
            recorded = λ c. ground (arith, occurs-finish b.slots i code c waits, h.recorded c);
            distinct = finish-IsDistinct b.slots i code waits (h.recorded code ∙ new) h.distinct;
            size = length-finish b.slots i code ∙ h.size;
          })
  ]
]

pub run-IsConsistent :
    (n : ℕ) (b : Batch) (schedule : List (ℕ × String))
    → IsConsistent n b
    → IsConsistent n (run b schedule)
unfolding run
run-IsConsistent n b [] h = h
run-IsConsistent n b ((i, code) ∷ schedule) h =
    run-IsConsistent n (deliver b i code) schedule (deliver-IsConsistent n b i code h)

occurs-pending : (n : ℕ) (c : String) → occurs (pending n) c ≡ false
occurs-pending zero c = refl
occurs-pending (suc n) c = occurs-pending n c

pending-IsDistinct : (n : ℕ) → IsDistinct (pending n)
pending-IsDistinct zero = tt
pending-IsDistinct (suc n) = pending-IsDistinct n

length-pending : (n : ℕ) → length (pending n) ≡ n
length-pending zero = refl
length-pending (suc n) = ap suc (length-pending n)

pub start-IsConsistent : (n : ℕ) → IsConsistent n (start n)
unfolding start
start-IsConsistent n = record {
  recorded = occurs-pending n;
  distinct = pending-IsDistinct n;
  size = length-pending n;
}

resolved_nil : (cs : List String) → resolved [] ≡ some cs → cs ≡ []
unfolding resolved
resolved_nil cs e = cc

resolved_cons :
    (c : String) (slots : List (Option String)) (cs : List String)
    → resolved (some c ∷ slots) ≡ some cs
    → (ds : List String) × (resolved slots ≡ some ds) × (cs ≡ c ∷ ds)
unfolding resolved
resolved_cons c slots cs e = elim (Option-cases (resolved slots)) [
  | inl stuck ↦ let bad : none ≡ some cs = rw (stuck, resolved) at e in cc
  | inr (ds, done) ↦ (ds, done, ground arith)
]

has-resolved :
    (slots : List (Option String)) (cs : List String) (c : String)
    → resolved slots ≡ some cs
    → has cs c ≡ occurs slots c
has-resolved [] cs c e = unfold resolved in ground arith
has-resolved (none ∷ slots) cs c e = unfold resolved in cc
has-resolved (some d ∷ slots) cs c e =
    let (ds, done, split) = resolved_cons d slots cs e in rw (split, has-resolved slots ds c done)

resolved-IsUnique :
    (slots : List (Option String)) (cs : List String)
    → resolved slots ≡ some cs
    → IsDistinct slots
    → IsUnique cs × (length cs ≡ length slots)
resolved-IsUnique [] cs e h = rw (resolved_nil cs e) (tt, refl)
resolved-IsUnique (none ∷ slots) cs e h = unfold resolved in cc
resolved-IsUnique (some d ∷ slots) cs e h =
    let (ds, done, split) = resolved_cons d slots cs e in
    let (unique, size) = resolved-IsUnique slots ds done h.1 in
    rw split ((has-resolved slots ds d done ∙ h.0, unique), ap suc size)

-- For every schedule of answers: when `generateBatch` returns, it returns as many codes as were
-- asked for, and no code twice.
pub generate_batch-IsUnique :
    (size : ℕ) (schedule : List (ℕ × String)) (cs : List String)
    → generate_batch size schedule ≡ some cs
    → IsUnique cs × (length cs ≡ size)
unfolding generate_batch
generate_batch-IsUnique size schedule cs e =
    let h = run-IsConsistent size (start size) schedule (start-IsConsistent size) in
    let (unique, same) = resolved-IsUnique _ cs e h.distinct in (unique, same ∙ h.size)
