-- ===== src/ShortCode.antt =====
-- utils/short-code.generator.ts: `ShortCodeGenerator.generate` and `generateBatch`.
-- The bytes of `randomBytes` are an argument. The tasks of a batch run interleaved: a schedule says
-- which task's `await this.generate()` comes back next, and with which code.
pub mod Alphabet
pub mod Completion
pub mod Uniqueness
use Prim.Native.Nat.{bit_and}
use Prim.Native.String
use dist_link.Base.{
  ℕ, zero, suc, String, Bool, true, false, not, ◌&&◌, Option, none, some, List, [], ◌∷◌, has,
  length, if◌then◌else◌,
}

abbrev pub alphabet : String
alphabet = "abcdefghijklmnopqrstuvwxyzABCDEFGHIJKLMNOPQRSTUVWXYZ-0123456789"

abbrev pub code_length : ℕ
code_length = 6

abbrev pub mask : ℕ
mask = 0x3f

-- `alphabet[index]`, as `join('')` prints it: `undefined` out of range prints as nothing.
unfoldable pub letter : String → ℕ → String
letter String.[] i = String.[]
letter (String.◌∷◌ c s) zero = String.◌∷◌ c String.[]
letter (String.◌∷◌ c s) (suc i) = letter s i

-- The loop over the bytes and the final `join`.
unfoldable pub generate : List ℕ → String
unfolding letter
generate [] = String.[]
generate (b ∷ bytes) = String.◌++◌ (letter alphabet (bit_and b mask)) (generate bytes)

-- `generatedCodes`, and the promise of each task: `none` while it is pending.
pub record Batch : Type 0 where
  pub generated : List String
  pub slots : List (Option String)

abbrev pub pending : ℕ → List (Option String)
pending zero = []
pending (suc n) = none ∷ pending n

unfoldable pub start : ℕ → Batch
start size = record { generated = []; slots = pending size }

-- Task `i` returns `code`; a task that has returned, or is not there, returns nothing more.
unfoldable pub finish : List (Option String) → ℕ → String → List (Option String)
finish [] i code = []
finish (none ∷ slots) zero code = some code ∷ slots
finish (some c ∷ slots) zero code = some c ∷ slots
finish (s ∷ slots) (suc i) code = s ∷ finish slots i code

unfoldable pub is_pending : List (Option String) → ℕ → Bool
is_pending [] i = false
is_pending (none ∷ slots) zero = true
is_pending (some c ∷ slots) zero = false
is_pending (s ∷ slots) (suc i) = is_pending slots i

-- One answer to an `await this.generate()`: a code that is taken sends the task round the loop.
unfoldable pub deliver : Batch → ℕ → String → Batch
unfolding finish is_pending
deliver b i code =
    if is_pending b.slots i && not (has b.generated code)
    then record { generated = code ∷ b.generated; slots = finish b.slots i code }
    else b

unfoldable pub run : Batch → List (ℕ × String) → Batch
unfolding deliver
run b [] = b
run b ((i, code) ∷ schedule) = run (deliver b i code) schedule

-- What `Promise.all` resolves to, once no task is pending.
unfoldable pub resolved : List (Option String) → Option (List String)
resolved [] = some []
resolved (none ∷ slots) = none
resolved (some c ∷ slots) = elim (resolved slots) [ none ↦ none | some cs ↦ some (c ∷ cs) ]

unfoldable pub generate_batch : ℕ → List (ℕ × String) → Option (List String)
unfolding start run resolved
generate_batch size schedule = resolved (run (start size) schedule).slots
