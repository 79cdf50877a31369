-- ===== src/ShortCode/Alphabet.antt =====
-- The codes that `generate` makes: their characters and their length.
use Prim.Native.Nat.{bit_and}
use Prim.Native.String.{count}
use text.Mathlib.TextLemmas.{length-append}
use dist_link.Base.{
  ℕ, zero, suc, ◌+◌, ◌<◌, ◌≤◌, ◌≡◌, refl, Bool, true, false, List, [], ◌∷◌, All, length, arith, eqb,
  if◌then◌else◌,
}
use dist_link.ShortCode.{alphabet, mask, letter, generate}

-- A test of the numbers up to a bound, the bound included.
passes : (test : ℕ → Bool) (bound : ℕ) → Bool
passes test zero = test 0
passes test (suc bound) = if test (suc bound) then passes test bound else false

passes-each : (test : ℕ → Bool) (bound i : ℕ) → i ≤ bound → passes test bound ≡ true → test i ≡ true
unfolding passes
passes-each test zero zero inside all = all
passes-each test zero (suc i) inside all = absurd (omega arith)
passes-each test (suc bound) i inside all = ground (arith, passes-each test bound i)

-- How many of the bytes select no character: those whose low six bits are all set.
abbrev pub blanks : List ℕ → ℕ
blanks [] = 0
blanks (b ∷ bytes) = (if eqb (bit_and b mask) 63 then 1 else 0) + blanks bytes

letter_size : ℕ → Bool
letter_size b =
    eqb (count (letter alphabet (bit_and b mask))) (if eqb (bit_and b mask) 63 then 0 else 1)

letter_table : passes letter_size 255 ≡ true
unfolding passes letter_size letter
letter_table = refl

count-letter :
    (b : ℕ)
    → b < 256
    → count (letter alphabet (bit_and b mask)) + (if eqb (bit_and b mask) 63 then 1 else 0) ≡ 1
unfolding letter_size
count-letter b h = let t = passes-each letter_size 255 b (omega arith) letter_table in ground arith

-- A code has one character for each random byte, but for the bytes whose low six bits are all set:
-- the alphabet has 63 characters and the mask selects among 64 positions.
pub count-generate :
    (bytes : List ℕ)
    → All (λ b. b < 256) bytes
    → count (generate bytes) + blanks bytes ≡ length bytes
unfolding generate
count-generate [] h = refl
count-generate (b ∷ bytes) h = omega (
  arith,
  count-letter b h.0,
  count-generate bytes h.1,
  length-append (letter alphabet (bit_and b mask)) (generate bytes),
)
