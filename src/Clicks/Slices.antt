-- ===== src/Clicks/Slices.antt =====
-- The slices that the dates of a range are read in.
use Prim.Native.Nat.{min}
use dist_link.Base.{
  ℕ, zero, suc, ◌+◌, ◌-◌, ◌≤◌, ◌<◌, ◌≡◌, refl, ap, ◌&&◌, List, [], ◌∷◌, length, take, drop, arith,
  leb, ltb, if◌then◌else◌,
}
use dist_link.Clicks.Ranges.{days_from, batch_size, slices, has_date}

-- How many of the slices have a date.
abbrev pub slices_with : ℕ → List (List ℕ) → ℕ
slices_with t [] = 0
slices_with t (dates ∷ rest) = (if has_date dates t then 1 else 0) + slices_with t rest

has_date-days_from :
    (start rounds t : ℕ)
    → has_date (days_from start rounds) t ≡ (leb start t && ltb t (start + rounds))
unfolding days_from
has_date-days_from start zero t = ground arith
has_date-days_from start (suc rounds) t = ground (arith, has_date-days_from (suc start) rounds t)

take-days_from :
    (n start rounds : ℕ) → take n (days_from start rounds) ≡ days_from start (min n rounds)
unfolding days_from
take-days_from zero start rounds = let e : min 0 rounds ≡ 0 = omega arith in rw e
take-days_from (suc n) start zero = let e : min (suc n) 0 ≡ 0 = omega arith in rw e
take-days_from (suc n) start (suc rounds) =
    let e : min (suc n) (suc rounds) ≡ suc (min n rounds) = omega arith in
    rw e (ap (λ (ds : List ℕ). start ∷ ds) (take-days_from n (suc start) rounds))

drop-days_from :
    (n start rounds : ℕ) → drop n (days_from start rounds) ≡ days_from (start + n) (rounds - n)
unfolding days_from
drop-days_from zero start rounds =
    let a : start + 0 ≡ start = omega arith in
    let b : rounds - 0 ≡ rounds = omega arith in rw (a, b)
drop-days_from (suc n) start zero = let b : 0 - suc n ≡ 0 = omega arith in rw b
drop-days_from (suc n) start (suc rounds) =
    let a : start + suc n ≡ suc start + n = omega arith in
    let b : suc rounds - suc n ≡ rounds - n = omega arith in
    rw (a, b) (drop-days_from n (suc start) rounds)

pub length-days_from : (start rounds : ℕ) → length (days_from start rounds) ≡ rounds
unfolding days_from
length-days_from start zero = refl
length-days_from start (suc rounds) = omega (arith, length-days_from (suc start) rounds)

slices_filled :
    (fuel : ℕ) (dates : List ℕ)
    → 0 < length dates
    → slices (suc fuel) dates ≡ take batch_size dates ∷ slices fuel (drop batch_size dates)
unfolding slices
slices_filled fuel [] h = absurd (omega arith)
slices_filled fuel (d ∷ dates) h = refl

slices_step :
    (fuel start rounds t : ℕ)
    → slices_with t (slices (suc fuel) (days_from start (suc rounds)))
      ≡ (if has_date (days_from start (min batch_size (suc rounds))) t then 1 else 0)
        + slices_with t (slices fuel (days_from (start + batch_size) (suc rounds - batch_size)))
slices_step fuel start rounds t =
    let first = take-days_from batch_size start (suc rounds) in
    let rest = drop-days_from batch_size start (suc rounds) in
    rw
      (slices_filled fuel (days_from start (suc rounds))
        (omega (arith, length-days_from start (suc rounds))))
      (rw (first, rest))

-- Each date of a range stands in one slice, and no other date in any.
pub slices_with-days_from :
    (fuel start rounds t : ℕ)
    → rounds ≤ fuel
    → slices_with t (slices fuel (days_from start rounds))
      ≡ (if leb start t && ltb t (start + rounds) then 1 else 0)
slices_with-days_from zero start zero t h = unfold slices in ground arith
slices_with-days_from zero start (suc rounds) t h = absurd (omega arith)
slices_with-days_from (suc fuel) start zero t h = unfold slices days_from in ground arith
slices_with-days_from (suc fuel) start (suc rounds) t h = ground (
  arith,
  slices_step fuel start rounds t,
  has_date-days_from start (min batch_size (suc rounds)) t,
  slices_with-days_from fuel (start + batch_size) (suc rounds - batch_size) t (omega arith),
)
