-- ===== src/Retry.antt =====
-- common/utils/retry.util.ts: `withRetry`. The operation is a function of how often it has run; it
-- either returns or throws. The delays are counted in milliseconds.
use native.Mathlib.Nat.{pow-suc}
use dist_link.Base.{
  sym, ℕ, zero, suc, ◌+◌, ◌*◌, ◌^◌, ◌≤◌, ◌<◌, ◌⊎◌, ◌≡◌, refl, ap, ◌∙◌, inl, inr, arith,
}
use dist_link.Base.Exec.{Error, Result, ok, err, Result-cases}

-- The result, how often the operation ran, and how long the waits were together.
pub record Outcome (A : Type 0) : Type 0 where
  pub result : Result A
  pub runs : ℕ
  pub waited : ℕ

power_double : (n d : ℕ) → d * 2 ^ suc n ≡ d * 2 * 2 ^ n
power_double n d = rw pow-suc (grind arith)

module _ {A : Type 0} (operation : ℕ → Result A) where
  unfoldable pub with_retry : (retries delay ran waited : ℕ) → Outcome A
  with_retry zero delay ran waited = record {
    result = operation ran;
    runs = ran + 1;
    waited = waited;
  }
  with_retry (suc retries) delay ran waited = elim (operation ran) [
    | ok a ↦ record { result = ok a; runs = ran + 1; waited = waited }
    | err e ↦ with_retry retries (delay * 2) (ran + 1) (waited + delay)
  ]

  retry_done :
      (retries delay ran waited : ℕ) (a : A)
      → operation ran ≡ ok a
      → with_retry (suc retries) delay ran waited
        ≡ record { result = ok a; runs = ran + 1; waited = waited }
  unfolding with_retry
  retry_done retries delay ran waited a e = rw (e, with_retry)

  retry_again :
      (retries delay ran waited : ℕ) (x : Error)
      → operation ran ≡ err x
      → with_retry (suc retries) delay ran waited
        ≡ with_retry retries (delay * 2) (ran + 1) (waited + delay)
  unfolding with_retry
  retry_again retries delay ran waited x e = rw (e, with_retry)

  -- What is known of an outcome: after the failed runs, which are at most the retries, one more run
  -- gave the result, which is a success unless the retries are used up; the waits are the delay, its
  -- double, and so on, one for each failed run.
  abbrev pub IsRetried : (retries delay ran waited : ℕ) → Outcome A → Type 0
  IsRetried retries delay ran waited o =
      (n : ℕ) × (n ≤ retries)
      × (o.runs ≡ ran + n + 1)
      × (o.result ≡ operation (ran + n))
      × (((a : A) × (o.result ≡ ok a)) ⊎ (n ≡ retries))
      × ((k : ℕ) → k < n → (x : Error) × (operation (ran + k) ≡ err x))
      × (o.waited + delay ≡ waited + delay * 2 ^ n)

  earlier_failed :
      (n ran : ℕ)
      → ((x : Error) × (operation ran ≡ err x))
      → ((k : ℕ) → k < n → (x : Error) × (operation (ran + 1 + k) ≡ err x))
      → (k : ℕ) → k < suc n
      → (x : Error) × (operation (ran + k) ≡ err x)
  earlier_failed n ran (x, e) rest zero h = (x, ap operation (omega arith) ∙ e)
  earlier_failed n ran first rest (suc k) h =
      let (x, e) = rest k (omega arith) in (x, ap operation (omega arith) ∙ e)

  -- withRetry runs the operation until it succeeds, at most once more than there are retries, and gives
  -- the result of its last run: each run before has failed, and the result is an error only when the
  -- retries are used up. The waits add up to exactly the delay, its double and so on, one for each
  -- failed run.
  pub with_retry_bounds :
      (retries delay ran waited : ℕ)
      → IsRetried retries delay ran waited (with_retry retries delay ran waited)
  with_retry_bounds zero delay ran waited =
      unfold with_retry in
      (
        0,
        omega arith,
        omega arith,
        ap operation (omega arith),
        inr refl,
        λ k h. absurd (omega arith),
        omega arith,
      )
  with_retry_bounds (suc retries) delay ran waited = elim (Result-cases (operation ran)) [
    | inl (a, e) ↦ rw (retry_done retries delay ran waited a e) (
      0,
      omega arith,
      omega arith,
      sym e ∙ ap operation (omega arith),
      inl (a, refl),
      λ k h. absurd (omega arith),
      omega arith,
    )
    | inr (x, e) ↦
        let (n, few, runs, result, done, failed, waits) =
          with_retry_bounds retries (delay * 2) (ran + 1) (waited + delay) in
        rw (retry_again retries delay ran waited x e) (
          suc n,
          omega arith,
          omega arith,
          result ∙ ap operation (omega arith),
          elim done [ inl good ↦ inl good | inr all ↦ inr (ap suc all) ],
          earlier_failed n ran (x, e) failed,
          omega (arith, power_double n delay),
        )
  ]
