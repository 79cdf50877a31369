-- ===== src/Clicks/Counting.antt =====
-- How a batch of click events reaches the click counters.
use dist_link.Base.{
  ℕ, zero, suc, ◌+◌, ◌≤◌, String, ◌≡◌, refl, inl, inr, List, [], ◌∷◌, ◌++◌, map, arith, ◌==◌,
  eq_iff, if◌then◌else◌,
}
use dist_link.Base.Dict.{Dict, get, put, or_else}
use dist_link.Base.Exec.{
  Error, Result, ok, err, promise_all, promise_all-ok, Result-cases, try_catch-ok, try_catch-err,
}
use dist_link.Urls.Types.{Database}
use dist_link.Clicks.Events.{Event, click_counts, count_one}
use dist_link.Clicks.Processor.{Processor, add_clicks, save_batch_to_database}

module _ {M : Type 0} where
  -- How many events of a batch are clicks of `code`.
  abbrev pub clicks_of : String → List (Event M) → ℕ
  clicks_of code [] = 0
  clicks_of code (e ∷ batch) = (if e.short_code == code then 1 else 0) + clicks_of code batch

  pub clicks_of-append :
      (code : String) (xs ys : List (Event M))
      → clicks_of code (xs ++ ys) ≡ clicks_of code xs + clicks_of code ys
  clicks_of-append code [] ys = omega arith
  clicks_of-append code (e ∷ xs) ys = omega (arith, clicks_of-append code xs ys)

-- What a list of updates adds to the counter of `code`.
abbrev pub total : String → Dict ℕ → ℕ
total code [] = 0
total code ((c, n) ∷ counts) = (if c == code then n else 0) + total code counts

total-put :
    (counts : Dict ℕ) (c code : String)
    → total code (put counts c (or_else (get counts c) 0 + 1))
      ≡ total code counts + (if c == code then 1 else 0)
unfolding put get
total-put [] c code = ground arith
total-put ((d, n) ∷ counts) c code =
    ground (arith, eq_iff d c, eq_iff c code, eq_iff d code, total-put counts c code)

module _ {M : Type 0} where
  total-click_counts :
      (counts : Dict ℕ) (batch : List (Event M)) (code : String)
      → total code (click_counts counts batch) ≡ total code counts + clicks_of code batch
  unfolding click_counts
  total-click_counts counts [] code = omega arith
  total-click_counts counts (e ∷ batch) code = omega (
    arith,
    total-click_counts (count_one counts e) batch code,
    total-put counts e.short_code code,
  )

module _ {client : Database} {M : Type 0} where
  -- The counter of a code, 0 where there is no row.
  abbrev pub counter : Processor client M → String → ℕ
  counter p code = or_else (client.clicks p.db code) 0

  abbrev pub calm : Processor client M → Processor client M
  calm p = record p { faults = [] }

  counter-add_clicks_le :
      (u : String × ℕ) (p : Processor client M) (code : String)
      → counter p code ≤ counter (add_clicks u p).1 code
  unfolding add_clicks
  counter-add_clicks_le (c, n) p code = ground (arith, client.clicks-add_clicks p.db c code n)

  counter-add_clicks_ok :
      (u : String × ℕ) (p : Processor client M) (code : String)
      → (add_clicks u p).0 ≡ ok tt
      → counter (add_clicks u p).1 code ≡ counter p code + (if u.0 == code then u.1 else 0)
  unfolding add_clicks
  counter-add_clicks_ok (c, n) p code h = ground (arith, client.clicks-add_clicks p.db c code n)

  run_all : Dict ℕ → Processor client M → Result (Unit {0}) × Processor client M
  run_all counts p = promise_all (map add_clicks counts) p

  run_all_le :
      (counts : Dict ℕ) (p : Processor client M) (code : String)
      → counter p code ≤ counter (run_all counts p).1 code
  unfolding run_all
  run_all_le [] p code = omega arith
  run_all_le (u ∷ counts) p code =
      omega (arith, counter-add_clicks_le u p code, run_all_le counts (add_clicks u p).1 code)

  run_all_ok :
      (counts : Dict ℕ) (p : Processor client M) (code : String)
      → (run_all counts p).0 ≡ ok tt
      → counter (run_all counts p).1 code ≡ counter p code + total code counts
  unfolding run_all
  run_all_ok [] p code h = omega arith
  run_all_ok ((c, n) ∷ counts) p code h =
      let both = promise_all-ok (add_clicks (c, n)) (map add_clicks counts) p h in
      omega (
        arith,
        counter-add_clicks_ok (c, n) p code both.0,
        run_all_ok counts (add_clicks (c, n) p).1 code both.1,
      )

  -- The first try of a save, and what follows it.
  module _ (retries : ℕ) (batch : List (Event M)) (p : Processor client M) where
    save_once :
        (run_all (click_counts [] batch) p).0 ≡ ok tt
        → save_batch_to_database (suc retries) batch p ≡ run_all (click_counts [] batch) p
    unfolding save_batch_to_database run_all
    save_once h =
        try_catch-ok (run_all (click_counts [] batch)) (λ _. save_batch_to_database retries batch) p
          tt h

    save_again :
        (e : Error)
        → (run_all (click_counts [] batch) p).0 ≡ err e
        → save_batch_to_database (suc retries) batch p
          ≡ save_batch_to_database retries batch (run_all (click_counts [] batch) p).1
    unfolding save_batch_to_database run_all
    save_again e h =
        try_catch-err (run_all (click_counts [] batch)) (λ _. save_batch_to_database retries batch)
          p e h

  save_last :
      (batch : List (Event M)) (p : Processor client M)
      → save_batch_to_database zero batch p ≡ run_all (click_counts [] batch) p
  unfolding save_batch_to_database run_all
  save_last batch p = refl

  -- No click is lost by a save that succeeds, whatever statements failed on the way and were retried:
  -- the counter of each code has grown at least by the number of the code's clicks in the batch.
  pub save_batch_complete :
      (retries : ℕ) (batch : List (Event M)) (p : Processor client M) (code : String)
      → (save_batch_to_database retries batch p).0 ≡ ok tt
      → counter p code + clicks_of code batch
        ≤ counter (save_batch_to_database retries batch p).1 code
  save_batch_complete zero batch p code h = rw (save_last batch p) (
      omega (
        arith,
        total-click_counts [] batch code,
        run_all_ok (click_counts [] batch) p code (rw (save_last batch p) at h),
      ))
  save_batch_complete (suc retries) batch p code h =
      elim (Result-cases (run_all (click_counts [] batch) p).0) [
        | inl (tt, done) ↦ rw (save_once retries batch p done) (
            omega (
              arith,
              total-click_counts [] batch code,
              run_all_ok (click_counts [] batch) p code done,
            ))
        | inr (e, failed) ↦
            let next = (run_all (click_counts [] batch) p).1 in
            rw (save_again retries batch p e failed) (
              omega (
                arith,
                run_all_le (click_counts [] batch) p code,
                save_batch_complete retries batch next code
                    (rw (save_again retries batch p e failed) at h),
              ))
      ]

  run_all-calm : (counts : Dict ℕ) (p : Processor client M) → (run_all counts (calm p)).0 ≡ ok tt
  unfolding run_all add_clicks
  run_all-calm [] p = refl
  run_all-calm ((c, n) ∷ counts) p =
      run_all-calm counts (record p { db = client.add_clicks p.db c n })

  run_all-faults :
      (counts : Dict ℕ) (p : Processor client M) → (run_all counts (calm p)).1.faults ≡ []
  unfolding run_all add_clicks
  run_all-faults [] p = refl
  run_all-faults ((c, n) ∷ counts) p =
      run_all-faults counts (record p { db = client.add_clicks p.db c n })

  -- A save without failures leaves the script of failures empty.
  pub save_batch-faults :
      (retries : ℕ) (batch : List (Event M)) (p : Processor client M)
      → (save_batch_to_database retries batch (calm p)).1.faults ≡ []
  save_batch-faults zero batch p =
      rw (save_last batch (calm p)) (run_all-faults (click_counts [] batch) p)
  save_batch-faults (suc retries) batch p =
      let counts = click_counts [] batch in
      rw (save_once retries batch (calm p) (run_all-calm counts p)) (run_all-faults counts p)

  -- When no statement fails, a save counts each click once: the counter of every code grows by
  -- exactly the number of the code's clicks in the batch.
  pub save_batch_exact :
      (retries : ℕ) (batch : List (Event M)) (p : Processor client M) (code : String)
      → ((save_batch_to_database retries batch (calm p)).0 ≡ ok tt)
        × (counter (save_batch_to_database retries batch (calm p)).1 code
            ≡ counter p code + clicks_of code batch)
  save_batch_exact retries batch p code =
      let done = run_all-calm (click_counts [] batch) p in
      let first = save_first retries in
      rw first (
        done,
        omega (
          arith,
          total-click_counts [] batch code,
          run_all_ok (click_counts [] batch) (calm p) code done,
        ),
      )
    where
      save_first :
          (n : ℕ)
          → save_batch_to_database n batch (calm p) ≡ run_all (click_counts [] batch) (calm p)
      save_first zero = save_last batch (calm p)
      save_first (suc n) = save_once n batch (calm p) (run_all-calm (click_counts [] batch) p)
