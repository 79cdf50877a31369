-- ===== src/Tests/Limits.antt =====
-- The rate limit and the retries, at concrete inputs.
use dist_link.Base.{ℕ, zero, suc, ◌≡◌, refl, true, false, none, some, [], ◌∷◌, arith}
use dist_link.Base.Exec.{Result, ok, err, generic}
use dist_link.RateLimit.{Options, serve}
use dist_link.RateLimit.Window.{first_requests, serve_window}
use dist_link.Retry.{IsRetried, with_retry, with_retry_bounds}
use dist_link.Tests.Stores.{ticks, Ticks}

abbrev two_a_minute : Options
two_a_minute = record { limit = 2; window = 60 }

abbrev unused : Ticks
unused key = (0, none)

serve_test :
    serve ticks (some two_a_minute) "ip" unused (5 ∷ 1 ∷ 1 ∷ 60 ∷ [])
    ≡ true ∷ true ∷ false ∷ true ∷ []
unfolding serve
serve_test = refl

serve_window_example :
    serve ticks (some two_a_minute) "ip" unused (5 ∷ 1 ∷ 1 ∷ [])
    ≡ first_requests 2 0 (5 ∷ 1 ∷ 1 ∷ [])
serve_window_example = serve_window ticks two_a_minute "ip" unused 5 (1 ∷ 1 ∷ []) refl (omega arith)

-- Fails twice, then returns.
abbrev third_time : ℕ → Result ℕ
third_time zero = err generic
third_time (suc zero) = err generic
third_time (suc (suc n)) = ok n

with_retry_bounds_example : IsRetried third_time 3 1000 0 0 (with_retry third_time 3 1000 0 0)
with_retry_bounds_example = with_retry_bounds third_time 3 1000 0 0

-- Two failed runs, and waits of one and of two seconds.
with_retry_test :
    with_retry third_time 3 1000 0 0 ≡ record { result = ok 0; runs = 3; waited = 3000 }
unfolding with_retry
with_retry_test = refl
