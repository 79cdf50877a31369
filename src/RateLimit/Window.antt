-- ===== src/RateLimit/Window.antt =====
-- How many requests the guard lets through in a window.
use dist_link.Base.{
  ℕ, suc, ◌+◌, ◌-◌, ◌≤◌, ◌<◌, String, ◌≡◌, refl, ap, ◌∙◌, Bool, true, false, none, some, List, [],
  ◌∷◌, arith, eq_refl, ltb, le→ltb, lt→ltb, if◌then◌else◌,
}
use dist_link.Base.Exec.{throttled, Result, ok, err}
use dist_link.RateLimit.{Counters, Options, can_activate, is_ok, serve}

-- The first `limit` requests, counted from `made` on, and no other.
abbrev pub first_requests : (limit made : ℕ) → List ℕ → List Bool
first_requests limit made [] = []
first_requests limit made (wait ∷ waits) = ltb made limit ∷ first_requests limit (suc made) waits

abbrev pub sum : List ℕ → ℕ
sum [] = 0
sum (n ∷ ns) = n + sum ns

-- `n` requests refused
abbrev pub refused : List ℕ → List Bool
refused [] = []
refused (wait ∷ waits) = false ∷ refused waits

module _ (c : Counters) (o : Options) (key : String) where
  counted_again :
      (s : c.State) (made : ℕ) → c.count s key ≡ made → c.count (c.incr s key) key ≡ suc made
  counted_again s made counted = rw (c.count-incr, eq_refl, counted) (omega arith)

  -- A check of a key that has been counted before.
  check_later :
      (s : c.State) (made : ℕ)
      → c.count s key ≡ suc made
      → can_activate c (some o) key s
        ≡ ((if ltb (suc made) o.limit then ok true else err throttled), c.incr s key)
  unfolding can_activate
  check_later s made counted = ground (arith, counted_again s (suc made) counted)

  -- The check of the first request of a window.
  check_first :
      (s : c.State)
      → c.count s key ≡ 0
      → 0 < o.window
      → can_activate c (some o) key s
        ≡ ((if ltb 0 o.limit then ok true else err throttled), c.expire (c.incr s key) key o.window)
  unfolding can_activate
  check_first s new opens =
      ground (arith, counted_again s 0 new, c.count-expire (c.incr s key) key key o.window)

  is_ok-if : (b : Bool) → is_ok c (if b then ok true else err throttled) ≡ b
  is_ok-if true = refl
  is_ok-if false = refl

  serve_step :
      (s next : c.State) (wait : ℕ) (waits : List ℕ) (b : Bool)
      → can_activate c (some o) key (c.pass s wait) ≡ ((if b then ok true else err throttled), next)
      → serve c (some o) key s (wait ∷ waits) ≡ b ∷ serve c (some o) key next waits
  unfolding serve
  serve_step s next wait waits b step =
      ap (λ (r : Result Bool × c.State). is_ok c r.0 ∷ serve c (some o) key r.1 waits) step
      ∙ ap (λ (a : Bool). a ∷ serve c (some o) key next waits) (is_ok-if b)

  serve_later :
      (s : c.State) (made rest : ℕ) (waits : List ℕ)
      → c.count s key ≡ suc made
      → c.ttl s key ≡ some rest
      → sum waits < rest
      → serve c (some o) key s waits ≡ first_requests o.limit (suc made) waits
  serve_later s made rest [] counted live soon = unfold serve in refl
  serve_later s made rest (wait ∷ waits) counted live soon =
      let (kept, left) = c.pass-live s key rest wait live (omega arith) in
      let next = c.incr (c.pass s wait) key in
      serve_step s next wait waits (ltb (suc made) o.limit)
        (check_later (c.pass s wait) made (kept ∙ counted))
      ∙ ap (λ (bs : List Bool). ltb (suc made) o.limit ∷ bs)
          (serve_later next (suc made) (rest - wait) waits
            (counted_again (c.pass s wait) (suc made) (kept ∙ counted))
            (c.ttl-incr (c.pass s wait) key key ∙ left) (omega arith))

  -- Of the requests that come within one window of the first, exactly the first `limit` are let
  -- through, whatever the times between them.
  pub serve_window :
      (s : c.State) (wait : ℕ) (waits : List ℕ)
      → c.count (c.pass s wait) key ≡ 0
      → sum waits < o.window
      → serve c (some o) key s (wait ∷ waits) ≡ first_requests o.limit 0 (wait ∷ waits)
  serve_window s wait waits new soon =
      let first = c.incr (c.pass s wait) key in
      let one = counted_again (c.pass s wait) 0 new in
      serve_step s (c.expire first key o.window) wait waits (ltb 0 o.limit)
        (check_first (c.pass s wait) new (omega arith))
      ∙ ap (λ (bs : List Bool). ltb 0 o.limit ∷ bs)
          (serve_later (c.expire first key o.window) 0 o.window waits
            (c.count-expire first key key o.window (omega arith) ∙ one)
            (c.ttl-expire first key o.window (omega arith) (rw one (omega arith))) soon)

  -- When the window is over the next request is let through again, if the limit is not 0.
  serve_after_window :
      (s : c.State) (rest wait : ℕ)
      → c.ttl s key ≡ some rest
      → rest ≤ wait
      → 0 < o.window
      → 0 < o.limit
      → serve c (some o) key s (wait ∷ []) ≡ true ∷ []
  serve_after_window s rest wait live over opens allows =
      let new = (c.pass-over s key rest wait live over).0 in
      serve_step s (c.expire (c.incr (c.pass s wait) key) key o.window) wait [] (ltb 0 o.limit)
        (check_first (c.pass s wait) new opens)
      ∙ unfold serve in rw (lt→ltb 0 o.limit allows)

  -- A key that was counted and has no time to live, as when the process stops between `INCR` and
  -- `EXPIRE`, is never let through again once it has passed the limit, however long the caller waits.
  no_ttl_locks_out :
      (s : c.State) (made : ℕ) (waits : List ℕ)
      → c.count s key ≡ suc made
      → c.ttl s key ≡ none
      → o.limit ≤ suc made
      → serve c (some o) key s waits ≡ refused waits
  no_ttl_locks_out s made [] counted forever full = unfold serve in refl
  no_ttl_locks_out s made (wait ∷ waits) counted forever full =
      let (kept, still) = c.pass-forever s key wait forever in
      let next = c.incr (c.pass s wait) key in
      serve_step s next wait waits (ltb (suc made) o.limit)
        (check_later (c.pass s wait) made (kept ∙ counted))
      ∙ rw (le→ltb (suc made) o.limit full) (
          ap (λ (bs : List Bool). false ∷ bs)
            (no_ttl_locks_out next (suc made) waits
              (counted_again (c.pass s wait) (suc made) (kept ∙ counted))
              (c.ttl-incr (c.pass s wait) key key ∙ still) (omega arith)))
