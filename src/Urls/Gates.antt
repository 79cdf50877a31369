-- ===== src/Urls/Gates.antt =====
-- modules/urls/urls.controller.ts: which requests the guards turn away, and what the requests of one client
-- count against.
use dist_link.Base.{
  suc, ◌+◌, ◌≤◌, ◌<◌, String, ◌≡◌, refl, Option, none, some, List, [], ◌∷◌, All, length, eq_refl,
  arith, ◌⊎◌, inl, inr,
}
use dist_link.Base.Exec.{Error, throttled, Result, err, Result-cases}
use dist_link.RateLimit.{Counters, Options, rate_limit, can_activate}
use dist_link.Auth.World.{Env as AuthEnv, access_secret}
use dist_link.Auth.Guards.{Passport}
use dist_link.Auth.Admission.{user_refused}
use dist_link.Urls.World.{Env}
use dist_link.Urls.Gateway.{
  UrlRequest, post_url, get_urls, get_user_urls, get_url, delete_url, patch_url, UrlReply, limit_of,
  route_path, limit_key, Gateway, guarded, handle_url,
}

-- Every limit has a window.
window_opens : (r : UrlRequest) → 0 < (limit_of r).window
unfolding limit_of rate_limit
window_opens (post_url dto token) = omega arith
window_opens get_urls = omega arith
window_opens (get_user_urls token) = omega arith
window_opens (get_url code) = omega arith
window_opens (delete_url code token) = omega arith
window_opens (patch_url code dto token) = omega arith

module _ (c : Counters) where
  -- A check counts the request under its key.
  check-count :
      (o : Options) (key : String) (s : c.State)
      → 0 < o.window
      → c.count (can_activate c (some o) key s).1 key ≡ suc (c.count s key)
  unfolding can_activate
  check-count o key s opens =
      ground
        (arith, c.count-incr s key key, eq_refl key, c.count-expire (c.incr s key) key key o.window)

  check_full :
      (o : Options) (key : String) (s : c.State)
      → o.limit ≤ c.count s key
      → (can_activate c (some o) key s).0 ≡ err throttled
  unfolding can_activate
  check_full o key s full = ground (arith, c.count-incr s key key, eq_refl key)

-- The token of a request whose handler is behind `JwtAuthGuard`.
abbrev pub guarded_by : UrlRequest → Option String
guarded_by (post_url dto token) = none
guarded_by get_urls = none
guarded_by (get_user_urls token) = some token
guarded_by (get_url code) = none
guarded_by (delete_url code token) = some token
guarded_by (patch_url code dto token) = some token

module _ {counters : Counters} {auth : AuthEnv} {env : Env} (passport : Passport auth) where
  -- The limit of the client is used up, or the handler wants a token and the token does not verify.
  abbrev pub IsTurnedAway : String → UrlRequest → Gateway counters auth env → Type 0
  IsTurnedAway ip r g =
      ((limit_of r).limit ≤ counters.count g.limits (limit_key ip (route_path r)))
      ⊎ ((token : String) × (guarded_by r ≡ some token)
          × (auth.jwt.verify access_secret token g.accounts.now ≡ none))

  abbrev pub IsUntouched :
      Gateway counters auth env → Result UrlReply × Gateway counters auth env → Type 0
  IsUntouched g out =
      ((e : Error) × (out.0 ≡ err e)) × (out.1.accounts ≡ g.accounts) × (out.1.urls ≡ g.urls)

  full-IsUntouched :
      (ip : String) (r : UrlRequest) (g : Gateway counters auth env)
      → (limit_of r).limit ≤ counters.count g.limits (limit_key ip (route_path r))
      → ((handle_url passport ip r g).0 ≡ err throttled)
        × IsUntouched g (handle_url passport ip r g)
  unfolding handle_url
  full-IsUntouched ip r g full =
      let out = check_full counters (limit_of r) (limit_key ip (route_path r)) g.limits full in
      rw out (refl, ((throttled, refl), refl, refl))

  -- A handler behind the guard does nothing for a token that does not verify.
  stranger-IsUntouched :
      (r : UrlRequest) (token : String) (g : Gateway counters auth env)
      → guarded_by r ≡ some token
      → auth.jwt.verify access_secret token g.accounts.now ≡ none
      → IsUntouched g (guarded passport r g)
  unfolding guarded
  stranger-IsUntouched (post_url dto t) token g behind invalid = cc
  stranger-IsUntouched get_urls token g behind invalid = cc
  stranger-IsUntouched (get_user_urls t) token g behind invalid =
      let same : t ≡ token = cc in
      let (e, out) = user_refused passport token g.accounts invalid in
      rw (same, out) ((e, refl), refl, refl)
  stranger-IsUntouched (get_url code) token g behind invalid = cc
  stranger-IsUntouched (delete_url code t) token g behind invalid =
      let same : t ≡ token = cc in
      let (e, out) = user_refused passport token g.accounts invalid in
      rw (same, out) ((e, refl), refl, refl)
  stranger-IsUntouched (patch_url code dto t) token g behind invalid =
      let same : t ≡ token = cc in
      let (e, out) = user_refused passport token g.accounts invalid in
      rw (same, out) ((e, refl), refl, refl)

  -- A request that the limit of its client or the guard of its handler turns away answers with an error,
  -- and neither an account nor anything of the URL service has changed.
  pub turned_away :
      (ip : String) (r : UrlRequest) (g : Gateway counters auth env)
      → IsTurnedAway ip r g
      → IsUntouched g (handle_url passport ip r g)
  unfolding handle_url
  turned_away ip r g (inl full) = (full-IsUntouched ip r g full).1
  turned_away ip r g (inr (token, behind, invalid)) =
      let check =
        can_activate counters (some (limit_of r)) (limit_key ip (route_path r)) g.limits in
      elim (Result-cases check.0) [
        | inl (b, passed) ↦
            rw passed (stranger-IsUntouched r token (record g { limits = check.1 }) behind invalid)
        | inr (e, full) ↦ rw full ((e, refl), refl, refl)
      ]

  guarded-limits :
      (r : UrlRequest) (g : Gateway counters auth env) → (guarded passport r g).1.limits ≡ g.limits
  unfolding guarded
  guarded-limits (post_url dto token) g = ground arith
  guarded-limits get_urls g = ground arith
  guarded-limits (get_user_urls token) g = ground arith
  guarded-limits (get_url code) g = ground arith
  guarded-limits (delete_url code token) g = ground arith
  guarded-limits (patch_url code dto token) g = ground arith

  handle_url-limits :
      (ip : String) (r : UrlRequest) (g : Gateway counters auth env)
      → (handle_url passport ip r g).1.limits
        ≡ (can_activate counters (some (limit_of r)) (limit_key ip (route_path r)) g.limits).1
  unfolding handle_url
  handle_url-limits ip r g =
      let check =
        can_activate counters (some (limit_of r)) (limit_key ip (route_path r)) g.limits in
      elim (Result-cases check.0) [
        | inl (b, passed) ↦ rw passed (guarded-limits r (record g { limits = check.1 }))
        | inr (e, full) ↦ rw full refl
      ]

  -- Requests of one client, one after the other.
  unfoldable pub handle_urls :
      String → List UrlRequest → Gateway counters auth env → Gateway counters auth env
  unfolding handle_url
  handle_urls ip [] g = g
  handle_urls ip (r ∷ rs) g = handle_urls ip rs (handle_url passport ip r g).1

  handle_urls-count :
      (ip path : String) (rs : List UrlRequest) (g : Gateway counters auth env)
      → All (λ r. route_path r ≡ path) rs
      → counters.count (handle_urls ip rs g).limits (limit_key ip path)
        ≡ counters.count g.limits (limit_key ip path) + length rs
  unfolding handle_urls
  handle_urls-count ip path [] g same = omega arith
  handle_urls-count ip path (r ∷ rs) g (here, rest) =
      let next = (handle_url passport ip r g).1 in
      let counted =
        check-count counters (limit_of r) (limit_key ip path) g.limits (window_opens r) in
      let step : counters.count next.limits (limit_key ip path)
          ≡ suc (counters.count g.limits (limit_key ip path)) =
        rw (handle_url-limits ip r g, here) counted in
      omega (arith, step, handle_urls-count ip path rs next rest)

  -- The requests of a client to one path count together while no time passes, whatever their methods are
  -- and whatever becomes of them: once there have been as many of them as the handler of a request with this path allows, that
  -- request is refused, without a request of its own method before it.
  pub path_shares_limit :
      (ip : String) (r : UrlRequest) (rs : List UrlRequest) (g : Gateway counters auth env)
      → All (λ q. route_path q ≡ route_path r) rs
      → (limit_of r).limit ≤ length rs
      → ((handle_url passport ip r (handle_urls ip rs g)).0 ≡ err throttled)
        × IsUntouched (handle_urls ip rs g) (handle_url passport ip r (handle_urls ip rs g))
  path_shares_limit ip r rs g same enough =
      full-IsUntouched ip r (handle_urls ip rs g)
        (omega (arith, handle_urls-count ip (route_path r) rs g same))
