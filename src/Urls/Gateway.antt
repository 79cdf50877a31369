-- ===== src/Urls/Gateway.antt =====
-- modules/urls/urls.controller.ts: a request to `UrlsController` on its way through the guards, first
-- `RateLimitGuard`, which the class has, then the guard of the handler.
use Prim.Native.String
use dist_link.Base.{String, Option, none, some, ◌==◌, if◌then◌else◌}
use dist_link.Base.Exec.{Exec, pure, zoom, ◌>>=◌, ◌>>◌}
use dist_link.RateLimit.{Counters, Options, rate_limit, can_activate}
use dist_link.Auth.World.{Env as AuthEnv, World as AuthWorld}
use dist_link.Auth.Users.{User}
use dist_link.Auth.Guards.{Passport, user_of_request, optional_user_of_request}
use dist_link.Urls.Types.{CreateUrlDto, UpdateUrlDto, UrlResponseDto, Cached}
use dist_link.Urls.World.{Env, World}
use dist_link.Urls.Controller

-- A request, with the token of its header, which is empty where there is none.
pub data UrlRequest : Type 0 where
  post_url : CreateUrlDto → (token : String) → UrlRequest
  get_urls : UrlRequest
  get_user_urls : (token : String) → UrlRequest
  get_url : (code : String) → UrlRequest
  delete_url : (code token : String) → UrlRequest
  patch_url : (code : String) → UpdateUrlDto → (token : String) → UrlRequest

pub data UrlReply : Type 0 where
  written : UrlResponseDto → UrlReply
  shown : Cached → UrlReply
  no_content : UrlReply

-- The decorator `RateLimit` of each handler, which goes before that of the class.
unfoldable pub limit_of : UrlRequest → Options
unfolding rate_limit
limit_of (post_url dto token) = rate_limit (some 10) (some 60)
limit_of get_urls = rate_limit (some 100) (some 60)
limit_of (get_user_urls token) = rate_limit (some 100) (some 60)
limit_of (get_url code) = rate_limit (some 200) (some 60)
limit_of (delete_url code token) = rate_limit (some 20) (some 60)
limit_of (patch_url code dto token) = rate_limit (some 30) (some 60)

-- `request.route.path`, which does not tell the method.
unfoldable pub route_path : UrlRequest → String
route_path (post_url dto token) = "/urls"
route_path get_urls = "/urls"
route_path (get_user_urls token) = "/urls/user"
route_path (get_url code) = "/urls/:shortCode"
route_path (delete_url code token) = "/urls/:shortCode"
route_path (patch_url code dto token) = "/urls/:shortCode"

unfoldable pub limit_key : (ip path : String) → String
limit_key ip path = String.◌++◌ "ratelimit:" (String.◌++◌ ip (String.◌++◌ ":" path))

-- `req.user && req.user.id`
abbrev pub caller_of : Option User → Option String
caller_of none = none
caller_of (some u) = if u.id == "" then none else some u.id

-- What a request meets: the counters of the limits, the accounts and the URLs.
pub record Gateway (counters : Counters) (auth : AuthEnv) (env : Env) : Type 0 where
  pub limits : counters.State
  pub accounts : AuthWorld auth
  pub urls : World env

module _ {counters : Counters} {auth : AuthEnv} {env : Env} where
  abbrev pub on_limits : {A : Type 0} → Exec counters.State A → Exec (Gateway counters auth env) A
  on_limits = zoom (λ g. g.limits) (λ s g. record g { limits = s })

  abbrev pub on_accounts :
      {A : Type 0} → Exec (AuthWorld auth) A → Exec (Gateway counters auth env) A
  on_accounts = zoom (λ g. g.accounts) (λ w g. record g { accounts = w })

  abbrev pub on_url_service : {A : Type 0} → Exec (World env) A → Exec (Gateway counters auth env) A
  on_url_service = zoom (λ g. g.urls) (λ w g. record g { urls = w })

  module _ (passport : Passport auth) where
    -- The guard of the handler, and the handler.
    unfoldable pub guarded : UrlRequest → Exec (Gateway counters auth env) UrlReply
    guarded (post_url dto token) = do
      user ← on_accounts (optional_user_of_request passport token)
      dto' ← on_url_service (Controller.create dto (caller_of user))
      pure (written dto')
    guarded get_urls = do urls ← on_url_service Controller.find_all; pure (shown urls)
    guarded (get_user_urls token) = do
      user ← on_accounts (user_of_request passport token)
      urls ← on_url_service (Controller.find_by_user user.id)
      pure (shown urls)
    guarded (get_url code) = do url ← on_url_service (Controller.find_one code); pure (shown url)
    guarded (delete_url code token) = do
      user ← on_accounts (user_of_request passport token)
      _ ← on_url_service (Controller.remove user.id code)
      pure no_content
    guarded (patch_url code dto token) = do
      user ← on_accounts (user_of_request passport token)
      dto' ← on_url_service (Controller.update user.id code dto)
      pure (written dto')

    unfoldable pub handle_url :
        (ip : String) → UrlRequest → Exec (Gateway counters auth env) UrlReply
    handle_url ip request = do
      on_limits
          (can_activate counters (some (limit_of request)) (limit_key ip (route_path request)))
      guarded request
