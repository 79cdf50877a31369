-- ===== src/Urls/Types.antt =====
-- The rows, DTOs and cached values of modules/urls, and the tables of the database that it uses.
use dist_link.Base.{
  ℕ, ◌+◌, String, ◌≡◌, Bool, false, Option, none, some, List, ◌==◌, ltb, has, if◌then◌else◌,
}
use dist_link.Base.Dict.{or_else}

-- urls/dto/create-url.dto.ts
pub data ExpirationOption : Type 0 where
  forever one_day seven_days thirty_days : ExpirationOption

-- A point in time, in milliseconds: a `Date`, or the ISO text that JSON makes of one. The owner and the clicks of a
-- URL stand for what they name: where the dates are Dates, the driver has given the owner as a Uuid object and the
-- clicks as a Long, and where they are texts, JSON has made texts of all of them.
pub data Stamp : Type 0 where
  date : ℕ → Stamp
  iso : ℕ → Stamp

-- `new Date() > stamp`: a comparison with a text that is no number is false.
abbrev pub is_past : ℕ → Stamp → Bool
is_past now (date t) = ltb t now
is_past now (iso t) = false

-- What `JSON.parse(JSON.stringify(d))` gives.
abbrev pub to_iso : Stamp → Stamp
to_iso (date t) = iso t
to_iso (iso t) = iso t

-- A row of `link_urls`.
pub record UrlRow : Type 0 where
  pub short_code : String
  pub original_url : String
  pub user_id : Option String
  pub created_at : ℕ
  pub expires_at : Option ℕ

-- urls/interfaces/url.interface.ts
pub record Url : Type 0 where
  pub short_code : String
  pub original_url : String
  pub user_id : Option String
  pub created_at : Stamp
  pub expires_at : Option Stamp
  pub clicks : ℕ
  pub new_url : String

-- urls/dto/url-response.dto.ts
pub record UrlResponseDto : Type 0 where
  pub short_code : String
  pub original_url : String
  pub user_id : Option String
  pub created_at : Stamp
  pub expires_at : Option Stamp
  pub clicks : ℕ
  pub new_url : String

pub record CreateUrlDto : Type 0 where
  pub original_url : String
  pub expiration : ExpirationOption

-- urls/dto/update-url.dto.ts; the service is typed as if `newCode` were always there.
pub record UpdateUrlDto : Type 0 where
  pub new_code : String
  pub expiration : Option ExpirationOption
  pub original_url : Option String

-- The values under the cache's keys: a URL under its code, lists under `all` and `user:<id>`.
pub data Cached : Type 0 where
  one : Url → Cached
  many : List UrlResponseDto → Cached

-- `expires_at < ?`, which a row without an expiration does not meet
abbrev pub is_overdue : ℕ → Option UrlRow → Bool
is_overdue now none = false
is_overdue now (some r) = elim r.expires_at [ none ↦ false | some t ↦ ltb t now ]

-- The statements that modules/urls sends to the database, and how the reads see the writes: rows
-- are found by their primary key, the expired codes are those of the rows whose time has passed, an INSERT replaces a row, a counter that is updated exists.
pub record Database : Type 1 where
  pub State : Type 0
  pub url : State → String → Option UrlRow
  pub urls : State → List UrlRow
  pub user_urls : State → String → List UrlRow
  pub clicks : State → String → Option ℕ
  pub counters : State → List (String × ℕ)
  pub expired_codes : State → (now : ℕ) → List String
  pub has-expired_codes :
      (s : State) (now : ℕ) (c : String) → has (expired_codes s now) c ≡ is_overdue now (url s c)
  pub insert : State → UrlRow → State
  pub delete : State → String → State
  pub add_clicks : State → String → ℕ → State
  pub delete_clicks : State → String → State
  pub url-insert :
      (s : State) (r : UrlRow) (j : String)
      → url (insert s r) j ≡ (if r.short_code == j then some r else url s j)
  pub url-delete :
      (s : State) (k j : String) → url (delete s k) j ≡ (if k == j then none else url s j)
  pub url-add_clicks : (s : State) (k j : String) (n : ℕ) → url (add_clicks s k n) j ≡ url s j
  pub url-delete_clicks : (s : State) (k j : String) → url (delete_clicks s k) j ≡ url s j
  pub clicks-insert : (s : State) (r : UrlRow) (j : String) → clicks (insert s r) j ≡ clicks s j
  pub clicks-delete : (s : State) (k j : String) → clicks (delete s k) j ≡ clicks s j
  pub clicks-add_clicks :
      (s : State) (k j : String) (n : ℕ)
      → clicks (add_clicks s k n) j
        ≡ (if k == j then some (or_else (clicks s j) 0 + n) else clicks s j)
  pub clicks-delete_clicks :
      (s : State) (k j : String)
      → clicks (delete_clicks s k) j ≡ (if k == j then none else clicks s j)
