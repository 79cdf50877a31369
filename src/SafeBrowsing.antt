-- ===== src/SafeBrowsing.antt =====
-- modules/safe-browsing/safe-browsing.service.ts: `SafeBrowsingService.checkUrl`. The request to
-- the Safe Browsing API is a function from the URL to its outcome.
use dist_link.Base.{String, Bool, true, false, Option, none, some, List, [], ◌∷◌}

pub record SafeBrowsing : Type 0 where
  pub api_key : Option String
  -- `none` when the request fails; else the `matches` of the response, `none` if it has none.
  pub post : String → Option (Option (List String))

-- `threats` is `undefined` where there is none.
pub record Safety : Type 0 where
  pub is_safe : Bool
  pub threats : Option (List String)

abbrev of_matches : List String → Safety
of_matches [] = record { is_safe = true; threats = none }
of_matches (t ∷ ts) = record { is_safe = false; threats = some (t ∷ ts) }

abbrev of_response : Option (Option (List String)) → Safety
of_response none = record { is_safe = true; threats = none }
of_response (some none) = of_matches []
of_response (some (some found)) = of_matches found

abbrev with_key : Option String → Option (Option (List String)) → Safety
with_key none response = record { is_safe = true; threats = none }
with_key (some key) response = of_response response

unfoldable pub check_url : SafeBrowsing → String → Safety
check_url s url = with_key s.api_key (s.post url)
