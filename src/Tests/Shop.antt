-- ===== src/Tests/Shop.antt =====
-- A shop with two URLs of an account, one of them expired, and no API key of Safe Browsing.
use dist_link.Base.{none, some, [], ◌∷◌}
use dist_link.Urls.Types.{UrlRow, Url, Cached, one, iso, CreateUrlDto, UpdateUrlDto, one_day}
use dist_link.Urls.World.{Env, World}
use dist_link.Tests.Stores.{dict_redis, tables, Tables}

abbrev pub shop : Env
shop = record {
  db = tables;
  redis = dict_redis Cached;
  safe_browsing = record { api_key = none; post = λ url. none };
  base_url = "https://l.ink";
  key_prefix = "distlink:";
  ttl = 3600;
}

abbrev pub ann_row : UrlRow
ann_row = record {
  short_code = "annslink";
  original_url = "https://example.org/a";
  user_id = some "ann";
  created_at = 10;
  expires_at = some 1000;
}

abbrev pub old_row : UrlRow
old_row = record {
  short_code = "oldlinks";
  original_url = "https://example.org/b";
  user_id = some "ann";
  created_at = 1;
  expires_at = some 50;
}

abbrev pub stock : Tables
stock = record {
  rows = ("annslink", ann_row) ∷ ("oldlinks", old_row) ∷ [];
  counts = ("annslink", 7) ∷ ("oldlinks", 2) ∷ [];
}

-- Nothing is cached.
abbrev pub open_shop : World shop
open_shop = record {
  now = 100;
  db = stock;
  redis = [];
  pool = [];
  drawn = 0;
  batch = λ n. [];
  faults = [];
}

abbrev pub ann_url : Url
ann_url = record {
  short_code = "annslink";
  original_url = "https://example.org/a";
  user_id = some "ann";
  created_at = iso 10;
  expires_at = some (iso 1000);
  clicks = 7;
  new_url = "https://l.ink/annslink";
}

-- The first URL is cached.
abbrev pub warm_shop : World shop
warm_shop = record open_shop { redis = ("distlink:urls:annslink", one ann_url) ∷ [] }

abbrev pub order : CreateUrlDto
order = record { original_url = "https://example.org/c"; expiration = one_day }

abbrev pub rename : UpdateUrlDto
rename = record { new_code = "ann-link"; expiration = some one_day; original_url = none }
