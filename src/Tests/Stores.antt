-- ===== src/Tests/Stores.antt =====
-- Concrete stores: dictionaries in place of Redis, of the tables and of the counters.
use dist_link.Base.{
  ℕ, zero, suc, ◌+◌, ◌-◌, ◌≤◌, ◌<◌, String, ◌≡◌, refl, Bool, false, ◌&&◌, inl, inr, ap, ◌∙◌,
  Bool-cases, has, Option, none, some, List, [], ◌∷◌, arith, ◌==◌, eq_iff, eq_refl, leb, keep,
  if◌then◌else◌,
}
use dist_link.Base.Dict.{Dict, get, put, remove, or_else, get-put, get-remove}
use dist_link.Redis.{Redis}
use dist_link.RateLimit.{Counters}
use dist_link.Urls.Types.{Database, UrlRow, is_overdue}

abbrev pub dict_redis : (V : Type 0) → Redis V
dict_redis V = record {
  State = Dict V;
  get = get;
  set = λ s k v ttl. put s k v;
  del = remove;
  get-set = λ s k j v ttl. get-put s k j v;
  get-del = get-remove;
}

-- The tables of modules/urls.
pub record Tables : Type 0 where
  pub rows : Dict UrlRow
  pub counts : Dict ℕ

abbrev values : {V : Type 0} → Dict V → List V
values [] = []
values ((k, v) ∷ d) = v ∷ values d

abbrev pub is_of : String → Option String → Bool
is_of user none = false
is_of user (some u) = u == user

abbrev codes : {V : Type 0} → Dict V → List String
codes [] = []
codes ((k, v) ∷ d) = k ∷ codes d

-- Under a key that is no code there is nothing.
get-absent : (d : Dict UrlRow) (k : String) → has (codes d) k ≡ false → get d k ≡ none
unfolding get
get-absent [] k h = refl
get-absent ((j, r) ∷ d) k h = ground (arith, get-absent d k)

has-keep :
    (p : String → Bool) (xs : List String) (c : String) → has (keep p xs) c ≡ (has xs c && p c)
has-keep p [] c = refl
has-keep p (x ∷ xs) c = elim (Bool-cases (x == c)) [
  | inl same ↦
      let e = ap p ((eq_iff x c).0 same) in
      elim (Bool-cases (p c)) [
        | inl kept ↦ rw (e, kept, same)
        | inr dropped ↦ rw (e, dropped, same) (has-keep p xs c ∙ (ground arith))
      ]
  | inr other ↦ elim (Bool-cases (p x)) [
    | inl kept ↦ rw (kept, other, has-keep p xs c)
    | inr dropped ↦ rw (dropped, other, has-keep p xs c)
  ]
]

pub overdue_law :
    (d : Dict UrlRow) (now : ℕ) (c : String)
    → has (keep (λ k. is_overdue now (get d k)) (codes d)) c ≡ is_overdue now (get d c)
overdue_law d now c =
    has-keep (λ k. is_overdue now (get d k)) (codes d) c ∙ elim (Bool-cases (has (codes d) c)) [
      | inl there ↦ rw there
      | inr absent ↦ rw (absent, get-absent d c absent)
    ]

pub add_law :
    (d : Dict ℕ) (k j : String) (n : ℕ)
    → get (put d k (or_else (get d k) 0 + n)) j
      ≡ (if k == j then some (or_else (get d j) 0 + n) else get d j)
add_law d k j n = rw get-put (ground (arith, eq_iff k j))

abbrev pub tables : Database
tables = record {
  State = Tables;
  url = λ s k. get s.rows k;
  urls = λ s. values s.rows;
  user_urls = λ s user. keep (λ r. is_of user r.user_id) (values s.rows);
  clicks = λ s k. get s.counts k;
  counters = λ s. s.counts;
  expired_codes = λ s now. keep (λ k. is_overdue now (get s.rows k)) (codes s.rows);
  has-expired_codes = λ s now c. overdue_law s.rows now c;
  insert = λ s r. record s { rows = put s.rows r.short_code r };
  delete = λ s k. record s { rows = remove s.rows k };
  add_clicks = λ s k n. record s { counts = put s.counts k (or_else (get s.counts k) 0 + n) };
  delete_clicks = λ s k. record s { counts = remove s.counts k };
  url-insert = λ s r j. get-put s.rows r.short_code j r;
  url-delete = λ s k j. get-remove s.rows k j;
  url-add_clicks = λ s k j n. refl;
  url-delete_clicks = λ s k j. refl;
  clicks-insert = λ s r j. refl;
  clicks-delete = λ s k j. refl;
  clicks-add_clicks = λ s k j n. add_law s.counts k j n;
  clicks-delete_clicks = λ s k j. get-remove s.counts k j;
}

-- Counters with their times to live, by key.
abbrev pub Ticks : Type 0
Ticks = String → ℕ × Option ℕ

abbrev pub tick : ℕ → ℕ × Option ℕ → ℕ × Option ℕ
tick t (n, none) = (n, none)
tick t (n, some left) = if leb left t then (0, none) else (n, some (left - t))

pub pass-tick_live :
    (x : ℕ × Option ℕ) (n t : ℕ)
    → x.1 ≡ some n
    → t < n
    → ((tick t x).0 ≡ x.0) × ((tick t x).1 ≡ some (n - t))
pass-tick_live (m, none) n t h l = cc
pass-tick_live (m, some k) n t h l = ground arith

pub pass-tick_over :
    (x : ℕ × Option ℕ) (n t : ℕ) → x.1 ≡ some n → n ≤ t → ((tick t x).0 ≡ 0) × ((tick t x).1 ≡ none)
pass-tick_over (m, none) n t h l = cc
pass-tick_over (m, some k) n t h l = ground arith

pub pass-tick_forever :
    (x : ℕ × Option ℕ) (t : ℕ) → x.1 ≡ none → ((tick t x).0 ≡ x.0) × ((tick t x).1 ≡ none)
pass-tick_forever (m, none) t h = (refl, refl)
pass-tick_forever (m, some k) t h = cc

abbrev pub start_ttl : ℕ → ℕ × Option ℕ → ℕ × Option ℕ
start_ttl n (zero, t) = (0, t)
start_ttl n (suc m, t) = (suc m, some n)

pub start-count : (n : ℕ) (x : ℕ × Option ℕ) → (start_ttl n x).0 ≡ x.0
start-count n (zero, t) = refl
start-count n (suc m, t) = refl

pub start-ttl : (n : ℕ) (x : ℕ × Option ℕ) → 0 < x.0 → (start_ttl n x).1 ≡ some n
start-ttl n (zero, t) h = absurd (omega arith)
start-ttl n (suc m, t) h = refl

pub ticks_incr :
    (s : Ticks) (k j : String)
    → (if k == j then ((s j).0 + 1, (s j).1) else s j).0 ≡ (if k == j then (s j).0 + 1 else (s j).0)
ticks_incr s k j = ground arith

pub ticks_keep :
    (s : Ticks) (k j : String) → (if k == j then ((s j).0 + 1, (s j).1) else s j).1 ≡ (s j).1
ticks_keep s k j = ground arith

pub ticks_expire :
    (s : Ticks) (k j : String) (n : ℕ)
    → 0 < n
    → (if k == j then start_ttl n (s j) else s j).0 ≡ (s j).0
ticks_expire s k j n h = ground (arith, start-count n (s j))

pub ticks_start :
    (s : Ticks) (k : String) (n : ℕ)
    → 0 < n
    → 0 < (s k).0
    → (if k == k then start_ttl n (s k) else s k).1 ≡ some n
ticks_start s k n h g = ground (arith, eq_refl k, start-ttl n (s k))

abbrev pub ticks : Counters
ticks = record {
  State = Ticks;
  count = λ s k. (s k).0;
  ttl = λ s k. (s k).1;
  incr = λ s k j. if k == j then ((s j).0 + 1, (s j).1) else s j;
  expire = λ s k n j. if k == j then start_ttl n (s j) else s j;
  pass = λ s t j. tick t (s j);
  count-incr = ticks_incr;
  ttl-incr = ticks_keep;
  count-expire = ticks_expire;
  ttl-expire = ticks_start;
  pass-live = λ s k n t. pass-tick_live (s k) n t;
  pass-over = λ s k n t. pass-tick_over (s k) n t;
  pass-forever = λ s k t. pass-tick_forever (s k) t;
}
