-- ===== src/Tests/Rows.antt =====
-- A table of accounts: a dictionary, which an index searches.
use dist_link.Base.{
  String, ◌≡◌, refl, ap, inl, inr, Bool, true, ◌&&◌, Option, none, some, List, [], ◌∷◌, arith, has,
  ◌∙◌, ◌==◌, eq_iff, eq_refl, if◌then◌else◌, Bool-cases, Option-cases,
}
use dist_link.Base.Dict.{Dict, get, put, or_else, get-put}
use dist_link.Auth.World.{UserTable, UserRow, blank}
use dist_link.Tests.Stores.{is_of}

-- The accounts, under their ids. An index reads the row of each id and checks the column.
abbrev pub is_row : (UserRow → Option String) → String → String → UserRow → Bool
is_row column value k r = r.id == k && is_of value (column r)

abbrev pub search_in :
    (UserRow → Option String) → Dict UserRow → List String → String → Option UserRow
search_in column d [] value = none
search_in column d (k ∷ ks) value =
    let rest = search_in column d ks value in
    elim (get d k) [ none ↦ rest | some r ↦ if is_row column value k r then some r else rest ]

abbrev pub keys : {V : Type 0} → Dict V → List String
keys [] = []
keys ((k, v) ∷ d) = k ∷ keys d

is_of-some : (o : Option String) (v : String) → is_of v o ≡ true → o ≡ some v
is_of-some none v h = cc
is_of-some (some u) v h = ap some ((eq_iff u v).0 h)

pub search_in_sound :
    (column : UserRow → Option String) (d : Dict UserRow) (ks : List String) (value : String)
    (r : UserRow)
    → search_in column d ks value ≡ some r
    → (get d r.id ≡ some r) × (column r ≡ some value)
search_in_sound column d [] value r h = cc
search_in_sound column d (k ∷ ks) value r h = elim (Option-cases (get d k)) [
  | inl none_there ↦ search_in_sound column d ks value r (ground arith)
  | inr (c, there) ↦ elim (Bool-cases (is_row column value k c)) [
    | inl match ↦
        let found : c ≡ r = ground arith in
        let same : c.id ≡ k = (eq_iff c.id k).0 (ground arith) in
        let held : column c ≡ some value = is_of-some (column c) value (ground arith) in
        (cc (found, same, there, ap (λ (x : UserRow). x.id) found), rw (← found) held)
    | inr other ↦ search_in_sound column d ks value r (ground arith)
  ]
]

has-keys : {V : Type 0} (d : Dict V) (k : String) (v : V) → get d k ≡ some v → has (keys d) k ≡ true
unfolding get
has-keys [] k v h = cc
has-keys ((j, w) ∷ d) k v h = ground (arith, has-keys d k v)

search_in_finds :
    (column : UserRow → Option String) (d : Dict UserRow) (ks : List String) (value : String)
    (r : UserRow)
    → has ks r.id ≡ true
    → get d r.id ≡ some r
    → column r ≡ some value
    → (q : UserRow) × (search_in column d ks value ≡ some q)
search_in_finds column d [] value r h there held = cc
search_in_finds column d (k ∷ ks) value r h there held = elim (Bool-cases (k == r.id)) [
  | inl same ↦
      let here : k ≡ r.id = (eq_iff k r.id).0 same in
      let at : get d k ≡ some r = ap (get d) here ∙ there in
      let match : is_row column value k r ≡ true =
        rw (here, eq_refl r.id, held, eq_refl value) refl in
      (r, ground (arith, at, match))
  | inr other ↦
      let (q, found) = search_in_finds column d ks value r (ground arith) there held in
      elim (Option-cases (get d k)) [
        | inl none_there ↦ (q, ground (arith, none_there, found))
        | inr (c, at) ↦ elim (Bool-cases (is_row column value k c)) [
          | inl match ↦ (c, ground (arith, at, match))
          | inr differs ↦ (q, ground (arith, at, differs, found))
        ]
      ]
]

pub search_in_complete :
    (column : UserRow → Option String) (d : Dict UserRow) (value : String) (r : UserRow)
    → get d r.id ≡ some r
    → column r ≡ some value
    → (q : UserRow) × (search_in column d (keys d) value ≡ some q)
search_in_complete column d value r there held =
    search_in_finds column d (keys d) value r (has-keys d r.id r there) there held

abbrev pub accounts : UserTable
accounts = record {
  State = Dict UserRow;
  by_id = get;
  by_email = λ s e. search_in (λ r. r.email) s (keys s) e;
  by_google_id = λ s g. search_in (λ r. r.google_id) s (keys s) g;
  insert = λ s r. put s r.id r;
  update = λ s k f. put s k (f (or_else (get s k) (blank k)));
  by_id-insert = λ s r j. get-put s r.id j r;
  by_id-update = λ s k j f. get-put s k j (f (or_else (get s k) (blank k)));
  by_email-by_id = λ s e r. search_in_sound (λ r. r.email) s (keys s) e r;
  by_google_id-by_id = λ s g r. search_in_sound (λ r. r.google_id) s (keys s) g r;
  by_email-complete = λ s e r. search_in_complete (λ r. r.email) s e r;
  by_google_id-complete = λ s g r. search_in_complete (λ r. r.google_id) s g r;
}
