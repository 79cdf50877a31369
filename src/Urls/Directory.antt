-- ===== src/Urls/Directory.antt =====
-- What the URL service promises, without its cache, its counters and its pool: a directory of rows
-- by their codes, and the changes that a call may make to it.
use dist_link.Base.{
  String, ◌≡◌, ◌∙◌, ◌⊎◌, inl, inr, Option, none, some, arith, ◌==◌, eq_iff, if◌then◌else◌,
  Bool-cases,
}
use dist_link.Urls.Types.{UrlRow}

abbrev pub Directory : Type 0
Directory = String → Option UrlRow

pub data Change (s t : Directory) : Type 0 where
  keeps : ((j : String) → t j ≡ s j) → Change s t
  -- a code that was free gets a row
  adds :
      (row : UrlRow)
      → s row.short_code ≡ none
      → ((j : String) → t j ≡ (if row.short_code == j then some row else s j))
      → Change s t
  drops : (code : String) → ((j : String) → t j ≡ (if code == j then none else s j)) → Change s t
  -- a row goes over to a code that was free, with its target, its owner and its creation time
  moves :
      (code : String) (row new : UrlRow)
      → s code ≡ some row
      → s new.short_code ≡ none
      → new.original_url ≡ row.original_url
      → new.user_id ≡ row.user_id
      → new.created_at ≡ row.created_at
      → ((j : String)
          → t j ≡ (if code == j then none else (if new.short_code == j then some new else s j)))
      → Change s t

-- A change leaves a row as it is, or takes it away.
pub Change-row :
    (s t : Directory) (code : String) (row : UrlRow)
    → Change s t
    → s code ≡ some row
    → (t code ≡ some row) ⊎ (t code ≡ none)
Change-row s t code row (keeps same) there = inl (same code ∙ there)
Change-row s t code row (adds new free reads) there =
    inl (ground (arith, reads code, eq_iff new.short_code code))
Change-row s t code row (drops gone reads) there = elim (Bool-cases (gone == code)) [
  | inl same ↦ inr (ground (arith, reads code))
  | inr other ↦ inl (ground (arith, reads code))
]
Change-row s t code row (moves gone old new was free a b c reads) there =
    elim (Bool-cases (gone == code)) [
      | inl same ↦ inr (ground (arith, reads code))
      | inr other ↦ inl (ground (arith, reads code, eq_iff new.short_code code))
    ]
