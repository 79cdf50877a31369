-- ===== src/Auth/Writes.antt =====
-- What a write of the services does to the accounts, and what no write breaks.
use dist_link.Base.{
  String, ◌≡◌, refl, sym, ap, ◌∙◌, ◌≢◌, ◌⊎◌, inl, inr, true, Option, none, some, ◌==◌, eq_iff,
  if◌then◌else◌, Bool-cases, Option-cases,
}
use dist_link.Base.Dict.{or_else}
use dist_link.Auth.World.{UserRow, blank, UserTable}

module _ (users : UserTable) where
  -- No account has the value in the column.
  abbrev pub IsFree : (UserRow → Option String) → users.State → String → Type 0
  IsFree column s e = (i : String) (r : UserRow) → users.by_id s i ≡ some r → column r ≢ some e

  -- A new value of a column is free.
  abbrev pub IsAllowed : (UserRow → Option String) → users.State → (old new : UserRow) → Type 0
  IsAllowed column s old new =
      (e : String) → column new ≡ some e → (column old ≡ some e) ⊎ IsFree column s e

  -- One row is written: its id and its email stay, a new email or Google id is free, and an active
  -- account stays active.
  pub record Write (s s' : users.State) : Type 0 where
    pub target : String
    pub row : UserRow
    pub written :
        (j : String) → users.by_id s' j ≡ (if target == j then some row else users.by_id s j)
    pub id_kept : row.id ≡ (or_else (users.by_id s target) (blank target)).id
    pub email_kept :
        (e : String)
        → (or_else (users.by_id s target) (blank target)).email ≡ some e
        → row.email ≡ some e
    pub active_kept :
        (or_else (users.by_id s target) (blank target)).is_active ≡ true → row.is_active ≡ true
    pub email_allowed :
        IsAllowed (λ r. r.email) s (or_else (users.by_id s target) (blank target)) row
    pub google_allowed :
        IsAllowed (λ r. r.google_id) s (or_else (users.by_id s target) (blank target)) row

  pub data Evolves (s : users.State) : users.State → Type 0 where
    stays : Evolves s s
    writes : {t s' : users.State} → Evolves s t → Write t s' → Evolves s s'

  pub evolves_trans : (s t u : users.State) → Evolves s t → Evolves t u → Evolves s u
  evolves_trans s t u e stays = e
  evolves_trans s t u e (writes {t = v} f w) = writes (evolves_trans s t v e f) w

  -- Each value of the column stands in one account.
  abbrev pub IsUnique : (UserRow → Option String) → users.State → Type 0
  IsUnique column s =
      (i j : String) (r q : UserRow) (e : String)
      → users.by_id s i ≡ some r
      → users.by_id s j ≡ some q
      → column r ≡ some e
      → column q ≡ some e
      → i ≡ j

  abbrev pub IsKeyed : users.State → Type 0
  IsKeyed s = (i : String) (r : UserRow) → users.by_id s i ≡ some r → r.id ≡ i

  -- Every account is under its own id, and no two share an email or a Google id.
  pub record IsSound (s : users.State) : Type 0 where
    pub keyed : IsKeyed s
    pub emails : IsUnique (λ r. r.email) s
    pub googles : IsUnique (λ r. r.google_id) s

  abbrev old_row : users.State → String → UserRow
  old_row s k = or_else (users.by_id s k) (blank k)

  old_row-id : (s : users.State) (k : String) → IsKeyed s → (old_row s k).id ≡ k
  old_row-id s k h = elim (Option-cases (users.by_id s k)) [
    | inl absent ↦ rw absent refl
    | inr (r, there) ↦ rw there (h k r there)
  ]

  -- The value of the written row stands in no other row.
  written-clash :
      (column : UserRow → Option String) (s : users.State) (k : String) (new : UserRow) (j : String)
      (q : UserRow) (e : String)
      → ((i : String) → column (blank i) ≡ none)
      → IsUnique column s
      → IsAllowed column s (old_row s k) new
      → users.by_id s j ≡ some q
      → column new ≡ some e
      → column q ≡ some e
      → k ≡ j
  written-clash column s k new j q e empty unique allowed there held same = elim (allowed e held) [
    | inr free ↦ absurd (free j q there same)
    | inl old ↦ elim (Option-cases (users.by_id s k)) [
      | inl absent ↦ cc (rw absent at old, empty k)
      | inr (r, here) ↦ unique k j r q e here there (rw here at old) same
    ]
  ]

  -- A column stays unique under a write that only puts free values into it.
  Write-IsUnique :
      (column : UserRow → Option String) (s s' : users.State) (w : Write s s')
      → ((i : String) → column (blank i) ≡ none)
      → IsUnique column s
      → IsAllowed column s (old_row s w.target) w.row
      → IsUnique column s'
  Write-IsUnique column s s' w empty unique allowed i j r q e at_i at_j held same =
      let wi = sym (w.written i) ∙ at_i in
      let wj = sym (w.written j) ∙ at_j in
      elim (Bool-cases (w.target == i)) [
        | inl hit_i ↦
            let here : w.row ≡ r = cc (rw hit_i at wi) in
            elim (Bool-cases (w.target == j)) [
              | inl hit_j ↦ sym ((eq_iff w.target i).0 hit_i) ∙ (eq_iff w.target j).0 hit_j
              | inr other_j ↦
                  sym ((eq_iff w.target i).0 hit_i)
                  ∙ written-clash column s w.target w.row j q e empty unique allowed
                      (rw other_j at wj) (ap column here ∙ held) same
            ]
        | inr other_i ↦ elim (Bool-cases (w.target == j)) [
          | inl hit_j ↦
              let here : w.row ≡ q = cc (rw hit_j at wj) in
              sym (
                written-clash column s w.target w.row i r e empty unique allowed (rw other_i at wi)
                  (ap column here ∙ same) held)
              ∙ (eq_iff w.target j).0 hit_j
          | inr other_j ↦ unique i j r q e (rw other_i at wi) (rw other_j at wj) held same
        ]
      ]

  Write-IsKeyed : (s s' : users.State) → Write s s' → IsKeyed s → IsKeyed s'
  Write-IsKeyed s s' w h j r at_j =
      let wj = sym (w.written j) ∙ at_j in
      elim (Bool-cases (w.target == j)) [
        | inl hit ↦
            let here : w.row ≡ r = cc (rw hit at wj) in
            ap (λ (x : UserRow). x.id) (sym here)
            ∙ w.id_kept
            ∙ old_row-id s w.target h
            ∙ (eq_iff w.target j).0 hit
        | inr other ↦ h j r (rw other at wj)
      ]

  pub Write-IsSound : (s s' : users.State) → Write s s' → IsSound s → IsSound s'
  Write-IsSound s s' w h = record {
    keyed = Write-IsKeyed s s' w h.keyed;
    emails = Write-IsUnique (λ r. r.email) s s' w (λ i. refl) h.emails w.email_allowed;
    googles = Write-IsUnique (λ r. r.google_id) s s' w (λ i. refl) h.googles w.google_allowed;
  }

  -- What an account keeps: it is there, with its email, and active if it was.
  abbrev pub IsKept : UserRow → Option UserRow → Type 0
  IsKept r now =
      (q : UserRow) × (now ≡ some q)
      × ((e : String) → r.email ≡ some e → q.email ≡ some e)
      × (r.is_active ≡ true → q.is_active ≡ true)

  pub Write-IsKept :
      (s s' : users.State) (j : String) (r : UserRow)
      → Write s s'
      → users.by_id s j ≡ some r
      → IsKept r (users.by_id s' j)
  Write-IsKept s s' j r w there = elim (Bool-cases (w.target == j)) [
    | inl hit ↦
        let at : users.by_id s w.target ≡ some r =
          ap (users.by_id s) ((eq_iff w.target j).0 hit) ∙ there in
        (w.row, rw (w.written j, hit) refl, rw at at w.email_kept, rw at at w.active_kept)
    | inr other ↦ (r, rw (w.written j, other) there, λ e h. h, λ h. h)
  ]

  -- An email that no account is found by is no account's, and so with a Google id.
  pub by_email-IsFree :
      (s : users.State) (e : String)
      → IsKeyed s
      → users.by_email s e ≡ none
      → IsFree (λ r. r.email) s e
  by_email-IsFree s e keyed unknown i r there held =
      let here : users.by_id s r.id ≡ some r = ap (users.by_id s) (keyed i r there) ∙ there in
      let (q, found) = users.by_email-complete s e r here held in cc (unknown, found)

  pub by_google_id-IsFree :
      (s : users.State) (g : String)
      → IsKeyed s
      → users.by_google_id s g ≡ none
      → IsFree (λ r. r.google_id) s g
  by_google_id-IsFree s g keyed unknown i r there held =
      let here : users.by_id s r.id ≡ some r = ap (users.by_id s) (keyed i r there) ∙ there in
      let (q, found) = users.by_google_id-complete s g r here held in cc (unknown, found)
