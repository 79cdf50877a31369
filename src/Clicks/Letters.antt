-- ===== src/Clicks/Letters.antt =====
-- modules/clicks/click-processor.service.ts: a round of the dead letter queue takes every letter out of it.
use dist_link.Base.{
  ◌≡◌, refl, true, false, Bool, not, ◌||◌, [], ◌∷◌, keep, arith, All, ap, ◌∙◌, eq_refl, inl, inr,
  Bool-cases,
}
use dist_link.Clicks.Events.{click, analytics, Kind, same_kind, Key, same_key, Letter, Letters}
use dist_link.Clicks.DeadLetters.{may_retry, delete_letter, delete_letters}

same_kind_refl : (k : Kind) → same_kind k k ≡ true
same_kind_refl click = refl
same_kind_refl analytics = refl

same_key_refl : (k : Key) → same_key k k ≡ true
same_key_refl k = ground (arith, same_kind_refl k.kind, eq_refl k.short_code)

module _ {M : Type 0} where
  -- Whether one of the items has the key.
  abbrev named : Letters M → Key → Bool
  named [] j = false
  named ((k, l) ∷ items) j = same_key j k || named items j

  -- What stays when the letters of `items` are deleted.
  abbrev stays : Letters M → Letters M → Letters M
  stays items ls = keep (λ i. not (named items i.0)) ls

  delete_letter-stays :
      (ls : Letters M) (items : Letters M) (k : Key) (l : Letter M)
      → stays items (delete_letter ls k) ≡ stays ((k, l) ∷ items) ls
  unfolding delete_letter
  delete_letter-stays [] items k l = refl
  delete_letter-stays ((j, m) ∷ ls) items k l =
      let ih = delete_letter-stays ls items k l in
      elim (Bool-cases (same_key j k)) [
        | inl hit ↦ rw hit ih
        | inr other ↦ elim (Bool-cases (named items j)) [
          | inl gone ↦ rw (other, gone) ih
          | inr here ↦ rw (other, here) (ap (λ (rest : Letters M). (j, m) ∷ rest) ih)
        ]
      ]

  keep_all : (ls : Letters M) → ls ≡ stays [] ls
  keep_all [] = refl
  keep_all (i ∷ ls) = ap (λ (rest : Letters M). i ∷ rest) (keep_all ls)

  delete_letters-stays : (ls items : Letters M) → delete_letters ls items ≡ stays items ls
  unfolding delete_letters
  delete_letters-stays ls [] = keep_all ls
  delete_letters-stays ls ((k, l) ∷ items) =
      delete_letters-stays (delete_letter ls k) items ∙ delete_letter-stays ls items k l

  -- Every letter of the list has its key in one of two lists of items.
  abbrev Covered : (xs A B : Letters M) → Type 0
  Covered xs A B = All (λ i. named A i.0 || named B i.0 ≡ true) xs

  Covered-empty : (xs A B : Letters M) → Covered xs A B → stays B (stays A xs) ≡ []
  Covered-empty [] A B h = refl
  Covered-empty (x ∷ xs) A B (here, rest) = elim (Bool-cases (named A x.0)) [
    | inl gone ↦ rw gone (Covered-empty xs A B rest)
    | inr left ↦ rw left (rw (rw left at here) (Covered-empty xs A B rest))
  ]

  split-Covered :
      (p : Key × Letter M → Bool) (xs A B : Letters M)
      → ((j : Key) → named (keep p xs) j ≡ true → named A j ≡ true)
      → ((j : Key) → named (keep (λ i. not (p i)) xs) j ≡ true → named B j ≡ true)
      → Covered xs A B
  split-Covered p [] A B in_A in_B = tt
  split-Covered p ((k, l) ∷ xs) A B in_A in_B = elim (Bool-cases (p (k, l))) [
    | inl yes' ↦ (
      ground (arith, rw yes' at (in_A k), same_key_refl k),
      split-Covered p xs A B (λ j h. rw yes' at (in_A j) (ground (arith, h)))
          (λ j h. rw yes' at (in_B j) h),
    )
    | inr no' ↦ (
      ground (arith, rw no' at (in_B k), same_key_refl k),
      split-Covered p xs A B (λ j h. rw no' at (in_A j) h)
          (λ j h. rw no' at (in_B j) (ground (arith, h))),
    )
  ]

  -- A round deletes every letter.
  pub round-empty :
      (ls : Letters M)
      → delete_letters (delete_letters ls (keep may_retry ls)) (keep (λ i. not (may_retry i)) ls)
        ≡ []
  round-empty ls =
      let A = keep may_retry ls in
      let B = keep (λ i. not (may_retry i)) ls in
      rw (delete_letters-stays ls A, delete_letters-stays (stays A ls) B)
        (Covered-empty ls A B (split-Covered may_retry ls A B (λ j h. h) (λ j h. h)))
