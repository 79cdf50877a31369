-- ===== src/Tests/Codes.antt =====
-- The generator of codes, at concrete bytes and schedules.
use dist_link.Base.{ℕ, ◌++◌, All, String, ◌≡◌, refl, some, List, [], ◌∷◌, length}
use dist_link.ShortCode.{generate, generate_batch, run, start}
use dist_link.ShortCode.Completion.{answers, IsFresh, generate_batch_completes}
use dist_link.ShortCode.Uniqueness.{IsUnique, generate_batch-IsUnique}

abbrev six_bytes : List ℕ
six_bytes = 0 ∷ 63 ∷ 200 ∷ 25 ∷ 26 ∷ 255 ∷ []

-- The bytes 63 and 255 select no character.
generate_test : generate six_bytes ≡ "aizA"
unfolding generate
generate_test = refl

-- The second task draws the code of the first one and goes round its loop.
abbrev collision : List (ℕ × String)
collision = (1, "aa") ∷ (0, "aa") ∷ (0, "bb") ∷ []

batch_test : generate_batch 2 collision ≡ some ("bb" ∷ "aa" ∷ [])
unfolding generate_batch
batch_test = refl

generate_batch-IsUnique_example :
    IsUnique ("bb" ∷ "aa" ∷ []) × (length {A = String} ("bb" ∷ "aa" ∷ []) ≡ 2)
generate_batch-IsUnique_example = generate_batch-IsUnique 2 collision ("bb" ∷ "aa" ∷ []) batch_test

-- The batch above, stopped after its first answer, and two more answers.
codes_are_new : All (IsFresh (run (start 2) ((1, "aa") ∷ [])).generated) ("cc" ∷ "dd" ∷ [])
unfolding run start
codes_are_new = (refl, (refl, tt))

generate_batch_completes_example :
    (cs : List String) × (generate_batch 2 (((1, "aa") ∷ []) ++ answers 0 ("cc" ∷ "dd" ∷ []))
      ≡ some cs)
generate_batch_completes_example =
    generate_batch_completes 2 ((1, "aa") ∷ []) ("cc" ∷ "dd" ∷ []) refl (refl, (refl, tt))
      codes_are_new
