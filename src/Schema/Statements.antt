-- ===== src/Schema/Statements.antt =====
-- What a list of CREATE statements leaves on the server.
use dist_link.Base.{
  String, ◌≡◌, refl, ◌∙◌, Bool, true, false, Option, none, some, List, [], ◌∷◌, ◌++◌, ap, ◌==◌,
  if◌then◌else◌, Bool-cases, inl, inr, arith,
}
use dist_link.Base.Exec.{Result, ok, err, Error, generic}
use dist_link.Base.Faults.{next_fails, later}
use dist_link.Schema.{
  Table, Index, Server, Host, Statement, make_table, make_index, first, effect, call, run_statement,
  run_statements,
}

-- The table, or the index, that a list of statements makes under a name.
abbrev pub table_of : List Statement → String → Option Table
table_of [] m = none
table_of (make_table n t ∷ rest) m = if n == m then some t else table_of rest m
table_of (make_index n x ∷ rest) m = table_of rest m

abbrev pub index_of : List Statement → String → Option Index
index_of [] m = none
index_of (make_table n t ∷ rest) m = index_of rest m
index_of (make_index n x ∷ rest) m = if n == m then some x else index_of rest m

abbrev pub within : {A : Type 0} → Bool → Option A → Option A
within true a = a
within false a = none

module _ (server : Server) where
  -- The keyspace holds what it held, and what the statements make; nothing else is there.
  pub record IsMade (space : String) (sts : List Statement) (s t : server.State) : Type 0 where
    pub tables :
        (j m : String)
        → server.table t j m ≡ first (server.table s j m) (within (space == j) (table_of sts m))
    pub indexes :
        (j m : String)
        → server.index t j m ≡ first (server.index s j m) (within (space == j) (index_of sts m))
    pub spaces : (j : String) → server.has_space t j ≡ server.has_space s j

  IsMade-nil : (space : String) (s : server.State) → IsMade space [] s s
  IsMade-nil space s = record {
    tables = λ j m. ground arith;
    indexes = λ j m. ground arith;
    spaces = λ j. refl;
  }

  IsMade-cons :
      (space : String) (st : Statement) (rest : List Statement) (s t : server.State)
      → IsMade space rest (effect server st space s) t
      → IsMade space (st ∷ rest) s t
  IsMade-cons space (make_table n x) rest s t h = record {
    tables = λ j m. ground (arith, h.tables j m, server.table-create_table s space n x j m);
    indexes = λ j m. ground (arith, h.indexes j m, server.index-create_table s space n x j m);
    spaces = λ j. h.spaces j ∙ server.has_space-create_table s space n x j;
  }
  IsMade-cons space (make_index n x) rest s t h = record {
    tables = λ j m. ground (arith, h.tables j m, server.table-create_index s space n x j m);
    indexes = λ j m. ground (arith, h.indexes j m, server.index-create_index s space n x j m);
    spaces = λ j. h.spaces j ∙ server.has_space-create_index s space n x j;
  }

  -- What a list of statements has done when it is broken off, or is through: a first part of it.
  pub record IsPartly (space : String) (sts : List Statement) (r : Result (Unit {0}))
      (s t : server.State) : Type 0 where
    pub made : List Statement
    pub left : List Statement
    pub parts : made ++ left ≡ sts
    pub is_made : IsMade space made s t
    pub through : r ≡ ok tt → left ≡ []

  IsPartly-cons :
      (space : String) (st : Statement) (rest : List Statement) (r : Result (Unit {0}))
      (s t : server.State)
      → IsPartly space rest r (effect server st space s) t
      → IsPartly space (st ∷ rest) r s t
  IsPartly-cons space st rest r s t h = record {
    made = st ∷ h.made;
    left = h.left;
    parts = ap (λ (sts : List Statement). st ∷ sts) h.parts;
    is_made = IsMade-cons space st h.made s t h.is_made;
    through = h.through;
  }

  pub broken-IsPartly :
      (space : String) (sts : List Statement) (e : Error) (s : server.State)
      → IsPartly space sts (err e) s s
  broken-IsPartly space sts e s = record {
    made = [];
    left = sts;
    parts = refl;
    is_made = IsMade-nil space s;
    through = λ h. cc h;
  }

  empty-IsPartly : (space : String) (s : server.State) → IsPartly space [] (ok tt) s s
  empty-IsPartly space s = record {
    made = [];
    left = [];
    parts = refl;
    is_made = IsMade-nil space s;
    through = λ h. refl;
  }

  abbrev pub working : String → server.State → List Bool → Host server
  working space s faults = record {
    store = s;
    client = some (record { open_connection = true; space = some space });
    faults = faults;
  }

  -- The client of a site works in the keyspace.
  abbrev pub WorksIn : String → Host server → Type 0
  WorksIn space w = w.client ≡ some (record { open_connection = true; space = some space })

  pub run_statements-IsPartly :
      (space : String) (sts : List Statement) (w : Host server)
      → WorksIn space w
      → IsPartly space sts (run_statements sts w).0 w.store (run_statements sts w).1.store
  unfolding run_statements run_statement call
  run_statements-IsPartly space [] w h = empty-IsPartly space w.store
  run_statements-IsPartly space (st ∷ rest) w h =
      let next = working space (effect server st space w.store) (later w.faults) in
      let ih = run_statements-IsPartly space rest next refl in
      elim (Bool-cases (next_fails w.faults)) [
        | inl fails ↦ rw (h, fails) (broken-IsPartly space (st ∷ rest) generic w.store)
        | inr works ↦
            rw (h, works)
              (IsPartly-cons space st rest (run_statements rest next).0 w.store
                (run_statements rest next).1.store ih)
      ]

  pub run_statements-calm :
      (space : String) (sts : List Statement) (w : Host server)
      → WorksIn space w
      → w.faults ≡ []
      → (run_statements sts w).0 ≡ ok tt
  unfolding run_statements run_statement call
  run_statements-calm space [] w h quiet = refl
  run_statements-calm space (st ∷ rest) w h quiet =
      let next = working space (effect server st space w.store) [] in
      rw (h, quiet) (run_statements-calm space rest next refl refl)
