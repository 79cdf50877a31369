-- ===== src/Tests/Servers.antt =====
-- The theorems on the start of `DatabaseService`, over a server that keeps its tables in functions.
use dist_link.Base.{
  String, ◌≡◌, refl, Bool, true, false, ◌||◌, ◌&&◌, Option, none, some, [], ◌∷◌, ◌==◌,
  if◌then◌else◌,
}
use dist_link.Base.Exec.{ok, err, generic}
use dist_link.Schema.{Table, Index, Server, Host, first, call, run_statements, run_statement}
use dist_link.Schema.Statements.{within}
use dist_link.Schema.Scylla.{link_users, on_module_init, create_keyspace, initialize_tables}
use dist_link.Schema.Start.{on_module_init-calm}
use dist_link.Schema.Restart.{
  undisturbed, promised_table, promised_index, start_makes_schema, restart_repairs,
}

record Shelves : Type 0 where
  spaces : String → Bool
  tables : String → String → Option Table
  indexes : String → String → Option Index

abbrev shelves : Server
shelves = record {
  State = Shelves;
  has_space = λ s k. s.spaces k;
  table = λ s k n. s.tables k n;
  index = λ s k n. s.indexes k n;
  create_space = λ s k. record s { spaces = λ j. k == j || s.spaces j };
  create_table = λ s k n t. record s {
    tables = λ j m. if k == j && n == m then first (s.tables j m) (some t) else s.tables j m;
  };
  create_index = λ s k n x. record s {
    indexes = λ j m. if k == j && n == m then first (s.indexes j m) (some x) else s.indexes j m;
  };
  has_space-create_space = λ s k j. refl;
  has_space-create_table = λ s k n t j. refl;
  has_space-create_index = λ s k n x j. refl;
  table-create_space = λ s k j m. refl;
  table-create_table = λ s k n t j m. refl;
  table-create_index = λ s k n x j m. refl;
  index-create_space = λ s k j m. refl;
  index-create_table = λ s k n t j m. refl;
  index-create_index = λ s k n x j m. refl;
}

abbrev bare : Host shelves
bare = record {
  store = record { spaces = λ k. false; tables = λ k n. none; indexes = λ k n. none };
  client = none;
  faults = [];
}

-- The statement after the table of the users fails.
abbrev unlucky : Host shelves
unlucky = record bare { faults = false ∷ false ∷ false ∷ false ∷ false ∷ false ∷ false ∷ true ∷ [] }

unlucky_breaks :
    ((on_module_init "links" unlucky).0 ≡ err generic)
    × ((on_module_init "links" unlucky).1.store.tables "links" "link_users" ≡ some link_users)
    × ((on_module_init "links" unlucky).1.store.tables "links" "link_click_stats" ≡ none)
unfolding on_module_init create_keyspace initialize_tables run_statements run_statement call
unlucky_breaks = (refl, refl, refl)

start_makes_schema_example :
    ((j m : String)
      → (on_module_init "links" bare).1.store.tables j m
        ≡ first none (within ("links" == j) (promised_table m)))
    × ((j m : String)
        → (on_module_init "links" bare).1.store.indexes j m
          ≡ first none (within ("links" == j) (promised_index m)))
    × ((j : String) → (on_module_init "links" bare).1.store.spaces j ≡ ("links" == j || false))
start_makes_schema_example = start_makes_schema "links" bare (on_module_init-calm "links" bare refl)

restart_repairs_example :
    ((on_module_init "links" (undisturbed (on_module_init "links" unlucky).1)).0 ≡ ok tt)
    × ((j m : String)
        → (on_module_init "links" (undisturbed (on_module_init "links" unlucky).1)).1.store.tables j
            m
          ≡ (on_module_init "links" (undisturbed unlucky)).1.store.tables j m)
    × ((j m : String)
        → (on_module_init "links" (undisturbed (on_module_init "links" unlucky).1)).1.store.indexes
            j m
          ≡ (on_module_init "links" (undisturbed unlucky)).1.store.indexes j m)
    × ((j : String)
        → (on_module_init "links" (undisturbed (on_module_init "links" unlucky).1)).1.store.spaces j
          ≡ (on_module_init "links" (undisturbed unlucky)).1.store.spaces j)
restart_repairs_example = restart_repairs "links" unlucky
