-- ===== src/Schema/Start.antt =====
-- modules/database/database.service.ts: what the start of `DatabaseService` leaves on the server.
use dist_link.Base.{
  String, ◌≡◌, refl, ap, ◌∙◌, ◌⊎◌, inl, inr, Bool, ◌||◌, List, [], ◌==◌, Bool-cases,
}
use dist_link.Base.Exec.{generic, Result, ok, err, Exec, recover, try_catch, throw, ◌>>◌}
use dist_link.Base.Faults.{next_fails, later}
use dist_link.Schema.{Server, Host, call, run_statements}
use dist_link.Schema.Statements.{
  IsPartly, broken-IsPartly, working, run_statements-IsPartly, run_statements-calm,
}
use dist_link.Schema.Scylla.{
  new_client, opened, schema, initialize_tables, create_keyspace, on_module_init,
}

-- To catch an error and throw it again is not to catch it.
rethrow_lem : {S A : Type 0} (m : Exec S A) (s : S) → try_catch m (λ e. throw e) s ≡ m s
rethrow_lem {S} {A} m s = rethrown (m s).0 (m s).1
  where
    rethrown : (r : Result A) (t : S) → recover r t (λ e. throw e) ≡ (r, t)
    rethrown (ok a) t = refl
    rethrown (err e) t = refl

module _ (server : Server) where
  -- A start has made the keyspace or not, and in it a first part of the tables and indexes.
  pub record IsBegun (space : String) (r : Result (Unit {0})) (s t : server.State) : Type 0 where
    pub middle : server.State
    pub tables : (j m : String) → server.table middle j m ≡ server.table s j m
    pub indexes : (j m : String) → server.index middle j m ≡ server.index s j m
    pub spaces :
        ((j : String) → server.has_space middle j ≡ server.has_space s j)
        ⊎ ((j : String) → server.has_space middle j ≡ (space == j || server.has_space s j))
    pub partly : IsPartly server space schema r middle t
    pub through :
        r ≡ ok tt → (j : String) → server.has_space middle j ≡ (space == j || server.has_space s j)

  refused-IsBegun : (space : String) (s : server.State) → IsBegun space (err generic) s s
  refused-IsBegun space s = record {
    middle = s;
    tables = λ j m. refl;
    indexes = λ j m. refl;
    spaces = inl (λ j. refl);
    partly = broken-IsPartly server space schema generic s;
    through = λ h. cc h;
  }

  created-IsBegun :
      (space : String) (r : Result (Unit {0})) (s t : server.State)
      → IsPartly server space schema r (server.create_space s space) t
      → IsBegun space r s t
  created-IsBegun space r s t h = record {
    middle = server.create_space s space;
    tables = λ j m. server.table-create_space s space j m;
    indexes = λ j m. server.index-create_space s space j m;
    spaces = inr (λ j. server.has_space-create_space s space j);
    partly = h;
    through = λ _ j. server.has_space-create_space s space j;
  }

module _ {server : Server} where
  tables_step :
      (space : String) (s : server.State) (faults : List Bool)
      → initialize_tables (working server space s faults)
        ≡ run_statements schema (working server space s faults)
  unfolding initialize_tables
  tables_step space s faults = rethrow_lem (run_statements schema) (working server space s faults)

  keyspace_step :
      (space : String) (w : Host server)
      → IsBegun server space (create_keyspace space w).0 w.store (create_keyspace space w).1.store
  unfolding create_keyspace call
  keyspace_step space w = elim (Bool-cases (next_fails w.faults)) [
    | inl fails ↦ rw fails (refused-IsBegun server space w.store)
    | inr works ↦ elim (Bool-cases (next_fails (later w.faults))) [
      | inl fails ↦
          rw (works, fails)
            (created-IsBegun server space (err generic) w.store (server.create_space w.store space)
              (broken-IsPartly server space schema generic (server.create_space w.store space)))
      | inr works' ↦
          let made = server.create_space w.store space in
          let rest = later (later w.faults) in
          let run =
            run_statements-IsPartly server space schema (working server space made rest) refl in
          rw (works, works', tables_step space made rest)
            (created-IsBegun server space (run_statements schema (working server space made rest)).0
              w.store (run_statements schema (working server space made rest)).1.store run)
    ]
  ]

  init_step :
      (space : String) (w : Host server)
      → on_module_init space w ≡ (call opened >> create_keyspace space) (new_client w)
  unfolding on_module_init
  init_step space w = rethrow_lem (call opened >> create_keyspace space) (new_client w)

  -- A start begins the tables, whatever calls fail.
  pub on_module_init-IsBegun :
      (space : String) (w : Host server)
      → IsBegun server space (on_module_init space w).0 w.store (on_module_init space w).1.store
  on_module_init-IsBegun space w =
      let after : Host server = record (opened w) { faults = later w.faults } in
      let go = keyspace_step space after in
      elim (Bool-cases (next_fails w.faults)) [
        | inl fails ↦
            rw (init_step space w) (unfold call in rw fails (refused-IsBegun server space w.store))
        | inr works ↦ rw (init_step space w) (unfold call in rw works go)
      ]

  keyspace-calm :
      (space : String) (w : Host server) → w.faults ≡ [] → (create_keyspace space w).0 ≡ ok tt
  unfolding create_keyspace call
  keyspace-calm space w quiet =
      let made = server.create_space w.store space in
      let same : initialize_tables (working server space made [])
          ≡ run_statements schema (working server space made []) =
        tables_step space made [] in
      let done = run_statements-calm server space schema (working server space made []) refl refl in
      rw quiet (ap (λ (r : Result (Unit {0}) × Host server). r.0) same ∙ done)

  pub on_module_init-calm :
      (space : String) (w : Host server) → w.faults ≡ [] → (on_module_init space w).0 ≡ ok tt
  on_module_init-calm space w quiet =
      let after : Host server = record (opened w) { faults = [] } in
      let go = keyspace-calm space after refl in rw (init_step space w) (unfold call in rw quiet go)
