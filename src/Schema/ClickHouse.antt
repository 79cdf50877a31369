-- ===== src/Schema/ClickHouse.antt =====
-- modules/clickhouse/clickhouse.service.ts: `ClickHouseService`.
use dist_link.Base.{String, true, false, Option, none, some, List, [], ◌∷◌}
use dist_link.Base.Exec.{Exec, pure, throw, modify, try_catch, ◌>>◌}
use dist_link.Schema.{Server, Host, Client, Table, Statement, make_table, call, run_statements}

-- A table of the same name as one of ScyllaDB, with other columns.
abbrev pub click_log : Table
click_log = record {
  columns =
      ("short_code", "String")
      ∷ ("click_time", "DateTime")
      ∷ ("ip_address", "String")
      ∷ ("user_agent", "String")
      ∷ [];
  key = "short_code" ∷ "click_time" ∷ [];
}

abbrev pub click_log_schema : List Statement
click_log_schema = make_table "link_click_events" click_log ∷ []

module _ {server : Server} where
  unfoldable pub create_database : String → Exec (Host server) Unit
  unfolding call
  create_database database = call (λ w. record w { store = server.create_space w.store database })

  unfoldable pub create_tables : Exec (Host server) Unit
  unfolding run_statements
  create_tables = run_statements click_log_schema

  -- `createClient`, which makes no call
  abbrev pub client_for : Option String → Host server → Host server
  client_for database w = record w {
    client = some (record { open_connection = true; space = database });
  }

  -- `ping` has no effect, and its answer is not read.
  unfoldable pub on_module_init : String → Exec (Host server) Unit
  unfolding call create_database create_tables
  on_module_init database = do
    modify (client_for none)
    try_catch
        (do
          call (λ w. w)
          create_database database
          modify (client_for (some database))
          create_tables)
        (λ e. throw e)

  abbrev pub close : Option Client → Exec (Host server) Unit
  close none = pure tt
  close (some c) = call (λ w. record w { client = some (record c { open_connection = false }) })

  unfoldable pub on_module_destroy : Exec (Host server) Unit
  unfolding call
  on_module_destroy w = close w.client w
