-- ===== src/Schema/Scylla.antt =====
-- modules/database/database.service.ts: `DatabaseService`.
use dist_link.Base.{String, true, false, Option, none, some, List, [], ◌∷◌}
use dist_link.Base.Exec.{Exec, pure, throw, gets, modify, try_catch, ◌>>◌}
use dist_link.Schema.{
  Server, Host, Client, Table, Statement, make_table, make_index, call, run_statements, use_space,
}

abbrev pub link_urls : Table
link_urls = record {
  columns =
      ("short_code", "text")
      ∷ ("original_url", "text")
      ∷ ("user_id", "uuid")
      ∷ ("created_at", "timestamp")
      ∷ ("expires_at", "timestamp")
      ∷ [];
  key = "short_code" ∷ [];
}

abbrev pub link_click_counter : Table
link_click_counter = record {
  columns = ("short_code", "text") ∷ ("clicks", "counter") ∷ [];
  key = "short_code" ∷ [];
}

abbrev pub link_users : Table
link_users = record {
  columns =
      ("id", "uuid")
      ∷ ("email", "text")
      ∷ ("password", "text")
      ∷ ("full_name", "text")
      ∷ ("is_active", "boolean")
      ∷ ("google_id", "text")
      ∷ ("created_at", "timestamp")
      ∷ ("updated_at", "timestamp")
      ∷ [];
  key = "id" ∷ [];
}

abbrev pub link_click_events : Table
link_click_events = record {
  columns =
      ("link_id", "text")
      ∷ ("click_id", "uuid")
      ∷ ("ip_address", "text")
      ∷ ("country", "text")
      ∷ ("clicked_at", "timestamp")
      ∷ ("user_agent", "text")
      ∷ [];
  key = "link_id" ∷ "clicked_at" ∷ "click_id" ∷ [];
}

abbrev pub link_click_stats : Table
link_click_stats = record {
  columns =
      ("link_id", "text")
      ∷ ("count_date", "date")
      ∷ ("country", "text")
      ∷ ("click_count", "counter")
      ∷ [];
  key = "link_id" ∷ "count_date" ∷ "country" ∷ [];
}

abbrev pub schema : List Statement
schema =
    make_table "link_urls" link_urls
    ∷ make_index "link_urls_user_id_idx" (record { table = "link_urls"; column = "user_id" })
    ∷ make_table "link_click_counter" link_click_counter
    ∷ make_table "link_users" link_users
    ∷ make_index "link_users_email_idx" (record { table = "link_users"; column = "email" })
    ∷ make_index "link_users_google_id_idx" (record { table = "link_users"; column = "google_id" })
    ∷ make_table "link_click_events" link_click_events
    ∷ make_table "link_click_stats" link_click_stats
    ∷ []

module _ {server : Server} where
  unfoldable pub initialize_tables : Exec (Host server) Unit
  unfolding run_statements
  initialize_tables = try_catch (run_statements schema) (λ e. throw e)

  unfoldable pub create_keyspace : String → Exec (Host server) Unit
  unfolding call initialize_tables
  create_keyspace keyspace = do
    call (λ w. record w { store = server.create_space w.store keyspace })
    call (use_space keyspace)
    initialize_tables

  abbrev pub new_client : Host server → Host server
  new_client w = record w { client = some (record { open_connection = false; space = none }) }

  abbrev pub opened : Host server → Host server
  opened w = record w { client = some (record { open_connection = true; space = none }) }

  -- `connect`, then the keyspace and the tables; an error is thrown again.
  unfoldable pub on_module_init : String → Exec (Host server) Unit
  unfolding call create_keyspace
  on_module_init keyspace = do
    modify new_client
    try_catch (do call opened; create_keyspace keyspace) (λ e. throw e)

  unfoldable pub get_client : Exec (Host server) (Option Client)
  get_client = gets (λ w. w.client)

  abbrev pub shut_down : Option Client → Exec (Host server) Unit
  shut_down none = pure tt
  shut_down (some c) = call (λ w. record w { client = some (record c { open_connection = false }) })

  unfoldable pub on_module_destroy : Exec (Host server) Unit
  unfolding call
  on_module_destroy w = shut_down w.client w
