-- ===== src/Schema.antt =====
-- modules/database and modules/clickhouse: the tables that the services make at their start. A server is a
-- parameter, with what the documentation says of CREATE ... IF NOT EXISTS.
use dist_link.Base.{
  String, ◌≡◌, Bool, true, ◌&&◌, ◌||◌, Option, none, some, List, [], ◌∷◌, ◌==◌, if◌then◌else◌,
}
use dist_link.Base.Dict.{or_else}
use dist_link.Base.Exec.{generic, ok, err, Exec, pure, throw, modify, ◌>>=◌, ◌>>◌}
use dist_link.Base.Faults.{next_fails, later}
pub mod Scylla
pub mod ClickHouse
pub mod Statements
pub mod Start
pub mod Restart

-- The columns with their types, and the key.
pub record Table : Type 0 where
  pub columns : List (String × String)
  pub key : List String

-- The table and the column of an index.
pub record Index : Type 0 where
  pub table : String
  pub column : String

abbrev pub first : {A : Type 0} → Option A → Option A → Option A
first none b = b
first (some a) b = some a

-- Keyspaces of ScyllaDB, databases of ClickHouse; what is there is kept by a CREATE.
pub record Server : Type 1 where
  pub State : Type 0
  pub has_space : State → String → Bool
  pub table : State → (space name : String) → Option Table
  pub index : State → (space name : String) → Option Index
  pub create_space : State → String → State
  pub create_table : State → (space name : String) → Table → State
  pub create_index : State → (space name : String) → Index → State
  pub has_space-create_space :
      (s : State) (k j : String) → has_space (create_space s k) j ≡ (k == j || has_space s j)
  pub has_space-create_table :
      (s : State) (k n : String) (t : Table) (j : String)
      → has_space (create_table s k n t) j ≡ has_space s j
  pub has_space-create_index :
      (s : State) (k n : String) (x : Index) (j : String)
      → has_space (create_index s k n x) j ≡ has_space s j
  pub table-create_space : (s : State) (k j m : String) → table (create_space s k) j m ≡ table s j m
  pub table-create_table :
      (s : State) (k n : String) (t : Table) (j m : String)
      → table (create_table s k n t) j m
        ≡ (if k == j && n == m then first (table s j m) (some t) else table s j m)
  pub table-create_index :
      (s : State) (k n : String) (x : Index) (j m : String)
      → table (create_index s k n x) j m ≡ table s j m
  pub index-create_space : (s : State) (k j m : String) → index (create_space s k) j m ≡ index s j m
  pub index-create_table :
      (s : State) (k n : String) (t : Table) (j m : String)
      → index (create_table s k n t) j m ≡ index s j m
  pub index-create_index :
      (s : State) (k n : String) (x : Index) (j m : String)
      → index (create_index s k n x) j m
        ≡ (if k == j && n == m then first (index s j m) (some x) else index s j m)

-- A client that the service has made, and the keyspace or the database that it works in.
pub record Client : Type 0 where
  pub open_connection : Bool
  pub space : Option String

-- A service over a server. Each call consumes the next outcome of a script.
pub record Host (server : Server) : Type 0 where
  pub store : server.State
  pub client : Option Client
  pub faults : List Bool

module _ {server : Server} where
  unfoldable pub call : (Host server → Host server) → Exec (Host server) Unit
  call f w =
      if next_fails w.faults
      then (err generic, record w { faults = later w.faults })
      else (ok tt, record (f w) { faults = later w.faults })

-- The statements of a start, in a keyspace or a database.
pub data Statement : Type 0 where
  make_table : (name : String) → Table → Statement
  make_index : (name : String) → Index → Statement

abbrev pub effect : (server : Server) → Statement → String → server.State → server.State
effect server (make_table name t) space s = server.create_table s space name t
effect server (make_index name x) space s = server.create_index s space name x

module _ {server : Server} where
  -- A statement without a keyspace is refused.
  abbrev pub in_space : Option Client → (String → Exec (Host server) Unit) → Exec (Host server) Unit
  in_space none f = throw generic
  in_space (some c) f = elim c.space [ none ↦ throw generic | some space ↦ f space ]

  unfoldable pub run_statement : Statement → Exec (Host server) Unit
  unfolding call
  run_statement st w =
      in_space w.client (λ space. call (λ v. record v { store = effect server st space v.store })) w

  -- Awaited one after the other, up to the first that fails.
  unfoldable pub run_statements : List Statement → Exec (Host server) Unit
  unfolding run_statement
  run_statements [] = pure tt
  run_statements (st ∷ rest) = do run_statement st; run_statements rest

  abbrev pub use_space : String → Host server → Host server
  use_space space w = record w {
    client = some (record { open_connection = true; space = some space });
  }
