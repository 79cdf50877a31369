-- ===== src/Schema/Restart.antt =====
-- modules/database/database.service.ts: what a start of `DatabaseService` makes, and a second start after one
-- that broke off.
use dist_link.Base.{
  String, ◌≡◌, refl, sym, ap, ◌∙◌, Bool, true, false, ◌||◌, Option, none, some, List, [], ◌∷◌, ◌++◌,
  ◌==◌, if◌then◌else◌, arith, inl, inr,
}
use dist_link.Base.Exec.{ok}
use dist_link.Schema.{Table, Index, Server, Host, Statement, make_table, make_index, first}
use dist_link.Schema.Statements.{table_of, index_of, within}
use dist_link.Schema.Scylla.{
  link_urls, link_click_counter, link_users, link_click_events, link_click_stats, schema,
  on_module_init,
}
use dist_link.Schema.Start.{on_module_init-IsBegun, on_module_init-calm}

table_of-append :
    (xs ys : List Statement) (m : String)
    → table_of (xs ++ ys) m ≡ first (table_of xs m) (table_of ys m)
table_of-append [] ys m = refl
table_of-append (make_table n t ∷ xs) ys m = ground (arith, table_of-append xs ys m)
table_of-append (make_index n x ∷ xs) ys m = table_of-append xs ys m

index_of-append :
    (xs ys : List Statement) (m : String)
    → index_of (xs ++ ys) m ≡ first (index_of xs m) (index_of ys m)
index_of-append [] ys m = refl
index_of-append (make_table n t ∷ xs) ys m = index_of-append xs ys m
index_of-append (make_index n x ∷ xs) ys m = ground (arith, index_of-append xs ys m)

append_empty : {A : Type 0} (xs : List A) → xs ++ [] ≡ xs
append_empty [] = refl
append_empty (x ∷ xs) = ap (λ l. x ∷ l) (append_empty xs)

-- To make a part and then the whole is to make the whole.
first-within :
    {A : Type 0} (b : Bool) (a x z : Option A)
    → first (first a (within b x)) (within b (first x z)) ≡ first a (within b (first x z))
first-within b (some a) x z = refl
first-within true none none z = refl
first-within true none (some x) z = refl
first-within false none x z = refl

-- The five tables of the service.
abbrev pub promised_table : String → Option Table
promised_table m =
    if "link_urls" == m
    then some link_urls
    else if "link_click_counter" == m
    then some link_click_counter
    else if "link_users" == m
    then some link_users
    else if "link_click_events" == m
    then some link_click_events
    else if "link_click_stats" == m
    then some link_click_stats
    else none

-- Its three indexes.
abbrev pub promised_index : String → Option Index
promised_index m =
    if "link_urls_user_id_idx" == m
    then some (record { table = "link_urls"; column = "user_id" })
    else if "link_users_email_idx" == m
    then some (record { table = "link_users"; column = "email" })
    else if "link_users_google_id_idx" == m
    then some (record { table = "link_users"; column = "google_id" })
    else none

schema-tables : (m : String) → table_of schema m ≡ promised_table m
schema-tables m = refl

schema-indexes : (m : String) → index_of schema m ≡ promised_index m
schema-indexes m = refl

module _ {server : Server} where
  -- A start that returns has made the keyspace, and in it each of the five tables and three indexes that
  -- were not there; what was there stays as it was, and nothing else is made.
  pub start_makes_schema :
      (space : String) (w : Host server)
      → (on_module_init space w).0 ≡ ok tt
      → ((j m : String)
          → server.table (on_module_init space w).1.store j m
            ≡ first (server.table w.store j m) (within (space == j) (promised_table m)))
        × ((j m : String)
            → server.index (on_module_init space w).1.store j m
              ≡ first (server.index w.store j m) (within (space == j) (promised_index m)))
        × ((j : String)
            → server.has_space (on_module_init space w).1.store j
              ≡ (space == j || server.has_space w.store j))
  start_makes_schema space w done =
      let begun = on_module_init-IsBegun space w in
      let partly = begun.partly in
      let whole : partly.made ≡ schema =
        sym (append_empty partly.made)
        ∙ ap (λ l. partly.made ++ l) (sym (partly.through done))
        ∙ partly.parts in
      let effect = partly.is_made in
      (
        λ j m. effect.tables j m ∙ rw (begun.tables j m, whole) refl,
        λ j m. effect.indexes j m ∙ rw (begun.indexes j m, whole) refl,
        λ j. effect.spaces j ∙ begun.through done j,
      )

  abbrev pub undisturbed : Host server → Host server
  undisturbed w = record w { faults = [] }

  -- A start that broke off, at whatever call, is made good by the next one: if no call fails then, it
  -- returns and leaves the same keyspaces, tables and indexes as one start without a failure.
  pub restart_repairs :
      (space : String) (w : Host server)
      → ((on_module_init space (undisturbed (on_module_init space w).1)).0 ≡ ok tt)
        × ((j m : String)
            → server.table
                (on_module_init space (undisturbed (on_module_init space w).1)).1.store
                j
                m
              ≡ server.table (on_module_init space (undisturbed w)).1.store j m)
        × ((j m : String)
            → server.index
                (on_module_init space (undisturbed (on_module_init space w).1)).1.store
                j
                m
              ≡ server.index (on_module_init space (undisturbed w)).1.store j m)
        × ((j : String)
            → server.has_space
                (on_module_init space (undisturbed (on_module_init space w).1)).1.store
                j
              ≡ server.has_space (on_module_init space (undisturbed w)).1.store j)
  restart_repairs space w =
      let broken = (on_module_init space w).1 in
      let begun = on_module_init-IsBegun space w in
      let partly = begun.partly in
      let effect = partly.is_made in
      let done = on_module_init-calm space (undisturbed broken) refl in
      let once = on_module_init-calm space (undisturbed w) refl in
      let (tables, indexes, spaces) = start_makes_schema space (undisturbed broken) done in
      let (tables', indexes', spaces') = start_makes_schema space (undisturbed w) once in
      (
        done,
        λ j m.
            let same : table_of schema m ≡ first (table_of partly.made m) (table_of partly.left m) =
              ap (λ l. table_of l m) (sym partly.parts)
              ∙ table_of-append partly.made partly.left m in
            rw (tables j m, tables' j m, effect.tables j m, begun.tables j m, same)
              (first-within (space == j) (server.table w.store j m) (table_of partly.made m)
                (table_of partly.left m)),
        λ j m.
            let same : index_of schema m ≡ first (index_of partly.made m) (index_of partly.left m) =
              ap (λ l. index_of l m) (sym partly.parts)
              ∙ index_of-append partly.made partly.left m in
            rw (indexes j m, indexes' j m, effect.indexes j m, begun.indexes j m, same)
              (first-within (space == j) (server.index w.store j m) (index_of partly.made m)
                (index_of partly.left m)),
        λ j.
            rw (spaces j, spaces' j, effect.spaces j)
              (elim begun.spaces [
                | inl same ↦ rw (same j) refl
                | inr made ↦ ground (arith, made j)
              ]),
      )
