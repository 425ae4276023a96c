-- ===== src/Datafusion/Store.antt =====
-- The builders of opendal, as the calls that they got, and the shape of the validators of the wrappers.
use pg_analytics.Prelude.{Option, none, some, List, [], ◌∷◌, ◌++◌}
use pg_analytics.Text.{Text}
use pg_analytics.Result.{Result, ok}

-- A call of a method of a builder, and its argument.
abbrev pub Call : Type 0
Call = Text × Option Text

-- A builder: the calls after `default()`, first one first.
abbrev pub Builder : Type 0
Builder = List Call

-- `builder.method(argument);`
abbrev pub call : Text → Text → Builder → Builder
call method argument builder = builder ++ (method, some argument) ∷ []

-- `if let Some(argument) = … { builder.method(argument); }`
unfoldable pub call_some : Text → Option Text → Builder → Builder
call_some method none builder = builder
call_some method (some argument) builder = call method argument builder

-- `FOREIGN_DATA_WRAPPER_RELATION_ID`, `FOREIGN_SERVER_RELATION_ID`, `FOREIGN_TABLE_RELATION_ID`
pub data CatalogRelation : Type 0 where
  wrapper_relation server_relation table_relation other_relation : CatalogRelation

-- `if let Some(oid) = catalog { match oid { … } }` over the results of the arms for servers and tables.
unfoldable pub by_relation :
    Option CatalogRelation → Result (Unit {0}) → Result (Unit {0}) → Result (Unit {0})
by_relation none servers tables = ok tt
by_relation (some server_relation) servers tables = servers
by_relation (some table_relation) servers tables = tables
by_relation (some _) servers tables = ok tt
