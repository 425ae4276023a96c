-- ===== src/Fdw/Handler.antt =====
-- src/fdw/handler.rs: which wrapper a foreign server belongs to, by the name of its handler.
use pg_analytics.Prelude.{ℕ, ◌≡◌, refl, Bool, true, false, [], if◌then◌else◌, arith}
use pg_analytics.Text.{Text, str, same}
use pg_analytics.Text.Equality.{same_iff}

pub data FdwHandler : Type 0 where
  csv json parquet delta iceberg spatial other : FdwHandler

-- `FdwHandler::from(&str)`
unfoldable pub from_name : Text → FdwHandler
from_name handler_name =
    if same handler_name (str "csv_fdw_handler")
    then csv
    else if same handler_name (str "json_fdw_handler")
    then json
    else if same handler_name (str "parquet_fdw_handler")
    then parquet
    else if same handler_name (str "delta_fdw_handler")
    then delta
    else if same handler_name (str "iceberg_fdw_handler")
    then iceberg
    else if same handler_name (str "spatial_fdw_handler")
    then spatial
    else other

-- What the catalog of PostgreSQL tells by oids: the wrapper of a server, the handler of a wrapper, and
-- the name of a function.
pub record SystemCatalog : Type 0 where
  pub fdwid : ℕ → ℕ
  pub fdwhandler : ℕ → ℕ
  pub proname : ℕ → Text

-- `FdwHandler::from(*mut ForeignServer)`, for the server's oid
unfoldable pub from_server : SystemCatalog → ℕ → FdwHandler
unfolding from_name
from_server catalog server = from_name (catalog.proname (catalog.fdwhandler (catalog.fdwid server)))

-- `FdwHandler::from(*mut ForeignTable)`, for the server of the table
unfoldable pub from_table : SystemCatalog → ℕ → FdwHandler
unfolding from_server
from_table catalog serverid = from_server catalog serverid

-- `==`, by `PartialEq`
unfoldable pub is_other : FdwHandler → Bool
is_other other = true
is_other _ = false

-- The name that supabase-wrappers gives to the handler of a wrapper, as the comment of the code
-- says; any other name for no wrapper of the extension.
abbrev pub handler_name_of : FdwHandler → Text
handler_name_of csv = str "csv_fdw_handler"
handler_name_of json = str "json_fdw_handler"
handler_name_of parquet = str "parquet_fdw_handler"
handler_name_of delta = str "delta_fdw_handler"
handler_name_of iceberg = str "iceberg_fdw_handler"
handler_name_of spatial = str "spatial_fdw_handler"
handler_name_of other = []

-- Every handler is read back from its name.
pub from_name-handler_name_of : (h : FdwHandler) → from_name (handler_name_of h) ≡ h
unfolding from_name same str
from_name-handler_name_of csv = refl
from_name-handler_name_of _ = refl

pub handler_name_of-from_name :
    (name : Text) → is_other (from_name name) ≡ false → handler_name_of (from_name name) ≡ name
unfolding from_name is_other
handler_name_of-from_name name h = ground (
  arith,
  same_iff name (str "csv_fdw_handler"),
  same_iff name (str "json_fdw_handler"),
  same_iff name (str "parquet_fdw_handler"),
  same_iff name (str "delta_fdw_handler"),
  same_iff name (str "iceberg_fdw_handler"),
  same_iff name (str "spatial_fdw_handler"),
)
