-- ===== src/Fdw/Trigger/Kinds.antt =====
-- The types of DuckDB whose names the conversion of src/fdw/trigger.rs has to deal with, and the
-- PostgreSQL types that its rules give for them.
use pg_analytics.Text.{Text, str}

-- Types without parameters that a column of a view can have and the conversion accepts.
pub data DuckdbType : Type 0 where
  boolean tinyint smallint integer bigint usmallint uinteger ubigint hugeint : DuckdbType
  float double varchar blob date time timestamp timestamp_s timestamp_ms timestamp_ns : DuckdbType
  timestamp_tz time_tz interval uuid json geometry point_2d point_3d point_4d box_2d : DuckdbType
  polygon_2d linestring_2d : DuckdbType

-- As DuckDB's `DESCRIBE` names the type.
unfoldable pub duckdb_name : DuckdbType → Text
duckdb_name boolean = str "BOOLEAN"
duckdb_name tinyint = str "TINYINT"
duckdb_name smallint = str "SMALLINT"
duckdb_name integer = str "INTEGER"
duckdb_name bigint = str "BIGINT"
duckdb_name usmallint = str "USMALLINT"
duckdb_name uinteger = str "UINTEGER"
duckdb_name ubigint = str "UBIGINT"
duckdb_name hugeint = str "HUGEINT"
duckdb_name float = str "FLOAT"
duckdb_name double = str "DOUBLE"
duckdb_name varchar = str "VARCHAR"
duckdb_name blob = str "BLOB"
duckdb_name date = str "DATE"
duckdb_name time = str "TIME"
duckdb_name timestamp = str "TIMESTAMP"
duckdb_name timestamp_s = str "TIMESTAMP_S"
duckdb_name timestamp_ms = str "TIMESTAMP_MS"
duckdb_name timestamp_ns = str "TIMESTAMP_NS"
duckdb_name timestamp_tz = str "TIMESTAMP WITH TIME ZONE"
duckdb_name time_tz = str "TIME WITH TIME ZONE"
duckdb_name interval = str "INTERVAL"
duckdb_name uuid = str "UUID"
duckdb_name json = str "JSON"
duckdb_name geometry = str "GEOMETRY"
duckdb_name point_2d = str "POINT_2D"
duckdb_name point_3d = str "POINT_3D"
duckdb_name point_4d = str "POINT_4D"
duckdb_name box_2d = str "BOX_2D"
duckdb_name polygon_2d = str "POLYGON_2D"
duckdb_name linestring_2d = str "LINESTRING_2D"

-- The type that the rule for the name gives, or the name itself if there is no rule for it.
unfoldable pub postgres_name : DuckdbType → Text
postgres_name tinyint = str "SMALLINT"
postgres_name usmallint = str "INTEGER"
postgres_name uinteger = str "BIGINT"
postgres_name ubigint = str "NUMERIC"
postgres_name hugeint = str "NUMERIC"
postgres_name double = str "DOUBLE PRECISION"
postgres_name blob = str "TEXT"
postgres_name timestamp_s = str "TIMESTAMP"
postgres_name timestamp_ms = str "TIMESTAMP"
postgres_name timestamp_ns = str "TIMESTAMP"
postgres_name time_tz = str "TIME"
postgres_name geometry = str "TEXT"
postgres_name point_2d = str "POINT"
postgres_name point_3d = str "POINT"
postgres_name point_4d = str "POINT"
postgres_name box_2d = str "BOX"
postgres_name polygon_2d = str "POLYGON"
postgres_name linestring_2d = str "LINE"
postgres_name boolean = str "BOOLEAN"
postgres_name smallint = str "SMALLINT"
postgres_name integer = str "INTEGER"
postgres_name bigint = str "BIGINT"
postgres_name float = str "FLOAT"
postgres_name varchar = str "VARCHAR"
postgres_name date = str "DATE"
postgres_name time = str "TIME"
postgres_name timestamp = str "TIMESTAMP"
postgres_name timestamp_tz = str "TIMESTAMP WITH TIME ZONE"
postgres_name interval = str "INTERVAL"
postgres_name uuid = str "UUID"
postgres_name json = str "JSON"
