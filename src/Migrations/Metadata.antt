-- ===== src/Migrations/Metadata.antt =====
-- src/energy_flex_trust/models.py: the tables and indexes that its classes declare, as
-- `Base.metadata` has them. SQLAlchemy names the index of a column `ix_<table>_<column>`; a column
-- that is `unique` without an index has a constraint without a name; a foreign key has the type of
-- the identifiers.
use Prim.Native.String
use energy_flex_trust_platfo.Prelude.{
  String, not, ◌&&◌, none, some, List, [], ◌∷◌, ◌++◌, map, if◌then◌else◌,
}
use energy_flex_trust_platfo.Migrations.Schema.{
  Column, ForeignKey, UniqueConstraint, Table, Index, Schema, column, foreign_key,
  unique_constraint, index,
}
use energy_flex_trust_platfo.Migrations.Models.{MappedColumn, MappedTable, models}

unfoldable columns_of : List MappedColumn → List Column
columns_of [] = []
columns_of (c ∷ cs) = column c.name c.column_type c.nullable ∷ columns_of cs

unfoldable foreign_keys_of : List MappedColumn → List ForeignKey
foreign_keys_of [] = []
foreign_keys_of (c ∷ cs) =
    let rest = foreign_keys_of cs in
    elim c.foreign_key [
      | none ↦ rest
      | some (target_table, target_column) ↦
          foreign_key c.name target_table target_column "RESTRICT" ∷ rest
    ]

unfoldable primary_key_of : List MappedColumn → String
primary_key_of [] = ""
primary_key_of (c ∷ cs) = let rest = primary_key_of cs in if c.primary_key then c.name else rest

unfoldable unnamed_constraints : List MappedColumn → List UniqueConstraint
unnamed_constraints [] = []
unnamed_constraints (c ∷ cs) =
    let rest = unnamed_constraints cs in
    if c.unique && not c.index then unique_constraint none (c.name ∷ []) ∷ rest else rest

unfoldable indexes_of : String → List MappedColumn → List Index
indexes_of table [] = []
indexes_of table (c ∷ cs) =
    let rest = indexes_of table cs in
    if c.index
    then index (String.◌++◌ "ix_" (String.◌++◌ table (String.◌++◌ "_" c.name))) table c.name
        c.unique
      ∷ rest
    else rest

unfoldable table_of : MappedTable → Table
table_of t = record {
  name = t.name;
  columns = columns_of t.columns;
  foreign_keys = foreign_keys_of t.columns;
  primary_key = primary_key_of t.columns;
  unique_constraints = unnamed_constraints t.columns ++ t.unique_constraints;
}

unfoldable all_indexes : List MappedTable → List Index
all_indexes [] = []
all_indexes (t ∷ ts) = indexes_of t.name t.columns ++ all_indexes ts

-- What `Base.metadata.create_all` creates in an empty database.
unfoldable pub metadata : Schema
unfolding columns_of foreign_keys_of primary_key_of unnamed_constraints indexes_of table_of
    all_indexes
metadata = record { tables = map table_of models; indexes = all_indexes models }
