-- ===== src/Migrations/Schema.antt =====
-- What a migration is made of: the operations of alembic on tables and indexes, run on a schema.
use energy_flex_trust_platfo.Prelude.{
  ℕ, String, Bool, true, not, ◌||◌, ◌&&◌, Option, none, some, List, [], ◌∷◌, ◌++◌, any,
  select_where, ◌==◌, if◌then◌else◌,
}

pub data ColumnType : Type 0 where
  string : ℕ → ColumnType
  numeric : ℕ → ℕ → ColumnType
  date_time integer long_text json : ColumnType

pub record Column : Type 0 where
  pub name : String
  pub column_type : ColumnType
  pub nullable : Bool

-- `ForeignKeyConstraint([column], ["target_table.target_column"], ondelete=...)`
pub record ForeignKey : Type 0 where
  pub column : String
  pub target_table : String
  pub target_column : String
  pub on_delete : String

pub record UniqueConstraint : Type 0 where
  pub constraint_name : Option String
  pub columns : List String

pub record Table : Type 0 where
  pub name : String
  pub columns : List Column
  pub foreign_keys : List ForeignKey
  pub primary_key : String
  pub unique_constraints : List UniqueConstraint

pub record Index : Type 0 where
  pub name : String
  pub table : String
  pub column : String
  pub unique : Bool

pub record Schema : Type 0 where
  pub tables : List Table
  pub indexes : List Index

pub data Op : Type 0 where
  create_table : Table → Op
  create_index : Index → Op
  drop_index : (name table : String) → Op
  drop_table : (name : String) → Op

abbrev pub has_table : String → List Table → Bool
has_table name tables = any (λ t. t.name == name) tables

abbrev pub has_index : String → List Index → Bool
has_index name indexes = any (λ i. i.name == name) indexes

-- Every foreign key of a new table needs its target.
abbrev pub has_targets : List ForeignKey → List Table → Bool
has_targets [] tables = true
has_targets (fk ∷ fks) tables = has_table fk.target_table tables && has_targets fks tables

-- A foreign key of another table keeps a table from being dropped.
abbrev pub refers_to : String → Table → Bool
refers_to name t = not (t.name == name) && any (λ fk. fk.target_table == name) t.foreign_keys

abbrev pub is_referred_to : String → List Table → Bool
is_referred_to name tables = any (refers_to name) tables

-- `none`: the database refuses the operation. A table takes its indexes with it.
unfoldable pub run_op : Op → Schema → Option Schema
run_op (create_table t) s =
    if has_table t.name s.tables || not (has_targets t.foreign_keys s.tables)
    then none
    else some (record s { tables = s.tables ++ t ∷ [] })
run_op (create_index i) s =
    if has_index i.name s.indexes || not (has_table i.table s.tables)
    then none
    else some (record s { indexes = s.indexes ++ i ∷ [] })
run_op (drop_index name table) s =
    if not (has_index name s.indexes)
    then none
    else some (record s { indexes = select_where (λ i. not (i.name == name)) s.indexes })
run_op (drop_table name) s =
    if not (has_table name s.tables) || is_referred_to name s.tables
    then none
    else some (record {
      tables = select_where (λ t. not (t.name == name)) s.tables;
      indexes = select_where (λ i. not (i.table == name)) s.indexes;
    })

abbrev pub then_run : Option Schema → (Schema → Option Schema) → Option Schema
then_run none k = none
then_run (some s) k = k s

unfoldable pub run : List Op → Schema → Option Schema
unfolding run_op
run [] s = some s
run (op ∷ ops) s = then_run (run_op op s) (run ops)

-- `sa.Column(name, type, nullable=...)`
abbrev pub column : String → ColumnType → Bool → Column
column name column_type nullable = record {
  name = name;
  column_type = column_type;
  nullable = nullable;
}

abbrev pub foreign_key : (column_name target_table target_column on_delete : String) → ForeignKey
foreign_key column_name target_table target_column on_delete = record {
  column = column_name;
  target_table = target_table;
  target_column = target_column;
  on_delete = on_delete;
}

abbrev pub unique_constraint : Option String → List String → UniqueConstraint
unique_constraint constraint_name columns = record {
  constraint_name = constraint_name;
  columns = columns;
}

-- `op.create_index(name, table, [column], unique=...)`
abbrev pub index : (name table column : String) → Bool → Index
index name table column unique = record {
  name = name;
  table = table;
  column = column;
  unique = unique;
}
