-- ===== src/Migrations/Upgrade.antt =====
-- The migrations against the models.
use energy_flex_trust_platfo.Prelude.{
  ◌≡◌, refl, sym, ap, ◌∙◌, Bool, true, false, not, ◌&&◌, Option, some, none, List, [], ◌∷◌, ◌++◌,
  any, select_where, ◌==◌, append_assoc, append-nil, any-append, select_where-append,
  select_where-not, arith, Bool-cases, inl, inr, if◌then◌else◌,
}
use energy_flex_trust_platfo.Migrations.Schema.{
  ForeignKey, Table, Schema, Op, create_table, create_index, drop_index, drop_table, has_table,
  has_index, has_targets, refers_to, is_referred_to, run, run_op, then_run,
}
use energy_flex_trust_platfo.Migrations.Initial.{upgrade_initial, downgrade_initial}
use energy_flex_trust_platfo.Migrations.Outbox.{upgrade_outbox, downgrade_outbox}
use energy_flex_trust_platfo.Migrations.Metadata.{metadata}

-- The tables and indexes of one schema beside those of another.
abbrev pub beside : Schema → Schema → Schema
beside s d = record { tables = s.tables ++ d.tables; indexes = s.indexes ++ d.indexes }

-- What an operation names is not in the schema.
abbrev pub is_clear : Op → Schema → Bool
is_clear (create_table t) s = not (has_table t.name s.tables)
is_clear (create_index i) s = not (has_index i.name s.indexes)
is_clear (drop_index name table) s = not (has_index name s.indexes)
is_clear (drop_table name) s =
    not (has_table name s.tables)
    && not (is_referred_to name s.tables)
    && not (any (λ i. i.table == name) s.indexes)

abbrev pub all_clear : List Op → Schema → Bool
all_clear [] s = true
all_clear (op ∷ ops) s = is_clear op s && all_clear ops s

has_targets-append :
    (fks : List ForeignKey) (xs ys : List Table)
    → has_targets fks ys ≡ true
    → has_targets fks (xs ++ ys) ≡ true
has_targets-append [] xs ys h = refl
has_targets-append (fk ∷ fks) xs ys h =
    ground (arith, any-append (λ t. t.name == fk.target_table) xs ys, has_targets-append fks xs ys)

-- A test that an operation passes alone is passed beside another schema.
guard-beside :
    (s d' x : Schema) (alone together : Bool)
    → (alone ≡ false → together ≡ false)
    → (if alone then none else some x) ≡ some d'
    → (if together then none else some (beside s x)) ≡ some (beside s d')
guard-beside s d' x alone together passes h = elim (Bool-cases alone) [
  | inl bad ↦ absurd (refused (rw bad at h))
  | inr good ↦ rw (passes good) (ap (λ o. moved o) (rw good at h))
]
  where
    refused : ◌≡◌ {A = Option Schema} none (some d') → ⊥
    refused e = ground arith

    moved : Option Schema → Option Schema
    moved none = none
    moved (some e) = some (beside s e)

-- An operation on names that are not in `s` does beside `s` what it does alone.
run_op-beside :
    (op : Op) (s d d' : Schema)
    → is_clear op s ≡ true
    → run_op op d ≡ some d'
    → run_op op (beside s d) ≡ some (beside s d')
unfolding run_op
run_op-beside (create_table t) s d d' clear h = rw (append_assoc s.tables d.tables (t ∷ [])) (
    guard-beside s d' (record d { tables = d.tables ++ t ∷ [] }) _ _
      (λ free. ground (
        arith,
        any-append (λ u. u.name == t.name) s.tables d.tables,
        has_targets-append t.foreign_keys s.tables d.tables,
      ))
      h)
run_op-beside (create_index i) s d d' clear h = rw (append_assoc s.indexes d.indexes (i ∷ [])) (
    guard-beside s d' (record d { indexes = d.indexes ++ i ∷ [] }) _ _
      (λ free. ground (
        arith,
        any-append (λ j. j.name == i.name) s.indexes d.indexes,
        any-append (λ u. u.name == i.table) s.tables d.tables,
      ))
      h)
run_op-beside (drop_index name table) s d d' clear h =
    rw
      (
        select_where-append (λ i. not (i.name == name)) s.indexes d.indexes,
        select_where-not (λ i. i.name == name) s.indexes (ground arith),
      )
      (guard-beside s d' (record d { indexes = select_where (λ i. not (i.name == name)) d.indexes })
        _ _ (λ free. ground (arith, any-append (λ j. j.name == name) s.indexes d.indexes)) h)
run_op-beside (drop_table name) s d d' clear h =
    rw
      (
        select_where-append (λ t. not (t.name == name)) s.tables d.tables,
        select_where-not (λ t. t.name == name) s.tables (ground arith),
        select_where-append (λ i. not (i.table == name)) s.indexes d.indexes,
        select_where-not (λ i. i.table == name) s.indexes (ground arith),
      )
      (guard-beside s d'
        (record {
          tables = select_where (λ t. not (t.name == name)) d.tables;
          indexes = select_where (λ i. not (i.table == name)) d.indexes;
        })
        _ _
        (λ free. ground (
          arith,
          any-append (λ t. t.name == name) s.tables d.tables,
          any-append (refers_to name) s.tables d.tables,
        ))
        h)

run-beside :
    (ops : List Op) (s d d' : Schema)
    → all_clear ops s ≡ true
    → run ops d ≡ some d'
    → run ops (beside s d) ≡ some (beside s d')
unfolding run
run-beside [] s d d' clear h = ground arith
run-beside (op ∷ ops) s d d' clear h =
    go (run_op op d) refl (λ next. run-beside ops s next d' (ground arith)) h
  where
    go :
        (o : Option Schema)
        → run_op op d ≡ o
        → ((next : Schema) → run ops next ≡ some d' → run ops (beside s next) ≡ some (beside s d'))
        → then_run o (run ops) ≡ some d'
        → then_run (run_op op (beside s d)) (run ops) ≡ some (beside s d')
    go none stuck onward k = absurd (ground arith)
    go (some next) moves onward k =
        rw (run_op-beside op s d next (ground arith) moves) (onward next k)

-- The migrations up to the head of the history, and back.
abbrev pub upgrade_head : List Op
upgrade_head = upgrade_initial ++ upgrade_outbox

abbrev pub downgrade_base : List Op
downgrade_base = downgrade_outbox ++ downgrade_initial

abbrev empty_schema : Schema
empty_schema = record { tables = []; indexes = [] }

upgrade_empty : run upgrade_head empty_schema ≡ some metadata
unfolding run run_op upgrade_initial upgrade_outbox metadata
upgrade_empty = refl

downgrade_metadata : run downgrade_base metadata ≡ some empty_schema
unfolding run run_op downgrade_initial downgrade_outbox metadata
downgrade_metadata = refl

beside_empty : (s : Schema) → beside s empty_schema ≡ s
beside_empty s = rw (append-nil s.tables, append-nil s.indexes) refl

-- In a schema that has none of the program's names, the migrations create exactly the tables and
-- the indexes that the models declare, each operation being accepted; and the downgrades, run after
-- them, are accepted and restore the schema.
pub upgrade_head-metadata :
    (s : Schema)
    → all_clear upgrade_head s ≡ true
    → all_clear downgrade_base s ≡ true
    → (run upgrade_head s ≡ some (beside s metadata))
      × (run downgrade_base (beside s metadata) ≡ some s)
upgrade_head-metadata s clear back = (
  ap (run upgrade_head) (sym (beside_empty s))
      ∙ run-beside upgrade_head s empty_schema metadata clear upgrade_empty,
  run-beside downgrade_base s metadata empty_schema back downgrade_metadata
      ∙ ap some (beside_empty s),
)
