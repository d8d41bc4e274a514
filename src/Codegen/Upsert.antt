-- ===== src/Codegen/Upsert.antt =====
-- crates/subdex-codegen/src/gen_upsert.rs: the `upsert` helper of each entity.
use subdex.Prelude.{
  ℕ, ◌+◌, String, ◌<>◌, Bool, true, false, not, ◌||◌, Option, none, some, List, [], ◌∷◌, ◌++◌, map,
  is_empty, if◌then◌else◌, decimal, ◌≡◌, refl, sym, ◌∙◌, Bool-cases, inl, inr,
}
use mathlib.Core.List.{append-nil, append_assoc}
use subdex.Codegen.Model.{Scalar, FieldType, Field, Entity, Schema, id_field}
use subdex.Codegen.Sql.{quote_ident, join}

unfoldable pub placeholder : ℕ → FieldType → String
placeholder n (FieldType.scalar Scalar.big_int) = "$" <> (decimal n <> "::text::numeric")
placeholder n _ = "$" <> decimal n

pub record Parts : Type 0 where
  pub columns : List String
  pub placeholders : List String
  pub updates : List String
  pub binds : List String

abbrev empty_parts : Parts
empty_parts = record { columns = []; placeholders = []; updates = []; binds = [] }

-- `col = EXCLUDED.col`
abbrev pub assignment : Field → String
assignment f = quote_ident f.column <> (" = EXCLUDED." <> quote_ident f.column)

abbrev pub bind_line : Field → String
bind_line f = "        .bind(&self." <> (f.column <> ")")

-- One round of the loop; `i` counts from 0.
unfoldable pub push_field : ℕ → Field → Parts → Parts
push_field i f parts = record {
  columns = parts.columns ++ (quote_ident f.column ∷ []);
  placeholders = parts.placeholders ++ (placeholder (i + 1) f.ty ∷ []);
  updates = if not f.is_id then parts.updates ++ (assignment f ∷ []) else parts.updates;
  binds = parts.binds ++ (bind_line f ∷ []);
}

unfoldable pub parts_loop : ℕ → List Field → Parts → Parts
parts_loop i [] parts = parts
parts_loop i (f ∷ fs) parts = parts_loop (i + 1) fs (push_field i f parts)

abbrev pub parts_of : List Field → Parts
parts_of fields = parts_loop 0 fields empty_parts

unfoldable pub id_column : Option Field → String
id_column none = "\"id\""
id_column (some f) = quote_ident f.column

unfoldable pub conflict : String → List String → String
conflict id_col updates =
    if is_empty updates
    then "ON CONFLICT (" <> (id_col <> ") DO NOTHING")
    else "ON CONFLICT (" <> (id_col <> (") DO UPDATE SET " <> join ", " updates))

unfoldable pub upsert_sql : Entity → String
upsert_sql e =
    let parts = parts_of e.fields in
    "INSERT INTO "
    <> (e.table
        <> (" ("
            <> (join ", " parts.columns
                <> (") VALUES ("
                    <> (join ", " parts.placeholders
                        <> (") " <> conflict (id_column (id_field e)) parts.updates))))))

unfoldable pub lines_of : List String → String
lines_of [] = ""
lines_of (b ∷ bs) = b <> ("\n" <> lines_of bs)

unfoldable pub render_upsert : Entity → String
render_upsert e =
    "impl "
    <> (e.name
        <> (" {\n    /// Insert this row, or update it if a row with the same `id` already\n    /// exists (upsert on the primary key). Pass a transaction\n    /// (`&mut **tx`) to commit with the indexer cursor, or the pool.\n    pub async fn upsert<'e, E>(&self, executor: E) -> Result<(), sqlx::Error>\n    where\n        E: sqlx::PgExecutor<'e>,\n    {\n        sqlx::query(\n            r#\""
            <> (upsert_sql e
                <> ("\"#,\n        )\n"
                    <> (lines_of (parts_of e.fields).binds
                        <> "        .execute(executor)\n        .await?;\n        Ok(())\n    }\n}\n")))))

unfoldable pub render_upserts : List Entity → String
render_upserts [] = ""
render_upserts (e ∷ es) = render_upsert e <> ("\n" <> render_upserts es)

abbrev pub render_all : Schema → String
render_all schema = render_upserts schema.entities

unfoldable pub is_big_int : FieldType → Bool
is_big_int (FieldType.scalar Scalar.big_int) = true
is_big_int _ = false

unfoldable pub any_big_int : List Field → Bool
any_big_int [] = false
any_big_int (f ∷ fs) = is_big_int f.ty || any_big_int fs

unfoldable pub uses_numeric_cast : List Entity → Bool
uses_numeric_cast [] = false
uses_numeric_cast (e ∷ es) = any_big_int e.fields || uses_numeric_cast es

-- The placeholders from `$i` on.
abbrev pub numbered : ℕ → List Field → List String
numbered i [] = []
numbered i (f ∷ fs) = placeholder i f.ty ∷ numbered (i + 1) fs

abbrev pub others : List Field → List Field
others [] = []
others (f ∷ fs) = if f.is_id then others fs else f ∷ others fs

-- The parts of the loop's rest behind those it has.
record Continues (i : ℕ) (fs : List Field) (parts done : Parts) : Type 0 where
  columns_grow : done.columns ≡ parts.columns ++ map (λ f. quote_ident f.column) fs
  placeholders_grow : done.placeholders ≡ parts.placeholders ++ numbered (i + 1) fs
  updates_grow : done.updates ≡ parts.updates ++ map assignment (others fs)
  binds_grow : done.binds ≡ parts.binds ++ map bind_line fs

updates-push :
    (f : Field) (fs : List Field) (parts : Parts)
    → (if not f.is_id then parts.updates ++ (assignment f ∷ []) else parts.updates)
        ++ map assignment (others fs)
      ≡ parts.updates ++ map assignment (others (f ∷ fs))
updates-push f fs parts = elim (Bool-cases f.is_id) [
  | inl b ↦ rw b refl
  | inr b ↦ rw b (append_assoc parts.updates (assignment f ∷ []) (map assignment (others fs)))
]

parts_loop-Continues :
    (i : ℕ) (fs : List Field) (parts : Parts) → Continues i fs parts (parts_loop i fs parts)
unfolding parts_loop push_field
parts_loop-Continues i [] parts = record {
  columns_grow = sym (append-nil parts.columns);
  placeholders_grow = sym (append-nil parts.placeholders);
  updates_grow = sym (append-nil parts.updates);
  binds_grow = sym (append-nil parts.binds);
}
parts_loop-Continues i (f ∷ fs) parts =
    let rest = parts_loop-Continues (i + 1) fs (push_field i f parts) in
    record {
      columns_grow = rest.columns_grow ∙ append_assoc parts.columns _ _;
      placeholders_grow = rest.placeholders_grow ∙ append_assoc parts.placeholders _ _;
      updates_grow = rest.updates_grow ∙ updates-push f fs parts;
      binds_grow = rest.binds_grow ∙ append_assoc parts.binds _ _;
    }

-- The columns, the placeholders and the binds of an `upsert` are one for each field, in the fields' order, the
-- placeholders numbered from `$1` as the binds are; and it overwrites each column but the id's.
pub parts_of-fields :
    (fields : List Field)
    → ((parts_of fields).columns ≡ map (λ f. quote_ident f.column) fields)
      × ((parts_of fields).placeholders ≡ numbered 1 fields)
      × ((parts_of fields).binds ≡ map bind_line fields)
      × ((parts_of fields).updates ≡ map assignment (others fields))
parts_of-fields fields =
    let h = parts_loop-Continues 0 fields empty_parts in
    (h.columns_grow, h.placeholders_grow, h.binds_grow, h.updates_grow)
