-- ===== src/Codegen/Sql.antt =====
-- crates/subdex-codegen/src/gen_sql.rs: the SQL migration of a schema.
use Prim.Native.Char.{Char, char, code}
use Prim.Native.String.{[] as empty, ◌∷◌ as ◌∷ˢ◌}
use Prim.Native.String.append
use subdex.Prelude.{
  String, ◌<>◌, Bool, true, false, not, ◌&&◌, Option, none, some, List, [], ◌∷◌, ◌++◌, map, ◌==◌,
  if◌then◌else◌, ◌≡◌, refl, Bool-cases, inl, inr,
}
use mathlib.Core.Option
use subdex.Codegen.Model.{Field, Entity, Schema, pg_type}

abbrev quote : Char
quote = char 34 tt

abbrev is_quote : Char → Bool
is_quote c = code c == 34

-- `col.replace('"', "\"\"")`
unfoldable pub double_quotes : String → String
double_quotes empty = empty
double_quotes (c ∷ˢ s) =
    let rest = double_quotes s in if is_quote c then c ∷ˢ (c ∷ˢ rest) else c ∷ˢ rest

unfoldable pub quote_ident : String → String
quote_ident col = quote ∷ˢ (double_quotes col <> (quote ∷ˢ empty))

-- `parts.join(separator)`
unfoldable pub join : String → List String → String
join separator [] = ""
join separator (x ∷ []) = x
join separator (x ∷ y ∷ ys) = x <> (separator <> join separator (y ∷ ys))

unfoldable pub constraints : Field → List String
constraints f =
    if f.is_id
    then "PRIMARY KEY" ∷ []
    else (if not f.nullable then "NOT NULL" ∷ [] else [])
      ++ (if f.unique then "UNIQUE" ∷ [] else [])

unfoldable pub column_def : Field → String
column_def f =
    join " " (("    " <> (quote_ident f.column <> (" " <> pg_type f.ty))) ∷ constraints f)

unfoldable pub index_line : String → Field → String
index_line table f =
    if f.indexed && (not f.is_id && not f.unique)
    then "CREATE INDEX IF NOT EXISTS "
      <> (table
          <> ("_"
              <> (f.column
                  <> ("_idx ON " <> (table <> (" (" <> (quote_ident f.column <> ");\n")))))))
    else ""

unfoldable pub index_lines : String → List Field → String
index_lines table [] = ""
index_lines table (f ∷ fs) = index_line table f <> index_lines table fs

unfoldable pub render_table : Entity → String
render_table e =
    "CREATE TABLE IF NOT EXISTS "
    <> (e.table
        <> (" (\n"
            <> (join ",\n" (map column_def e.fields)
                <> ("\n);\n" <> index_lines e.table e.fields))))

unfoldable pub render_tables : List Entity → String
render_tables [] = ""
render_tables (e ∷ es) = render_table e <> ("\n" <> render_tables es)

unfoldable pub render : Schema → String
render schema =
    "-- @generated by subdex-codegen — DO NOT EDIT.\n"
    <> ("-- Regenerated from your schema; edit the schema and re-run codegen.\n\n"
        <> render_tables schema.entities)

-- How SQL reads a quoted identifier: up to a lone quote, which must be the end here, a doubled quote
-- standing for one. The flag is that the character before was a first quote.
unfoldable pub read_body : Bool → String → Option String
read_body false empty = none
read_body false (c ∷ˢ s) =
    let at_quote = read_body true s in
    let rest = read_body false s in if is_quote c then at_quote else Option.map (λ t. c ∷ˢ t) rest
read_body true empty = some empty
read_body true (c ∷ˢ s) =
    let rest = read_body false s in if is_quote c then Option.map (λ t. c ∷ˢ t) rest else none

unfoldable pub read_ident : String → Option String
read_ident empty = none
read_ident (c ∷ˢ s) = if is_quote c then read_body false s else none

read_body-double_quotes :
    (s : String) → read_body false (double_quotes s <> (quote ∷ˢ empty)) ≡ some s
unfolding read_body double_quotes
read_body-double_quotes empty = refl
read_body-double_quotes (c ∷ˢ s) = elim (Bool-cases (is_quote c)) [
  | inl b ↦ rw b (
      rw
        (
          append.cons c (c ∷ˢ double_quotes s) (quote ∷ˢ empty),
          append.cons c (double_quotes s) (quote ∷ˢ empty),
        )
        (rw b (rw (read_body-double_quotes s) refl)))
  | inr b ↦ rw b (
      rw (append.cons c (double_quotes s) (quote ∷ˢ empty))
        (rw b (rw (read_body-double_quotes s) refl)))
]

-- Whatever characters a column's name has, SQL reads its quoted form as that one name, to the end.
pub read_ident-quote_ident : (s : String) → read_ident (quote_ident s) ≡ some s
unfolding read_ident quote_ident
read_ident-quote_ident s = read_body-double_quotes s
