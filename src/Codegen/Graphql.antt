-- ===== src/Codegen/Graphql.antt =====
-- crates/subdex-codegen/src/gen_graphql.rs: the read models and resolvers of `graphql.rs`.
use subdex.Prelude.{String, ◌<>◌, Option, none, some, [], ◌∷◌, ◌++◌, map, if◌then◌else◌}
use subdex.Codegen.Model.{Scalar, FieldType, Field, Entity, Schema, id_field, scalar_rust_type}
use subdex.Codegen.Names.{to_snake_case}
use subdex.Codegen.Sql.{join, double_quotes}
use subdex.Codegen.Text.{concat}

abbrev pub graphql_header : String
graphql_header = concat (
    "// @generated by subdex-codegen — DO NOT EDIT.\n" ∷ "//\n"
    ∷ "// Regenerated from your schema. Edit the schema and re-run `subdex-codegen\n"
    ∷ "// generate` instead of changing anything here.\n" ∷ [])

-- The type of a field that is not nullable.
unfoldable pub gql_base : FieldType → String
gql_base (FieldType.scalar Scalar.json) = "String"
gql_base (FieldType.scalar s) = scalar_rust_type s
gql_base (FieldType.scalar_list Scalar.json) = "Vec<String>"
gql_base (FieldType.scalar_list s) = concat ("Vec<" ∷ scalar_rust_type s ∷ ">" ∷ [])
gql_base (FieldType.enum _) = "String"
gql_base (FieldType.relation _) = "String"

unfoldable pub gql_type : Field → String
gql_type f =
    let base = gql_base f.ty in if f.nullable then concat ("Option<" ∷ base ∷ ">" ∷ []) else base

-- `quote_ident`
unfoldable pub quote_column : String → String
quote_column col = concat ("\"" ∷ double_quotes col ∷ "\"" ∷ [])

-- The expression of a column of a type.
unfoldable pub select_of : FieldType → String → String
select_of (FieldType.scalar Scalar.big_int) col = concat (col ∷ "::text AS " ∷ col ∷ [])
select_of (FieldType.scalar Scalar.json) col = concat (col ∷ "::text AS " ∷ col ∷ [])
select_of _ col = col

unfoldable pub select_expr : Field → String
select_expr f = select_of f.ty (quote_column f.column)

unfoldable pub model_field : Field → String
model_field f = concat ("    pub " ∷ f.column ∷ ": " ∷ gql_type f ∷ ",\n" ∷ [])

unfoldable pub render_read_model : Entity → String
render_read_model e = concat (
    "/// A row of the `"
    ∷ e.table
    ∷ "` table, exposed as a GraphQL type.\n"
    ∷ "#[derive(SimpleObject, Debug, Clone)]\n"
    ∷ "pub struct "
    ∷ e.name
    ∷ " {\n"
    ∷ concat (map model_field e.fields)
    ∷ "}\n"
    ∷ [])

unfoldable pub id_column : Option Field → String
id_column none = "\"id\""
id_column (some f) = quote_column f.column

unfoldable pub row_bind : Field → String
row_bind f = concat ("                " ∷ f.column ∷ ": r.get(\"" ∷ f.column ∷ "\")," ∷ [])

unfoldable pub select_list : Entity → String
select_list e = join ", " (map select_expr e.fields)

unfoldable pub sql_filtered : Entity → String
sql_filtered e =
    let id_col = id_column (id_field e) in
    concat (
      "SELECT "
      ∷ select_list e
      ∷ " FROM "
      ∷ e.table
      ∷ " WHERE "
      ∷ id_col
      ∷ " = $1 ORDER BY "
      ∷ id_col
      ∷ " DESC LIMIT $2"
      ∷ [])

unfoldable pub sql_all : Entity → String
sql_all e = concat (
    "SELECT "
    ∷ select_list e
    ∷ " FROM "
    ∷ e.table
    ∷ " ORDER BY "
    ∷ id_column (id_field e)
    ∷ " DESC LIMIT $1"
    ∷ [])

-- The resolver of the list.
unfoldable pub list_resolver : Entity → String
list_resolver e = concat (
    "    /// List `"
    ∷ e.table
    ∷ "` rows, newest `id` first. `limit` is clamped to\n"
    ∷ "    /// `[1, 200]` (default 25); `id` optionally filters to one row.\n"
    ∷ "    async fn "
    ∷ to_snake_case e.name
    ∷ "s(\n"
    ∷ "        &self,\n"
    ∷ "        ctx: &Context<'_>,\n"
    ∷ "        limit: Option<i32>,\n"
    ∷ "        id: Option<String>,\n"
    ∷ "    ) -> async_graphql::Result<Vec<"
    ∷ e.name
    ∷ ">> {\n"
    ∷ "        let pool = ctx.data::<PgPool>()?;\n"
    ∷ "        let limit = limit.unwrap_or(25).clamp(1, 200) as i64;\n"
    ∷ "        let rows = match id {\n"
    ∷ "            Some(id) => {\n"
    ∷ "                sqlx::query(r#\""
    ∷ sql_filtered e
    ∷ "\"#)\n"
    ∷ "                    .bind(id)\n"
    ∷ "                    .bind(limit)\n"
    ∷ "                    .fetch_all(pool)\n"
    ∷ "                    .await?\n"
    ∷ "            }\n"
    ∷ "            None => {\n"
    ∷ "                sqlx::query(r#\""
    ∷ sql_all e
    ∷ "\"#)\n"
    ∷ "                    .bind(limit)\n"
    ∷ "                    .fetch_all(pool)\n"
    ∷ "                    .await?\n"
    ∷ "            }\n"
    ∷ "        };\n"
    ∷ "        Ok(rows\n            .into_iter()\n"
    ∷ "            .map(|r| "
    ∷ e.name
    ∷ " {\n"
    ∷ join "\n" (map row_bind e.fields)
    ∷ "\n            })\n"
    ∷ "            .collect())\n"
    ∷ "    }\n\n"
    ∷ [])

unfoldable pub count_resolver : Entity → String
count_resolver e = concat (
    "    /// Total number of `"
    ∷ e.table
    ∷ "` rows.\n"
    ∷ "    async fn "
    ∷ to_snake_case e.name
    ∷ "s_count(&self, ctx: &Context<'_>) -> async_graphql::Result<i64> {\n"
    ∷ "        let pool = ctx.data::<PgPool>()?;\n"
    ∷ "        let row = sqlx::query(\"SELECT count(*) AS n FROM "
    ∷ e.table
    ∷ "\").fetch_one(pool).await?;\n"
    ∷ "        Ok(row.get(\"n\"))\n"
    ∷ "    }\n"
    ∷ [])

unfoldable pub render_query : Entity → String
render_query e = concat (
    "/// Query resolvers for the `"
    ∷ e.table
    ∷ "` table.\n#[derive(Default)]\npub struct "
    ∷ e.name
    ∷ "Query;\n\n"
    ∷ "#[Object]\nimpl "
    ∷ e.name
    ∷ "Query {\n"
    ∷ list_resolver e
    ∷ count_resolver e
    ∷ "}\n"
    ∷ [])

unfoldable pub render_root : Schema → String
render_root schema =
    let members =
      join ", " (map (λ e. e.name <> "Query") schema.entities ++ ("StatusQuery" ∷ [])) in
    concat (
      "/// The combined GraphQL query root: every entity's queries plus the\n"
      ∷ "/// framework's built-in `indexerStatus`.\n" ∷ "#[derive(MergedObject, Default)]\n"
      ∷ "pub struct QueryRoot(" ∷ members ∷ ");\n" ∷ [])

-- `render`
unfoldable pub render_graphql : Schema → String
render_graphql schema = concat (
    graphql_header
    ∷ "\n"
    ∷ "#![allow(dead_code)]\n\n"
    ∷ "use async_graphql::{Context, MergedObject, Object, SimpleObject};\n"
    ∷ "use sqlx::{PgPool, Row};\n"
    ∷ "use subdex_graphql::StatusQuery;\n\n"
    ∷ concat (
        map (λ e. concat (render_read_model e ∷ "\n" ∷ render_query e ∷ "\n" ∷ [])) schema.entities)
    ∷ render_root schema
    ∷ [])
