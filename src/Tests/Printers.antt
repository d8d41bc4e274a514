-- ===== src/Tests/Printers.antt =====
-- The generators' texts of small schemas, and the names of projects.
use subdex.Prelude.{true, false, [], ◌∷◌, ◌≡◌, ◌↔◌, refl}
use subdex.Codegen.Model.{Scalar, FieldType, Field, Entity, find_id, rust_type, base_type}
use subdex.Codegen.Sql.{join, double_quotes}
use subdex.Codegen.Text.{concat, lowercase, before_first, split_underscores}
use subdex.Codegen.Rust.{capitalize, pascal_variant, struct_field, field_doc}
use subdex.Codegen.Graphql.{
  quote_column, select_of, select_expr, select_list, id_column, sql_filtered,
}
use subdex.Codegen.Scaffold.{Validity, validate_name, validate_chars, find_bad, crate_path}
use subdex.Codegen.Scaffold.Laws.{IsPackageName, IsIdentifier, validate_name-IsPackageName}
use subdex.Prelude.Chars.{to_ascii_lowercase, to_ascii_uppercase}

in_progress : pascal_variant "IN_PROGRESS" ≡ "InProgress"
unfolding pascal_variant concat capitalize split_underscores before_first lowercase
    to_ascii_lowercase to_ascii_uppercase
in_progress = refl

-- An underscore more gives the same variant.
collides : pascal_variant "IN__PROGRESS" ≡ pascal_variant "IN_PROGRESS"
unfolding pascal_variant concat capitalize split_underscores before_first lowercase
    to_ascii_lowercase to_ascii_uppercase
collides = refl

abbrev id_of : Field
id_of = record {
  name = "id";
  column = "id";
  ty = FieldType.scalar Scalar.id;
  nullable = false;
  indexed = false;
  unique = false;
  is_id = true;
}

abbrev amount : Field
amount = record {
  name = "amount";
  column = "amount";
  ty = FieldType.scalar Scalar.big_int;
  nullable = false;
  indexed = false;
  unique = false;
  is_id = false;
}

abbrev transfer : Entity
transfer = record { name = "Transfer"; table = "transfers"; fields = id_of ∷ amount ∷ [] }

filtered :
    sql_filtered transfer
    ≡ "SELECT \"id\", \"amount\"::text AS \"amount\" FROM transfers WHERE \"id\" = $1 ORDER BY \"id\" DESC LIMIT $2"
unfolding sql_filtered concat select_list select_expr select_of quote_column join double_quotes
    id_column find_id
filtered = refl

amount_field : struct_field amount ≡ "    pub amount: String,\n"
unfolding struct_field field_doc concat rust_type base_type
amount_field = refl

accepted : validate_name "acme-dex" ≡ Validity.valid
unfolding validate_name validate_chars find_bad
accepted = refl

crate : crate_path "acme-dex" ≡ "acme_dex"
unfolding crate_path
crate = refl

-- No identifier in Rust.
lone : validate_name "_" ≡ Validity.valid
unfolding validate_name validate_chars find_bad
lone = refl

validate_name-IsPackageName_example :
    ((validate_name "acme-dex" ≡ Validity.valid) ↔ IsPackageName "acme-dex")
    × (validate_name "acme-dex" ≡ Validity.valid → IsIdentifier (crate_path "acme-dex"))
validate_name-IsPackageName_example = validate_name-IsPackageName "acme-dex"
