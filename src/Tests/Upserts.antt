-- ===== src/Tests/Upserts.antt =====
-- The upsert of an entity with an id and an amount.
use subdex.Prelude.{◌≡◌, refl, List, [], ◌∷◌, map, decimal, false, true}
use subdex.Codegen.Model.{Scalar, FieldType, Field}
use subdex.Codegen.Sql.{quote_ident, double_quotes, join}
use subdex.Codegen.Upsert.{
  placeholder, push_field, parts_loop, parts_of, assignment, bind_line, numbered, others,
  parts_of-fields, upsert_sql, conflict, id_column,
}
use subdex.Codegen.Model.{find_id}

abbrev id : Field
id = record {
  name = "id";
  column = "id";
  ty = FieldType.scalar Scalar.id;
  nullable = false;
  indexed = false;
  unique = false;
  is_id = true;
}

abbrev amount : Field
amount = record {
  name = "amount";
  column = "amount";
  ty = FieldType.scalar Scalar.big_int;
  nullable = false;
  indexed = false;
  unique = false;
  is_id = false;
}

abbrev fields : List Field
fields = id ∷ amount ∷ []

transfer_sql :
    upsert_sql (record { name = "Transfer"; table = "transfers"; fields = fields })
    ≡ "INSERT INTO transfers (\"id\", \"amount\") VALUES ($1, $2::text::numeric) ON CONFLICT (\"id\") DO UPDATE SET \"amount\" = EXCLUDED.\"amount\""
unfolding upsert_sql parts_loop push_field placeholder conflict id_column find_id join quote_ident
    double_quotes decimal
transfer_sql = refl

parts_of-fields_example :
    ((parts_of fields).columns ≡ map (λ f. quote_ident f.column) fields)
    × ((parts_of fields).placeholders ≡ numbered 1 fields)
    × ((parts_of fields).binds ≡ map bind_line fields)
    × ((parts_of fields).updates ≡ map assignment (others fields))
parts_of-fields_example = parts_of-fields fields
