-- ===== src/Codegen/Rust.antt =====
-- crates/subdex-codegen/src/gen_rust.rs: the structs and enums of `entities.rs`.
pub mod Variants
use Prim.Native.String.{[] as empty, ◌∷◌ as ◌∷ˢ◌}
use subdex.Prelude.{String, ◌<>◌, Bool, true, false, ◌||◌, List, [], ◌∷◌, map, if◌then◌else◌}
use subdex.Prelude.Chars.{to_ascii_uppercase}
use subdex.Codegen.Model.{Scalar, FieldType, Field, EnumDef, Entity, Schema, rust_type}
use subdex.Codegen.Text.{concat, lowercase, split_underscores}

abbrev pub generated_header : String
generated_header = concat (
    "// @generated by subdex-codegen — DO NOT EDIT.\n" ∷ "//\n"
    ∷ "// This file is regenerated from your schema. Edit the schema and re-run\n"
    ∷ "// `subdex-codegen generate` instead of changing anything here.\n" ∷ [])

unfoldable pub is_json : FieldType → Bool
is_json (FieldType.scalar Scalar.json) = true
is_json (FieldType.scalar_list Scalar.json) = true
is_json _ = false

unfoldable pub any_json : List Field → Bool
any_json [] = false
any_json (f ∷ fs) = is_json f.ty || any_json fs

abbrev pub has_json_field : Entity → Bool
has_json_field e = any_json e.fields

unfoldable pub any_json_entity : List Entity → Bool
any_json_entity [] = false
any_json_entity (e ∷ es) = has_json_field e || any_json_entity es

-- The doc comment of a field.
unfoldable pub field_doc : FieldType → String
field_doc (FieldType.relation target) = concat ("    /// References `" ∷ target ∷ ".id`.\n" ∷ [])
field_doc (FieldType.enum en) = concat ("    /// One of the `" ∷ en ∷ "` enum values.\n" ∷ [])
field_doc _ = ""

unfoldable pub struct_field : Field → String
struct_field f = field_doc f.ty <> concat ("    pub " ∷ f.column ∷ ": " ∷ rust_type f ∷ ",\n" ∷ [])

unfoldable pub render_entity : Entity → String
render_entity e = concat (
    "/// `"
    ∷ e.name
    ∷ "` — maps to the `"
    ∷ e.table
    ∷ "` table.\n"
    ∷ "#[derive(Debug, Clone)]\n"
    ∷ "pub struct "
    ∷ e.name
    ∷ " {\n"
    ∷ concat (map struct_field e.fields)
    ∷ "}\n"
    ∷ [])

-- A piece between underscores, its first letter large and the others small; an empty one gives nothing.
unfoldable pub capitalize : String → String
capitalize empty = empty
capitalize (c ∷ˢ s) = to_ascii_uppercase c ∷ˢ lowercase s

unfoldable pub pascal_variant : String → String
pascal_variant value = concat (map capitalize (split_underscores value))

unfoldable pub variant_line : String → String
variant_line v = concat ("    " ∷ pascal_variant v ∷ ",\n" ∷ [])

unfoldable pub as_str_arm : String → String
as_str_arm v = concat ("            Self::" ∷ pascal_variant v ∷ " => \"" ∷ v ∷ "\",\n" ∷ [])

unfoldable pub from_str_arm : String → String
from_str_arm v = concat ("            \"" ∷ v ∷ "\" => Self::" ∷ pascal_variant v ∷ ",\n" ∷ [])

unfoldable pub render_enum : EnumDef → String
render_enum e = concat (
    "/// The `"
    ∷ e.name
    ∷ "` enum (stored as its variant name in a `TEXT` column).\n"
    ∷ "#[derive(Debug, Clone, Copy, PartialEq, Eq)]\n"
    ∷ "pub enum "
    ∷ e.name
    ∷ " {\n"
    ∷ concat (map variant_line e.values)
    ∷ "}\n\n"
    ∷ "impl "
    ∷ e.name
    ∷ " {\n"
    ∷ "    /// The value as stored in the database.\n"
    ∷ "    pub fn as_str(&self) -> &'static str {\n"
    ∷ "        match self {\n"
    ∷ concat (map as_str_arm e.values)
    ∷ "        }\n    }\n\n"
    ∷ "    /// Parse a stored value back into the enum.\n"
    ∷ "    pub fn from_str(s: &str) -> Option<Self> {\n"
    ∷ "        Some(match s {\n"
    ∷ concat (map from_str_arm e.values)
    ∷ "            _ => return None,\n"
    ∷ "        })\n    }\n}\n"
    ∷ [])

unfoldable pub json_note : List Entity → String
json_note es =
    if any_json_entity es then "// Note: JSON fields require a `serde_json` dependency.\n\n" else ""

-- `render`
unfoldable pub render_rust : Schema → String
render_rust schema = concat (
    generated_header
    ∷ "\n"
    ∷ "#![allow(dead_code)]\n\n"
    ∷ json_note schema.entities
    ∷ concat (map (λ e. render_enum e <> "\n") schema.enums)
    ∷ concat (map (λ e. render_entity e <> "\n") schema.entities)
    ∷ [])
