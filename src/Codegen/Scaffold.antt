-- ===== src/Codegen/Scaffold.antt =====
-- crates/subdex-codegen/src/scaffold.rs: the files of a new project, and the names it may have.
pub mod Sources
pub mod Texts
pub mod Laws
use Prim.Native.Char.{Char, char, code}
use Prim.Native.String.{[] as empty, ◌∷◌ as ◌∷ˢ◌}
use text.Mathlib.Text.{starts_with}
use subdex.Prelude.{
  ℕ, zero, suc, String, ◌<>◌, Bool, not, ◌||◌, Option, none, some, List, [], ◌∷◌, ◌==◌,
  if◌then◌else◌,
}
use subdex.Prelude.Chars.{is_ascii_lowercase, is_ascii_digit, underscore}
use subdex.Codegen.Text.{concat, is_underscore}
use subdex.Codegen.Scaffold.Sources.{cargo_toml, lib_rs, handler_rs}
use subdex.Codegen.Scaffold.Texts.{
  main_rs_template, schema_graphql, env_example, docker_compose, gitignore, readme,
}

pub record ScaffoldFile : Type 0 where
  pub path : String
  pub contents : String

-- The `Err` of the source has the reason.
pub data Validity : Type 0 where
  valid : Validity
  invalid : String → Validity

abbrev pub is_dash : Char → Bool
is_dash c = code c == 45

abbrev pub is_name_char : Char → Bool
is_name_char c = is_ascii_lowercase c || (is_ascii_digit c || (is_underscore c || is_dash c))

-- `chars().find(|c| !(…))`
unfoldable pub find_bad : String → Option Char
find_bad empty = none
find_bad (c ∷ˢ s) = let rest = find_bad s in if not (is_name_char c) then some c else rest

unfoldable pub validate_chars : String → Option Char → Validity
validate_chars name none = Validity.valid
validate_chars name (some bad) = Validity.invalid (
    concat (
      "project name `"
      ∷ name
      ∷ "` has an invalid character `"
      ∷ (bad ∷ˢ empty)
      ∷ "` (use lowercase letters, digits, `-`, `_`)"
      ∷ []))

unfoldable pub validate_name : String → Validity
validate_name empty = Validity.invalid "project name must not be empty"
validate_name (first ∷ˢ rest) =
    let name = first ∷ˢ rest in
    if is_ascii_digit first || is_dash first
    then Validity.invalid
        (concat ("project name `" ∷ name ∷ "` must not start with a digit or `-`" ∷ []))
    else validate_chars name (find_bad name)

-- `name.replace('-', "_")`
unfoldable pub crate_path : String → String
crate_path empty = empty
crate_path (c ∷ˢ s) = (if is_dash c then underscore else c) ∷ˢ crate_path s

-- `replace` of a text of `suc width` characters; the number counts those of a match that are left.
unfoldable pub replace_from : ℕ → String → ℕ → String → String → String
replace_from (suc skip) pattern width to empty = empty
replace_from (suc skip) pattern width to (c ∷ˢ s) = replace_from skip pattern width to s
replace_from zero pattern width to empty = empty
replace_from zero pattern width to (c ∷ˢ s) = elim (starts_with (c ∷ˢ s) pattern) [
  | Bool.true ↦ to <> replace_from width pattern width to s
  | Bool.false ↦ c ∷ˢ replace_from zero pattern width to s
]

unfoldable pub main_rs : String → String
main_rs name = replace_from 0 "{{CRATE}}" 8 (crate_path name) main_rs_template

abbrev pub file : String → String → ScaffoldFile
file path contents = record { path = path; contents = contents }

unfoldable pub scaffold : String → List ScaffoldFile
scaffold name =
    file "Cargo.toml" (cargo_toml name)
    ∷ file "src/main.rs" (main_rs name)
    ∷ file "src/handler.rs" handler_rs
    ∷ file "src/lib.rs" lib_rs
    ∷ file "schema.graphql" schema_graphql
    ∷ file ".env.example" env_example
    ∷ file "docker-compose.yml" (docker_compose name)
    ∷ file ".gitignore" gitignore
    ∷ file "README.md" (readme name)
    ∷ []
