-- ===== src/Codegen/Files.antt =====
-- crates/subdex-codegen/src/lib.rs: a schema from the files of a directory, and what is generated of it.
-- The file system is a parameter: a state, and the calls of `std::fs` and `std::path` on it.
pub mod Order
use Prim.Native.Char.{Char, code}
use Prim.Native.String.{[] as empty, ◌∷◌ as ◌∷ˢ◌}
use mathlib.Core.List.{foldr, filter_map}
use subdex.Prelude.{
  String, ◌<>◌, str_eq, Bool, true, false, Option, none, some, List, [], ◌∷◌, is_empty, ltb, ◌==◌,
  if◌then◌else◌, Attempt,
}
use subdex.Codegen.Text.{concat}
use subdex.Codegen.Model.{Schema}
use subdex.Codegen.Parse.{ParseError, ParseResult, Syntax, parse_schema}
use subdex.Codegen.Sql.{render}
use subdex.Codegen.Upsert.{render_all}
use subdex.Codegen.Rust.{render_rust}
use subdex.Codegen.Graphql.{render_graphql}

pub record FileSystem : Type 1 where
  pub Fs : Type 0
  pub join : String → String → String
  pub parent : String → Option String
  pub is_dir : String → Fs → Bool
  pub exists : String → Fs → Bool
  -- the names of the entries; one that cannot be read is `none`
  pub read_dir : String → Fs → Attempt (List (Option String))
  pub read_to_string : String → Fs → Attempt String
  pub create_dir_all : String → Fs → Attempt (Unit {0}) × Fs
  pub write : String → String → Fs → Attempt (Unit {0}) × Fs

-- What stands after the last dot.
unfoldable pub after_dot : String → Option String
after_dot empty = none
after_dot (c ∷ˢ s) =
    let later = after_dot s in
    elim later [ some x ↦ some x | none ↦ if code c == 46 then some s else none ]

-- `p.extension()` of a file's name: a dot in front starts no extension.
unfoldable pub extension : String → Option String
extension empty = none
extension (c ∷ˢ s) = after_dot s

unfoldable pub is_some_and : Option String → String → Bool
is_some_and none x = false
is_some_and (some y) x = str_eq y x

-- `.filter_map(|e| e.ok()…)` and the filter on the extension.
unfoldable pub graphql_file : Option String → Option String
graphql_file none = none
graphql_file (some name) = if is_some_and (extension name) "graphql" then some name else none

-- The order of texts by their characters.
unfoldable pub str_leb : String → String → Bool
str_leb empty t = true
str_leb (c ∷ˢ s) empty = false
str_leb (c ∷ˢ s) (d ∷ˢ t) =
    let rest = str_leb s t in
    if ltb (code c) (code d) then true else if ltb (code d) (code c) then false else rest

unfoldable pub insert_name : String → List String → List String
insert_name x [] = x ∷ []
insert_name x (y ∷ ys) = let rest = insert_name x ys in if str_leb x y then x ∷ y ∷ ys else y ∷ rest

-- `paths.sort()`; the paths differ in their last name only.
unfoldable pub sort : List String → List String
sort = foldr insert_name []

pub data SchemaDirError : Type 0 where
  read : String → String → SchemaDirError
  empty_dir : String → SchemaDirError
  parse : ParseError → SchemaDirError

pub data DirResult (A : Type 0) : Type 0 where
  ok : A → DirResult A
  err : SchemaDirError → DirResult A

unfoldable pub of_parse : ParseResult Schema → DirResult Schema
of_parse (ParseResult.ok schema) = DirResult.ok schema
of_parse (ParseResult.err e) = DirResult.err (SchemaDirError.parse e)

pub record Generated : Type 0 where
  pub entities_rs : String
  pub migration_sql : String
  pub migration_name : String
  pub graphql_rs : String

unfoldable pub generate : Schema → Generated
generate schema = record {
  entities_rs = concat (render_rust schema ∷ "\n" ∷ render_all schema ∷ []);
  migration_sql = render schema;
  migration_name = "0001_schema.sql";
  graphql_rs = render_graphql schema;
}

module _ (files : FileSystem) (parser : String → Syntax) where
  -- The loop over the sorted paths; `combined` is the text so far.
  unfoldable pub read_all : String → List String → String → files.Fs → DirResult Schema
  read_all dir [] combined fs = of_parse (parse_schema parser combined)
  read_all dir (name ∷ names) combined fs =
      let path = files.join dir name in
      elim (files.read_to_string path fs) [
        | Attempt.lost e ↦ DirResult.err (SchemaDirError.read path e)
        | Attempt.got text ↦ read_all dir names (concat (combined ∷ text ∷ "\n" ∷ [])) fs
      ]

  unfoldable pub read_sorted : String → List String → files.Fs → DirResult Schema
  read_sorted dir names fs =
      if is_empty names
      then DirResult.err (SchemaDirError.empty_dir dir)
      else read_all dir names "" fs

  unfoldable pub parse_schema_dir : String → files.Fs → DirResult Schema
  parse_schema_dir dir fs = elim (files.read_dir dir fs) [
    | Attempt.lost e ↦ DirResult.err (SchemaDirError.read dir e)
    | Attempt.got entries ↦ read_sorted dir (sort (filter_map graphql_file entries)) fs
  ]
