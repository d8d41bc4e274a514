-- ===== src/Tests/Commands.antt =====
-- The command line over a file system of two schema files.
use mathlib.Core.List.{Perm}
use mathlib.Core.List.Perm
use subdex.Prelude.{
  String, Option, ◌<>◌, str_eq, Bool, true, false, none, some, List, [], ◌∷◌, ◌≡◌, refl, Attempt,
  if◌then◌else◌,
}
use subdex.Codegen.Parse.{Syntax}
use subdex.Codegen.Files.{FileSystem, parse_schema_dir}
use subdex.Codegen.Files.Order.{parse_schema_dir-Perm}
use subdex.Codegen.Cli.{Console}

-- Paths and texts, the last one written first.
abbrev Tree : Type 0
Tree = List (String × String)

abbrev lookup : Tree → String → Attempt String
lookup [] path = Attempt.lost "no such file"
lookup ((p, text) ∷ rest) path = if str_eq p path then Attempt.got text else lookup rest path

abbrev disk : FileSystem
disk = record {
  Fs = Bool × Tree;
  join = λ dir path. dir <> ("/" <> path);
  parent = λ path. some path;
  is_dir = λ path fs. true;
  exists = λ path fs. false;
  read_dir = λ path fs. Attempt.got (
      if fs.0
      then some "b.graphql" ∷ some "a.graphql" ∷ none ∷ []
      else some "a.graphql" ∷ some "b.graphql" ∷ none ∷ []);
  read_to_string = λ path fs. lookup fs.1 path;
  create_dir_all = λ path fs. (Attempt.got tt, fs);
  write = λ path text fs. (Attempt.got tt, (fs.0, (path, text) ∷ fs.1));
}

-- Every text is a schema without types.
abbrev parser : String → Syntax
parser source = Syntax.document []

abbrev console : Bool → Tree → Console disk
console flag tree = record { fs = (flag, tree); out = []; err = [] }

abbrev tree : Tree
tree = ("dir/a.graphql", "enum A { X }") ∷ ("dir/b.graphql", "type B") ∷ []

entries_swapped :
    Perm {A = Option String}
      (some "b.graphql" ∷ some "a.graphql" ∷ none ∷ [])
      (some "a.graphql" ∷ some "b.graphql" ∷ none ∷ [])
entries_swapped = Perm.swap (some "a.graphql") (some "b.graphql") (none ∷ [])

parse_schema_dir-Perm_example :
    parse_schema_dir disk parser "dir" (true, tree)
    ≡ parse_schema_dir disk parser "dir" (false, tree)
parse_schema_dir-Perm_example =
    parse_schema_dir-Perm disk parser "dir" (true, tree) (false, tree)
      (some "b.graphql" ∷ some "a.graphql" ∷ none ∷ [])
      (some "a.graphql" ∷ some "b.graphql" ∷ none ∷ []) refl refl entries_swapped (λ name. refl)
