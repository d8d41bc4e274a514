-- ===== src/Codegen/Cli.antt =====
-- crates/subdex-codegen/src/main.rs: the command line, over a file system and what is printed.
pub mod Messages
pub mod Laws
pub mod Writes
pub mod Dispatch
use subdex.Prelude.{
  ℕ, suc, String, ◌<>◌, str_eq, Bool, true, false, not, ◌&&◌, ◌||◌, Option, none, some, List, [],
  ◌∷◌, ◌++◌, length, map, is_empty, ltb, if◌then◌else◌, decimal, Attempt, first,
}
use subdex.Codegen.Text.{concat}
use subdex.Codegen.Sql.{join}
use subdex.Codegen.Model.{Field, Entity, EnumDef, Schema, pg_type, rust_type}
use subdex.Codegen.Parse.{ParseResult, Syntax, parse_schema}
use subdex.Codegen.Scaffold.{ScaffoldFile, Validity, validate_name, scaffold}
use subdex.Codegen.Files.{FileSystem, DirResult, Generated, generate, parse_schema_dir}
use subdex.Codegen.Cli.Messages.{
  usage_text, parse_error_text, dir_error_text, scaffolded_text, generated_text, check_lines,
}

pub data ExitCode : Type 0 where
  success failure : ExitCode

module _ (files : FileSystem) where
  -- The file system, and the lines that are printed.
  pub record Console : Type 0 where
    pub fs : files.Fs
    pub out : List String
    pub err : List String

module _ {files : FileSystem} where
  abbrev pub eprintln : String → Console files → Console files
  eprintln text w = record w { err = w.err ++ (text ∷ []) }

  abbrev pub println : String → Console files → Console files
  println text w = record w { out = w.out ++ (text ∷ []) }

  -- An error's message, and the exit with a failure.
  abbrev pub fail : String → Console files → ExitCode × Console files
  fail text w = (ExitCode.failure, eprintln ("error: " <> text) w)

  -- The outcome of a call on the file system: go on, or fail with a message.
  unfoldable pub after_call :
      (String → String)
      → Attempt (Unit {0}) × files.Fs
      → Console files
      → (Console files → ExitCode × Console files)
      → ExitCode × Console files
  after_call message (Attempt.got _, fs) w go = go (record w { fs = fs })
  after_call message (Attempt.lost e, fs) w go = fail (message e) (record w { fs = fs })

module _ (files : FileSystem) where
  -- `path.parent()` and its `create_dir_all`, if there is one.
  unfoldable pub create_parent :
      Option String
      → Console files
      → (Console files → ExitCode × Console files)
      → ExitCode × Console files
  create_parent none w go = go w
  create_parent (some parent) w go =
      after_call (λ e. concat ("creating `" ∷ parent ∷ "`: " ∷ e ∷ []))
        (files.create_dir_all parent w.fs) w go

  unfoldable pub write_file :
      String
      → String
      → Console files
      → (Console files → ExitCode × Console files)
      → ExitCode × Console files
  write_file path contents w go =
      after_call (λ e. concat ("writing `" ∷ path ∷ "`: " ∷ e ∷ []))
        (files.write path contents w.fs) w go

  -- The loop over the files of a new project.
  unfoldable pub write_files :
      String
      → List ScaffoldFile
      → Console files
      → (Console files → ExitCode × Console files)
      → ExitCode × Console files
  write_files out [] w go = go w
  write_files out (f ∷ fs) w go =
      let path = files.join out f.path in
      create_parent (files.parent path) w
        λ u. write_file path f.contents u λ u'. write_files out fs u' go

  unfoldable pub has_entry : Attempt (List (Option String)) → Bool
  has_entry (Attempt.got entries) = not (is_empty entries)
  has_entry (Attempt.lost e) = false

  -- A directory that is there and not empty.
  unfoldable pub is_occupied : String → files.Fs → Bool
  is_occupied out fs = files.exists out fs && has_entry (files.read_dir out fs)

  abbrev pub scaffolded : String → String → Console files → ExitCode × Console files
  scaffolded name out u = (ExitCode.success, println (scaffolded_text name out) u)

  unfoldable pub new_project : String → String → Console files → ExitCode × Console files
  new_project name out w = elim (validate_name name) [
    | Validity.invalid e ↦ fail e w
    | Validity.valid ↦
        if is_occupied out w.fs
        then fail (concat ("`" ∷ out ∷ "` already exists and is not empty" ∷ [])) w
        else write_files out (scaffold name) w (scaffolded name out)
  ]

  abbrev pub reported : Schema → String → Console files → ExitCode × Console files
  reported schema out u = (
    ExitCode.success,
    println
        (generated_text (length schema.entities) out (files.join out "entities.rs")
          (files.join (files.join out "migrations") (generate schema).migration_name)
          (files.join out "graphql.rs"))
        u,
  )

  -- The directory and the three files that `generate` makes.
  unfoldable pub write_outputs :
      Schema
      → String
      → Console files
      → (Console files → ExitCode × Console files)
      → ExitCode × Console files
  write_outputs schema out w go =
      let g = generate schema in
      let migrations = files.join out "migrations" in
      create_parent (some migrations) w λ u₁.
        write_file (files.join out "entities.rs") g.entities_rs u₁ λ u₂.
          write_file (files.join migrations g.migration_name) g.migration_sql u₂
            λ u₃. write_file (files.join out "graphql.rs") g.graphql_rs u₃ go

module _ (files : FileSystem) (parser : String → Syntax) where
  unfoldable pub of_text : Attempt (ParseResult Schema) → String → Attempt Schema
  of_text (Attempt.lost e) path = Attempt.lost (concat ("reading `" ∷ path ∷ "`: " ∷ e ∷ []))
  of_text (Attempt.got (ParseResult.ok schema)) path = Attempt.got schema
  of_text (Attempt.got (ParseResult.err e)) path = Attempt.lost (parse_error_text e)

  unfoldable pub of_dir : DirResult Schema → Attempt Schema
  of_dir (DirResult.ok schema) = Attempt.got schema
  of_dir (DirResult.err e) = Attempt.lost (dir_error_text e)

  unfoldable pub parsed_text : Attempt String → Attempt (ParseResult Schema)
  parsed_text (Attempt.got text) = Attempt.got (parse_schema parser text)
  parsed_text (Attempt.lost e) = Attempt.lost e

  -- The `result` of `load`.
  unfoldable pub load : String → files.Fs → Attempt Schema
  load path fs =
      if files.is_dir path fs
      then of_dir (parse_schema_dir files parser path fs)
      else of_text (parsed_text (files.read_to_string path fs)) path

  -- `generate` of the command line.
  unfoldable pub generate_into : String → String → Console files → ExitCode × Console files
  generate_into schema_path out w = elim (load schema_path w.fs) [
    | Attempt.lost e ↦ fail e w
    | Attempt.got schema ↦ write_outputs files schema out w (reported files schema out)
  ]

  unfoldable pub print_all : List String → Console files → Console files
  print_all [] w = w
  print_all (l ∷ ls) w = print_all ls (println l w)

  unfoldable pub check : String → Console files → ExitCode × Console files
  check path w = elim (load path w.fs) [
    | Attempt.lost e ↦ fail e w
    | Attempt.got schema ↦ (ExitCode.success, print_all (check_lines path schema) w)
  ]

  -- `out_dir`: what follows the first `--out` or `-o`.
  unfoldable pub out_dir : List String → Option String
  out_dir [] = none
  out_dir (a ∷ args) =
      let later = out_dir args in if str_eq a "--out" || str_eq a "-o" then first args else later

  unfoldable pub or_else : Option String → String → String
  or_else none x = x
  or_else (some y) x = y

  abbrev pub usage : Console files → Console files
  usage = eprintln usage_text

  abbrev needs : String → Console files → ExitCode × Console files
  needs text w = (ExitCode.failure, usage (eprintln ("error: " <> text) w))

  unfoldable pub run_check : List String → Console files → ExitCode × Console files
  run_check [] w = needs "`check` needs a path to a schema file or directory" w
  run_check (path ∷ _) w = check path w

  unfoldable pub run_generate :
      Option String → List String → Console files → ExitCode × Console files
  run_generate out [] w = needs "`generate` needs a path to a schema file or directory" w
  run_generate out (schema ∷ _) w = generate_into schema (or_else out "generated") w

  unfoldable pub run_new : Option String → List String → Console files → ExitCode × Console files
  run_new out [] w = needs "`new` needs a project name" w
  run_new out (name ∷ _) w = new_project files name (or_else out name) w

  -- `main` on `args[1..]`, with what `out_dir` finds in all of `args`.
  unfoldable pub command : Option String → List String → Console files → ExitCode × Console files
  command out [] w = (ExitCode.success, usage w)
  command out (name ∷ rest) w =
      if str_eq name "check"
      then run_check rest w
      else if str_eq name "generate"
      then run_generate out rest w
      else if str_eq name "new"
      then run_new out rest w
      else if str_eq name "--help" || (str_eq name "-h" || str_eq name "help")
      then (ExitCode.success, usage w)
      else needs (concat ("unknown command `" ∷ name ∷ "`" ∷ [])) w

  -- `main`: the first of `args` is the program.
  unfoldable pub main : List String → Console files → ExitCode × Console files
  main [] w = (ExitCode.success, usage w)
  main (program ∷ args) w = command (out_dir (program ∷ args)) args w
