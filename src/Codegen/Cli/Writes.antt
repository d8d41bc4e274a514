-- ===== src/Codegen/Cli/Writes.antt =====
-- What `new` and `generate` leave in the file system where they end.
use subdex.Prelude.{String, str_eq, Bool, true, not, ◌&&◌, List, [], ◌∷◌, All, ◌≡◌, ◌⊎◌, Attempt}
use subdex.Codegen.Model.{Schema}
use subdex.Codegen.Scaffold.{ScaffoldFile, file}
use subdex.Codegen.Files.{FileSystem, generate}
use subdex.Codegen.Cli.{ExitCode, Console}
use subdex.Codegen.Cli.Laws.{is_plain, IsFileSystem}

-- Calls on the file system that were all done.
pub data Calls (files : FileSystem) (fs : files.Fs) : files.Fs → Type 0 where
  none_yet : Calls files fs fs
  created :
      (dir : String) (u : files.Fs)
      → Calls files fs u
      → (files.create_dir_all dir u).0 ≡ Attempt.got tt
      → Calls files fs (files.create_dir_all dir u).1
  written :
      (path text : String) (u : files.Fs)
      → Calls files fs u
      → (files.write path text u).0 ≡ Attempt.got tt
      → Calls files fs (files.write path text u).1

-- The call that fails in a file system.
pub data Fails (files : FileSystem) (u : files.Fs) : files.Fs → Type 0 where
  creating :
      (dir m : String)
      → (files.create_dir_all dir u).0 ≡ Attempt.lost m
      → Fails files u (files.create_dir_all dir u).1
  writing :
      (path text m : String)
      → (files.write path text u).0 ≡ Attempt.lost m
      → Fails files u (files.write path text u).1

-- A run that calls the file system, with each call done up to the one that fails, if one does: without one
-- it succeeds and `Q` holds, and with one it fails at once and leaves the file system as that call did.
abbrev pub Ended :
    (files : FileSystem) → (Console files → Type 0) → files.Fs → ExitCode × Console files → Type 0
Ended files Q fs r =
    ((r.0 ≡ ExitCode.success) × Calls files fs r.1.fs × Q r.1)
    ⊎ ((r.0 ≡ ExitCode.failure) × ((u : files.Fs) × Calls files fs u × Fails files u r.1.fs))

-- The files that are generated of a schema.
abbrev pub outputs : Schema → List ScaffoldFile
outputs schema =
    let g = generate schema in
    file "entities.rs" g.entities_rs
    ∷ file "migrations/0001_schema.sql" g.migration_sql
    ∷ file "graphql.rs" g.graphql_rs
    ∷ []

-- Each has another path than those behind it, and all are plain.
unfoldable pub no_path : String → List ScaffoldFile → Bool
no_path path [] = true
no_path path (f ∷ fs) = not (str_eq path f.path) && no_path path fs

unfoldable pub all_plain : List ScaffoldFile → Bool
all_plain [] = true
all_plain (f ∷ fs) = is_plain f.path && (no_path f.path fs && all_plain fs)

module _ (files : FileSystem) (L : IsFileSystem files) where
  abbrev pub Holds : Console files → String → String → Type 0
  Holds w path text = files.read_to_string path w.fs ≡ Attempt.got text

  abbrev pub AllHold : String → List ScaffoldFile → Console files → Type 0
  AllHold out fs w = All (λ f. Holds w (files.join out f.path) f.contents) fs

  -- The file is none of those that are written.
  abbrev Spares : String → List ScaffoldFile → String → Type 0
  Spares out fs other = All (λ f. ¬ L.SameFile (files.join out f.path) other) fs

  -- A command that fails before it writes.
  abbrev pub Refused : Console files → ExitCode × Console files → Type 0
  Refused w r = (r.0 ≡ ExitCode.failure) × (r.1.fs ≡ w.fs)
