-- ===== src/Codegen/Cli/Laws.antt =====
-- What the command line relies on of a file system.
use Prim.Native.Char.{code}
use Prim.Native.String.{[] as empty, ◌∷◌ as ◌∷ˢ◌}
use subdex.Prelude.{
  String, ◌<>◌, str_eq, Bool, true, not, ◌&&◌, ◌||◌, List, [], ◌∷◌, ◌≡◌, Attempt, ◌==◌,
  if◌then◌else◌,
}
use subdex.Codegen.Files.{FileSystem}

-- The names that a path goes through.
unfoldable pub split_slashes : String → List String
split_slashes empty = "" ∷ []
split_slashes (c ∷ˢ s) = elim (split_slashes s) [
  | [] ↦ []
  | x ∷ xs ↦ if code c == 47 then "" ∷ x ∷ xs else (c ∷ˢ x) ∷ xs
]

unfoldable pub all_names : List String → Bool
all_names [] = true
all_names (x ∷ xs) = not (str_eq x "" || (str_eq x "." || str_eq x "..")) && all_names xs

-- A relative path that goes only down.
unfoldable pub is_plain : String → Bool
is_plain path = all_names (split_slashes path)

-- What the commands rely on: a file that was written is read back, other files stay, and different plain
-- paths in a directory are different files.
pub record IsFileSystem (files : FileSystem) : Type 1 where
  pub SameFile : String → String → Type 0
  pub write_reads :
      (path contents : String) (fs : files.Fs)
      → (files.write path contents fs).0 ≡ Attempt.got tt
      → files.read_to_string path (files.write path contents fs).1 ≡ Attempt.got contents
  pub write_leaves :
      (path contents other text : String) (fs : files.Fs)
      → ¬ SameFile path other
      → files.read_to_string other fs ≡ Attempt.got text
      → files.read_to_string other (files.write path contents fs).1 ≡ Attempt.got text
  pub create_leaves :
      (dir other text : String) (fs : files.Fs)
      → files.read_to_string other fs ≡ Attempt.got text
      → files.read_to_string other (files.create_dir_all dir fs).1 ≡ Attempt.got text
  pub join_apart :
      (dir p q : String)
      → is_plain p ≡ true
      → is_plain q ≡ true
      → SameFile (files.join dir p) (files.join dir q)
      → p ≡ q
  pub join_join :
      (dir p q : String) → files.join (files.join dir p) q ≡ files.join dir (p <> ("/" <> q))
