-- ===== src/Codegen/Cli/Dispatch.antt =====
-- Which commands may write.
use subdex.Prelude.{
  String, str_eq, false, ◌||◌, Option, List, [], ◌∷◌, ◌≡◌, ◌≢◌, refl, Attempt-cases, Bool-cases,
  inl, inr, eq_iff, arith,
}
use subdex.Codegen.Parse.{Syntax}
use subdex.Codegen.Files.{FileSystem}
use subdex.Codegen.Cli.{Console, println, load, print_all, check, run_check, out_dir, command, main}

str_differs : {x y : String} → x ≢ y → str_eq x y ≡ false
str_differs {x} {y} ne = ground (arith, eq_iff x y)

module _ (files : FileSystem) (parser : String → Syntax) where
  print_all-fs :
      (lines : List String) (w : Console files) → (print_all files parser lines w).fs ≡ w.fs
  unfolding print_all
  print_all-fs [] w = refl
  print_all-fs (l ∷ ls) w = print_all-fs ls (println l w)

  check-fs : (path : String) (w : Console files) → (check files parser path w).1.fs ≡ w.fs
  unfolding check
  check-fs path w = elim (Attempt-cases (load files parser path w.fs)) [
    | inl (schema, e) ↦ rw (e, check) (print_all-fs _ w)
    | inr (m, e) ↦ rw (e, check) refl
  ]

  run_check-fs :
      (args : List String) (w : Console files) → (run_check files parser args w).1.fs ≡ w.fs
  unfolding run_check
  run_check-fs [] w = refl
  run_check-fs (path ∷ args) w = check-fs path w

  command-fs :
      (out : Option String) (name : String) (args : List String) (w : Console files)
      → str_eq name "generate" ≡ false
      → str_eq name "new" ≡ false
      → (command files parser out (name ∷ args) w).1.fs ≡ w.fs
  unfolding command
  command-fs out name args w g n = elim (Bool-cases (str_eq name "check")) [
    | inl c ↦ rw c (run_check-fs args w)
    | inr c ↦ elim (Bool-cases (str_eq name "--help" || (str_eq name "-h" || str_eq name "help"))) [
      | inl h ↦ rw (c, g, n, h) refl
      | inr h ↦ rw (c, g, n, h) refl
    ]
  ]

  -- Whatever the arguments are, only `generate` and `new` write to the file system: with any other command,
  -- or none, it is left as it was.
  main-fs :
      (program name : String) (args : List String) (w : Console files)
      → name ≢ "generate"
      → name ≢ "new"
      → ((main files parser (program ∷ name ∷ args) w).1.fs ≡ w.fs)
        × ((main files parser (program ∷ []) w).1.fs ≡ w.fs)
        × ((main files parser [] w).1.fs ≡ w.fs)
  unfolding main command
  main-fs program name args w g n = (
    command-fs (out_dir files parser (program ∷ name ∷ args)) name args w (str_differs g)
        (str_differs n),
    refl,
    refl,
  )
