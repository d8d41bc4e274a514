-- ===== src/Codegen/Files/Order.antt =====
-- The order in which the file system lists a schema's files does not matter.
use Prim.Native.Char.{code}
use Prim.Native.String.{[] as empty, ◌∷◌ as ◌∷ˢ◌}
use mathlib.Core.List.{Perm, foldr, filter_map}
use mathlib.Core.List
use mathlib.Core.List.Perm
use mathlib.Core.HLevel.{hedberg}
use text.Mathlib.TextEquality.{Char-path}
use subdex.Prelude.{
  String, true, false, Option, List, [], ◌∷◌, if◌then◌else◌, ◌≡◌, refl, ap, sym, arith, Attempt,
  Attempt-cases, str_eq, eq_iff, Bool-cases, inl, inr,
}
use subdex.Codegen.Parse.{Syntax}
use subdex.Codegen.Files.{
  FileSystem, str_leb, insert_name, sort, graphql_file, read_all, read_sorted, parse_schema_dir,
}

module _ (files : FileSystem) (parser : String → Syntax) (dir : String) (fs fs' : files.Fs)
    (same : (name : String)
      → files.read_to_string (files.join dir name) fs
        ≡ files.read_to_string (files.join dir name) fs') where
  read_all-same :
      (names : List String) (combined : String)
      → read_all files parser dir names combined fs ≡ read_all files parser dir names combined fs'
  unfolding read_all
  read_all-same [] combined = refl
  read_all-same (name ∷ names) combined =
      rw (same name, read_all)
        (elim (Attempt-cases (files.read_to_string (files.join dir name) fs')) [
          | inl (text, e) ↦ rw (e, read_all) (read_all-same names _)
          | inr (m, e) ↦ rw (e, read_all) refl
        ])

  read_sorted-same :
      (names : List String)
      → read_sorted files parser dir names fs ≡ read_sorted files parser dir names fs'
  unfolding read_sorted
  read_sorted-same names = rw (read_all-same names "") refl

str_leb_antisym : (s t : String) → str_leb s t ≡ true → str_leb t s ≡ true → s ≡ t
unfolding str_leb
str_leb_antisym empty empty h k = refl
str_leb_antisym empty (d ∷ˢ t) h k = absurd (cc k)
str_leb_antisym (c ∷ˢ s) empty h k = absurd (cc h)
str_leb_antisym (c ∷ˢ s) (d ∷ˢ t) h k =
    let same : code c ≡ code d = ground arith in
    let below : str_leb s t ≡ true = ground arith in
    let above : str_leb t s ≡ true = ground arith in
    λ i. Char-path c d same i ∷ˢ str_leb_antisym s t below above i

str_leb_total : (s t : String) → str_leb s t ≡ false → str_leb t s ≡ true
unfolding str_leb
str_leb_total empty t h = absurd (cc h)
str_leb_total (c ∷ˢ s) empty h = refl
str_leb_total (c ∷ˢ s) (d ∷ˢ t) h = ground (arith, str_leb_total s t)

str_leb_trans : (s t u : String) → str_leb s t ≡ true → str_leb t u ≡ true → str_leb s u ≡ true
unfolding str_leb
str_leb_trans empty t u h k = refl
str_leb_trans (c ∷ˢ s) empty u h k = absurd (cc h)
str_leb_trans (c ∷ˢ s) (d ∷ˢ t) empty h k = absurd (cc k)
str_leb_trans (c ∷ˢ s) (d ∷ˢ t) (e ∷ˢ u) h k = ground (arith, str_leb_trans s t u)

-- Two names in their order, whichever comes first.
pair_comm :
    (a b : String) (xs : List String)
    → (if str_leb a b then a ∷ b ∷ xs else b ∷ a ∷ xs)
      ≡ (if str_leb b a then b ∷ a ∷ xs else a ∷ b ∷ xs)
pair_comm a b xs = elim (Bool-cases (str_leb a b)) [
  | inr h ↦ rw (h, str_leb_total a b h) refl
  | inl h ↦ elim (Bool-cases (str_leb b a)) [
    | inr k ↦ rw (h, k) refl
    | inl k ↦ rw (h, k) (λ i. str_leb_antisym a b h k i ∷ str_leb_antisym b a k h i ∷ xs)
  ]
]

-- A name that goes before `x`, and one that goes after it.
apart_comm :
    (a b x : String) (xs : List String)
    → str_leb a x ≡ true
    → str_leb b x ≡ false
    → insert_name a (insert_name b (x ∷ xs)) ≡ insert_name b (insert_name a (x ∷ xs))
unfolding insert_name
apart_comm a b x xs h k = elim (Bool-cases (str_leb b a)) [
  | inl l ↦ absurd (cc (str_leb_trans b a x l h, k))
  | inr l ↦ rw (h, k) (rw (h, l) refl)
]

insert_name_comm :
    (a b : String) (xs : List String)
    → insert_name a (insert_name b xs) ≡ insert_name b (insert_name a xs)
unfolding insert_name
insert_name_comm a b [] = pair_comm a b []
insert_name_comm a b (x ∷ xs) = elim (Bool-cases (str_leb a x)) [
  | inl h ↦ elim (Bool-cases (str_leb b x)) [
    | inl k ↦ rw (h, k) (rw h (pair_comm a b (x ∷ xs)))
    | inr k ↦ apart_comm a b x xs h k
  ]
  | inr h ↦ elim (Bool-cases (str_leb b x)) [
    | inl k ↦ sym (apart_comm b a x xs k h)
    | inr k ↦ rw (h, k) (rw h (ap (λ l. x ∷ l) (insert_name_comm a b xs)))
  ]
]

str_eq-Dec : (s t : String) → Dec (s ≡ t)
str_eq-Dec s t = elim (Bool-cases (str_eq s t)) [
  | inl b ↦ yes ((eq_iff s t).0 b)
  | inr b ↦ no (λ e. cc ((eq_iff s t).1 e, b))
]

sort-Perm : {xs ys : List String} → Perm xs ys → sort xs ≡ sort ys
unfolding sort
sort-Perm p = Perm.foldr-eq (List.is_set (hedberg str_eq-Dec)) insert_name insert_name_comm p []

-- Two file systems that list the same entries of a directory, each in its own order, and where the files of
-- the directory have the same texts, give the same schema, or the same error.
pub parse_schema_dir-Perm :
    (files : FileSystem) (parser : String → Syntax) (dir : String) (fs fs' : files.Fs)
    (entries entries' : List (Option String))
    → files.read_dir dir fs ≡ Attempt.got entries
    → files.read_dir dir fs' ≡ Attempt.got entries'
    → Perm entries entries'
    → ((name : String)
        → files.read_to_string (files.join dir name) fs
          ≡ files.read_to_string (files.join dir name) fs')
    → parse_schema_dir files parser dir fs ≡ parse_schema_dir files parser dir fs'
unfolding parse_schema_dir
parse_schema_dir-Perm files parser dir fs fs' entries entries' e e' p same =
    rw (e, e', parse_schema_dir, sort-Perm (Perm.filter_map graphql_file p))
      (read_sorted-same files parser dir fs fs' same (sort (filter_map graphql_file entries')))
