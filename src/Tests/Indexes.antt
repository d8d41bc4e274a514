-- ===== src/Tests/Indexes.antt =====
-- A database whose registry has room for one deferred index.
use Prim.Native.Char.{Char, char, code}
use Prim.Native.String.{[] as empty, ◌∷◌ as ◌∷ˢ◌}
use Prim.Native.String.append
use mathlib.Core.Option.{some-injective}
use subdex.Codegen.Sql.{read_ident}
use subdex.Prelude.{
  ◌==◌, ◌≡◌, refl, ◌∙◌, sym, ap, subst, String, ◌<>◌, str_eq, Bool, true, false, ◌||◌, Option, none,
  some, List, [], ◌∷◌, All, if◌then◌else◌, arith, eq_iff, Bool-cases, inl, inr,
}
use subdex.Exec.Ends.{Ends}
use subdex.Store.Postgres.{Postgres, SqlResult, on_backfill_complete}
use subdex.Store.Postgres.Indexes.{
  find, Catalog, Created, Drops, IsCatalog, IsKept, IsRegistry, Keeps,
}
use subdex.Store.Postgres.Indexes.Recreates.{on_backfill_complete-IsKept}

record Indexes : Type 0 where
  registered : Option (String × String)
  made : String → Bool

abbrev rows_of : Option (String × String) → List (String × String)
rows_of none = []
rows_of (some row) = row ∷ []

abbrev create : String → String
create n = "CREATE INDEX IF NOT EXISTS " <> n

abbrev make : String → Indexes → Indexes
make ddl s = record s { made = λ n. str_eq ddl (create n) || s.made n }

abbrev drops : String → Bool
drops empty = false
drops (c ∷ˢ s) = code c == 68

-- The text behind a prefix.
abbrev behind : String → String → String
behind empty s = s
behind (c ∷ˢ p) empty = empty
behind (c ∷ˢ p) (d ∷ˢ s) = behind p s

abbrev without : Option String → Indexes → Indexes
without none s = s
without (some name) s = record s { made = λ n. if str_eq n name then false else s.made n }

abbrev run : String → Indexes → Indexes
run ddl s =
    if drops ddl then without (read_ident (behind "DROP INDEX IF EXISTS " ddl)) s else make ddl s

abbrev register :
    String → String → Option (String × String) → Indexes → SqlResult (Unit {0}) × Indexes
register name ddl none s = (SqlResult.done tt, record s { registered = some (name, ddl) })
register name ddl (some (other, _)) s =
    if str_eq other name
    then (SqlResult.done tt, record s { registered = some (name, ddl) })
    else (SqlResult.failed "full", s)

abbrev clear : String → Option (String × String) → Option (String × String)
clear name none = none
clear name (some (other, ddl)) = if str_eq other name then none else some (other, ddl)

abbrev database : Postgres
database = record {
  Db = Indexes;
  Tx = Indexes;
  migrate = λ s. (SqlResult.done tt, s);
  select_cursor = λ s. (SqlResult.done none, s);
  select_hash = λ height s. (SqlResult.done none, s);
  begin = λ s. (SqlResult.done s, s);
  upsert_block = λ height hash parent timestamp version s. (SqlResult.done tt, s);
  delete_below = λ height s. (SqlResult.done tt, s);
  delete_above = λ height s. (SqlResult.done tt, s);
  commit = λ tx s. (SqlResult.done tt, tx);
  select_deferred = λ s. (SqlResult.done (rows_of s.registered), s);
  register_deferred = λ name ddl s. register name ddl s.registered s;
  clear_deferred = λ name s. (SqlResult.done tt, record s { registered = clear name s.registered });
  execute = λ ddl s. (SqlResult.done tt, make ddl s);
  execute_in = λ ddl s. (SqlResult.done tt, run ddl s);
}

abbrev catalog : Catalog database
catalog = record {
  Contents = Indexes;
  contents = λ s. s;
  pending = λ s tx. tx;
  deferred = λ s n. find n (rows_of s.registered);
  present = λ s n. s.made n;
  Creates = λ ddl n. ddl ≡ create n;
  Fits = λ n. Unit;
}

make-Created :
    (ddl name : String) (s : Indexes)
    → ddl ≡ create name
    → Created database catalog name s (make ddl s)
make-Created ddl name s e = record {
  there = rw ((eq_iff ddl (create name)).1 e) refl;
  stays = λ n e. ground (arith, e);
  registry = λ n. refl;
}

differs : (other n name : String) → str_eq other name ≡ false → n ≡ name → str_eq n other ≡ false
differs other n name b e = ground (arith, eq_iff other name, eq_iff n other, e)

find-clear :
    (name n : String) (o : Option (String × String))
    → find n (rows_of (clear name o)) ≡ (if str_eq n name then none else find n (rows_of o))
find-clear name n none = ground arith
find-clear name n (some (other, ddl)) = elim (Bool-cases (str_eq other name)) [
  | inl b ↦ rw (b, (eq_iff other name).0 b) (ground arith)
  | inr b ↦ elim (Bool-cases (str_eq n name)) [
    | inr c ↦ rw (b, c) refl
    | inl c ↦ rw (b, c, differs other n name b ((eq_iff n name).0 c)) refl
  ]
]

listed :
    (o : Option (String × String)) → All (λ (n, ddl). find n (rows_of o) ≡ some ddl) (rows_of o)
listed none = tt
listed (some (name, ddl)) = (rw ((eq_iff name name).1 refl) refl, tt)

register_writes :
    (name ddl : String) (o : Option (String × String)) (s : Indexes)
    → (register name ddl o s).0 ≡ SqlResult.done tt
    → s.registered ≡ o
    → (((n : String)
          → find n (rows_of (register name ddl o s).1.registered)
            ≡ (if str_eq n name then some ddl else find n (rows_of s.registered)))
        × ((n : String) → (register name ddl o s).1.made n ≡ s.made n))
register_writes name ddl none s e at = (λ n. rw at refl, λ n. refl)
register_writes name ddl (some (other, d)) s e at = elim (Bool-cases (str_eq other name)) [
  | inr b ↦ absurd (cc (rw b at e))
  | inl b ↦ rw b (λ n. rw (at, (eq_iff other name).0 b) (ground arith), λ n. refl)
]

behind-append : (p s : String) → behind p (p <> s) ≡ s
behind-append empty s = append.nil s
behind-append (c ∷ˢ p) s = rw (append.cons c p s) (behind-append p s)

drops-append : (c : Char) (p s : String) → drops ((c ∷ˢ p) <> s) ≡ (code c == 68)
drops-append c p s = rw (append.cons c p s) refl

run-Created :
    (ddl name : String) (s : Indexes)
    → ddl ≡ create name
    → Created database catalog name s (run ddl s)
run-Created ddl name s e =
    subst (Created database catalog name s) (sym same) (make-Created ddl name s e)
  where
    same : run ddl s ≡ make ddl s
    same = rw (e, drops-append (char 67 tt) "REATE INDEX IF NOT EXISTS " name) refl

dropped :
    (ident name : String)
    → read_ident ident ≡ some name
    → (s : Indexes) → Drops database catalog name s (run ("DROP INDEX IF EXISTS " <> ident) s)
dropped ident name quoted s =
    subst (Drops database catalog name s) (sym same) (λ n. refl, λ n. refl)
  where
    same : run ("DROP INDEX IF EXISTS " <> ident) s ≡ without (some name) s
    same =
        rw
          (
            drops-append (char 68 tt) "ROP INDEX IF EXISTS " ident,
            behind-append "DROP INDEX IF EXISTS " ident,
            quoted,
          )
          refl

database-IsCatalog : IsCatalog database catalog
database-IsCatalog = record {
  select_cursor_keeps = λ s. refl;
  begin_keeps = λ s. refl;
  begin_opens = λ s tx e. ground arith;
  commit_applies = λ tx s e. refl;
  commit_fails = λ tx s x e. cc;
  select_deferred_keeps = λ s. refl;
  select_deferred_reads = λ s rows e.
      let same : rows_of s.registered ≡ rows = ground arith in
      subst
        (λ r.
          ((n : String) → find n (rows_of s.registered) ≡ find n r)
          × All (λ (n, ddl). find n (rows_of s.registered) ≡ some ddl) r)
        same (λ n. refl, listed s.registered);
  register_writes = λ name ddl s tx e. register_writes name ddl tx.registered tx e refl;
  clear_writes = λ name s tx e. (λ n. find-clear name n tx.registered, λ n. refl);
  drop_writes = λ ident name quoted fit s tx e. dropped ident name quoted tx;
  execute_in_creates = λ ddl name creates s tx e. run-Created ddl name tx creates;
  execute_creates = λ ddl name s creates e. make-Created ddl name s creates;
  execute_fails = λ ddl name s x creates e. cc;
}

-- An index is there, and another one is deferred.
abbrev state : Indexes
state = record {
  registered = some ("by_block", create "by_block");
  made = λ n. str_eq n "by_owner";
}

state-IsRegistry : IsRegistry database catalog state
state-IsRegistry n ddl e = elim (Bool-cases (str_eq n "by_block")) [
  | inr b ↦ absurd (cc (rw b at e))
  | inl b ↦
      let made : create "by_block" ≡ ddl = some-injective _ _ (rw b at e) in
      sym made ∙ ap create (sym ((eq_iff n "by_block").0 b))
]

-- None is deferred yet.
abbrev fresh : Indexes
fresh = record { registered = none; made = λ n. str_eq n "by_owner" }

on_backfill_complete-IsKept_example :
    Ends
      (λ _ u.
        (n : String)
        → (catalog.deferred u n ≡ none)
          × (IsKept database catalog state n → catalog.present u n ≡ true))
      (λ u. Keeps database catalog state u)
      (on_backfill_complete database state)
on_backfill_complete-IsKept_example =
    on_backfill_complete-IsKept database catalog database-IsCatalog state state-IsRegistry
