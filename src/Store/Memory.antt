-- ===== src/Store/Memory.antt =====
-- `MemStore` of crates/subdex/src/testkit.rs, and its theorem on the contract of `Store`. The transaction's handle on the shared map is the `db` that it is committed to.
use mathlib.Core.Option
use mathlib.Core.Option.{some-injective}
use mathlib.Core.List.{foldl, foldl-append}
use subdex.Prelude.{
  ℕ, suc, ◌+◌, ◌%◌, ◌^◌, ◌<◌, inl, inr, Option-cases, ◌≡◌, refl, ap, String, Bool, true, Option,
  none, some, List, [], ◌∷◌, ◌++◌, arith,
}
use subdex.Core.Error.{ok}
use subdex.Core.Types.{BlockId}
use subdex.Core.Traits.{Store}
use subdex.Core.StoreLaws.{Rows, View, IsStore, IsAvailable}
use subdex.Exec.{Exec}
use subdex.Store.Map.{
  Map, get, insert, next_back, keep_below, get-insert, get-keep_below, next_back-none,
  next_back-some,
}

-- height → (hash, parent_hash)
pub record MemStore : Type 0 where
  pub blocks : Map (String × String)
  pub inited : Bool

-- The staged writes of a transaction.
abbrev pub MemTx : Type 0
MemTx = List (ℕ × String × String)

abbrev flush_one : Map (String × String) → ℕ × String × String → Map (String × String)
flush_one m (n, hash, parent) = insert n (hash, parent) m

-- `for (n, hash, parent) in tx.staged { map.insert(n, (hash, parent)); }`
unfoldable pub flush : Map (String × String) → MemTx → Map (String × String)
flush = foldl flush_one

unfoldable pub cursor : Exec MemStore (Option BlockId)
cursor s = (
  ok (elim (next_back s.blocks) [
    | none ↦ none
    | some (n, v) ↦ some (record { number = n; hash = v.0 })
  ]),
  s,
)

unfoldable pub hash_at : ℕ → Exec MemStore (Option String)
hash_at height s = (ok (Option.map (λ (h, _). h) (get height s.blocks)), s)

unfoldable pub commit : MemTx → Exec MemStore (Unit {0})
unfolding flush
commit tx s = (ok tt, record s { blocks = flush s.blocks tx })

-- `height + 1` is a `u32`: it wraps at the greatest height, where a build with overflow checks panics.
unfoldable pub rollback_to : ℕ → Exec MemStore (Unit {0})
rollback_to height s = (ok tt, record s { blocks = keep_below ((height + 1) % 2 ^ 32) s.blocks })

abbrev pub mem_store : (Value : Type 0) → Store Value
mem_store Value = record {
  Db = MemStore;
  Tx = MemTx;
  init = λ s. (ok tt, record s { inited = true });
  cursor = cursor;
  hash_at = hash_at;
  begin = λ s. (ok [], s);
  set_cursor = λ b tx. (ok tt, tx ++ ((b.id.number, b.id.hash, b.parent_hash) ∷ []));
  commit = commit;
  rollback_to = rollback_to;
  on_backfill_complete = λ s. (ok tt, s);
}

abbrev pub mem_view : (Value : Type 0) → View (mem_store Value)
mem_view Value = record {
  Contents = Map (String × String);
  contents = λ s. s.blocks;
  pending = λ s tx. flush s.blocks tx;
  row = λ m n. Option.map (λ (h, _). h) (get n m);
}

flush-snoc :
    (tx : MemTx) (x : ℕ × String × String) (m : Map (String × String))
    → flush m (tx ++ (x ∷ [])) ≡ insert x.0 (x.1, x.2) (flush m tx)
unfolding flush
flush-snoc tx x m = rw foldl-append

-- The hash in a row of the map.
abbrev row : Map (String × String) → Rows
row m n = Option.map (λ (h, _). h) (get n m)

row-none : (m : Map (String × String)) → next_back m ≡ none → (n : ℕ) → row m n ≡ none
row-none m e n = ap (Option.map (λ (h, _). h)) (next_back-none m e n)

row-some :
    (m : Map (String × String)) (c : BlockId)
    → Option.map (λ (n, v). record { number = n; hash = v.0 }) (next_back m) ≡ some c
    → (row m c.number ≡ some c.hash) × ((n : ℕ) → c.number < n → row m n ≡ none)
row-some m c e = elim (Option-cases (next_back m)) [
  | inl q ↦ ground arith
  | inr ((n, v), q) ↦
      let (at, above) = next_back-some m n v q in
      let same : record { number = n; hash = v.0 } ≡ c = some-injective _ _ (rw q at e) in
      (
        rw (← same) (ap (Option.map (λ (h, _). h)) at),
        rw (← same) (λ j lt. ap (Option.map (λ (h, _). h)) (above j lt)),
      )
]

-- `MemStore` keeps the contract of `Store` with nothing pruned: the cursor is the greatest height,
-- what is staged shows only once it is committed, and a roll back to a height below the greatest
-- `u32` drops exactly what is above.
pub mem_store-IsStore : (Value : Type 0) → IsStore (mem_store Value) (mem_view Value) 0
unfolding cursor hash_at commit rollback_to
mem_store-IsStore Value = record {
  cursor_keeps = λ s. refl;
  cursor_none = λ s e n. row-none s.blocks (ground arith) n;
  cursor_some = λ s c e. row-some s.blocks c (ground arith);
  hash_at_keeps = λ h s. refl;
  hash_at_reads = λ h s o e. ground arith;
  begin_keeps = λ s. refl;
  begin_opens = λ s tx e. unfold flush in cc;
  set_cursor_writes = λ b s tx _ e n. simp (flush-snoc, get-insert) (ground arith);
  commit_applies = λ tx s e. refl;
  commit_fails = λ tx s x e. cc;
  rollback_applies = λ h s below e n.
      let same : (h + 1) % 2 ^ 32 ≡ suc h = omega (arith, below) in
      rw (same, get-keep_below (suc h) n s.blocks) (ground arith);
  rollback_fails = λ h s x e. cc;
  backfilled_keeps = λ s n. refl;
}

pub mem_store-IsAvailable : (Value : Type 0) → IsAvailable (mem_store Value)
unfolding cursor hash_at commit rollback_to
mem_store-IsAvailable Value = record {
  cursor_answers = λ s. (_, refl);
  hash_at_answers = λ h s. (_, refl);
  begin_answers = λ s. (_, refl);
  set_cursor_answers = λ b tx. refl;
  commit_answers = λ tx s. refl;
  rollback_answers = λ h s. refl;
  backfilled_answers = λ s. refl;
}
