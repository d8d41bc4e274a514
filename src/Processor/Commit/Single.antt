-- ===== src/Processor/Commit/Single.antt =====
-- `commit_batch` of one block against `commit_block`, for handlers with the trait's default `prepare` and
-- `process_batch`.
use mathlib.Core.Path.{fun_ext}
use subdex.Prelude.{String, ◌≡◌, refl, sym, ap, subst, Option, none, List, [], ◌∷◌, All}
use subdex.Core.Error.{Result, ok, err}
use subdex.Core.Types.{Block}
use subdex.Core.Traits.{
  Observation, Store, Prepared, Handler, default_process_batch, default_prepare,
}
use subdex.Exec.{Exec, pure, continue, inspect}
use subdex.Processor.{Processor, World, on_store, on_tx, notify, report}
use subdex.Processor.Commit.{
  prepare_all, write_one, write_all, process_all, set_cursors, commit_block, commit_batch,
}

-- A handler that overrides neither default.
pub record IsPerBlock {Value : Type 0} (S : Store Value) (h : Handler S) : Type 0 where
  pub batches :
      (bs : List (Block Value)) → h.process_batch bs ≡ default_process_batch S h.process_block bs
  pub prepares : (bs : List (Block Value)) → h.prepare bs ≡ default_prepare S bs

module _ {Db Src : Type 0} where
  -- The same but for what was observed.
  pub record Alike (w u : World Db Src) : Type 0 where
    pub db_same : w.db ≡ u.db
    pub src_same : w.src ≡ u.src

  -- The same value or error, and alike states.
  pub record EndsAlike {A : Type 0} (r s : Result A × World Db Src) : Type 0 where
    pub result : r.0 ≡ s.0
    pub states : Alike r.1 s.1

  EndsAlike-bind :
      {A B : Type 0} (r s : Result A × World Db Src) (f g : A → Exec (World Db Src) B)
      → EndsAlike r s
      → ((a : A) (w u : World Db Src) → Alike w u → EndsAlike (f a w) (g a u))
      → EndsAlike (continue r f) (continue s g)
  unfolding continue
  EndsAlike-bind (ok a, w) (ok b, u) f g h k =
      let same : b ≡ a = sym (ap (λ x. elim x [ ok y ↦ y | err _ ↦ a ]) h.result) in
      rw (same) (k a w u h.states)
  EndsAlike-bind (ok a, w) (err y, u) f g h k = absurd (let e = h.result in cc)
  EndsAlike-bind (err x, w) (ok b, u) f g h k = absurd (let e = h.result in cc)
  EndsAlike-bind (err x, w) (err y, u) f g h k = record {
    result = ap (λ r. elim r [ ok _ ↦ err x | err z ↦ err z ]) h.result;
    states = h.states;
  }

  Alike-report :
      {A : Type 0} (r s : Result A × World Db Src) (context : String)
      → EndsAlike r s
      → EndsAlike r (inspect (report context) s)
  unfolding inspect
  Alike-report r (ok b, u) context h = h
  Alike-report r (err y, u) context h = record {
    result = h.result;
    states = record { db_same = h.states.db_same; src_same = h.states.src_same };
  }

  Alike-notify :
      (r s : Result (Unit {0}) × World Db Src) (o : Observation)
      → EndsAlike r s
      → EndsAlike r (continue s (λ _. notify o))
  unfolding continue
  Alike-notify r (ok b, u) o h = record {
    result = h.result;
    states = record { db_same = h.states.db_same; src_same = h.states.src_same };
  }
  Alike-notify r (err y, u) o h = record { result = h.result; states = h.states }

  Alike-on_store :
      {A : Type 0} (m : Exec Db A) (w u : World Db Src)
      → Alike w u
      → EndsAlike (on_store m w) (on_store m u)
  unfolding on_store
  Alike-on_store m w u h = record {
    result = ap (λ d. (m d).0) h.db_same;
    states = record { db_same = ap (λ d. (m d).1) h.db_same; src_same = h.src_same };
  }

  Alike-on_tx :
      {Tx : Type 0} (m : Exec Tx (Unit {0})) (tx : Tx) (w u : World Db Src)
      → Alike w u
      → EndsAlike (on_tx m tx w) (on_tx m tx u)
  unfolding on_tx
  Alike-on_tx m tx w u h = record { result = refl; states = h }

pure-continue : {W A : Type 0} (r : Result A × W) → continue r (λ a. pure a) ≡ r
unfolding continue
pure-continue (ok a, w) = refl
pure-continue (err x, w) = refl

module _ {Value : Type 0} (S : Store Value) where
  abbrev nones : List (Handler S) → List (Option (Prepared S))
  nones [] = []
  nones (h ∷ hs) = none ∷ nones hs

  prepare_all-none :
      (hs : List (Handler S)) (bs : List (Block Value))
      → All (IsPerBlock S) hs
      → prepare_all S hs bs ≡ ok (nones hs)
  unfolding prepare_all default_prepare
  prepare_all-none [] bs g = refl
  prepare_all-none (h ∷ hs) bs (g, gs) = rw (g.prepares bs, prepare_all-none hs bs gs) refl

module _ {Value : Type 0} (S : Store Value) {Src : Type 0} where
  -- The default `process_batch` of one block.
  Alike-default :
      (m : Block Value → Exec S.Tx (Unit {0})) (b : Block Value) (tx : S.Tx) (w u : World S.Db Src)
      → Alike w u
      → EndsAlike (on_tx (m b) tx w) (on_tx (default_process_batch S m (b ∷ [])) tx u)
  unfolding default_process_batch
  Alike-default m b tx w u h =
      let same : default_process_batch S m (b ∷ []) ≡ m b = fun_ext (λ t. pure-continue (m b t)) in
      subst (λ n. EndsAlike (on_tx (m b) tx w) (on_tx n tx u)) (sym same)
        (Alike-on_tx (m b) tx w u h)

  Alike-write_one :
      (h : Handler S) (b : Block Value) (tx : S.Tx) (w u : World S.Db Src)
      → IsPerBlock S h
      → Alike w u
      → EndsAlike (on_tx (h.process_block b) tx w) (write_one S h none (b ∷ []) tx u)
  unfolding write_one
  Alike-write_one h b tx w u g k =
      rw (g.batches (b ∷ []))
        (Alike-report _ _ "handler" (Alike-default h.process_block b tx w u k))

  Alike-write_all :
      (hs : List (Handler S)) (b : Block Value) (tx : S.Tx) (w u : World S.Db Src)
      → All (IsPerBlock S) hs
      → Alike w u
      → EndsAlike (process_all S hs b tx w) (write_all S hs (nones S hs) (b ∷ []) tx u)
  unfolding process_all write_all
  Alike-write_all [] b tx w u g k = record { result = refl; states = k }
  Alike-write_all (h ∷ hs) b tx w u (g, gs) k =
      EndsAlike-bind _ _ _ _ (Alike-write_one h b tx w u g k)
        λ tx' w' u' k'. Alike-write_all hs b tx' w' u' gs k'

  Alike-set_cursors :
      (b : Block Value) (tx : S.Tx) (w u : World S.Db Src)
      → Alike w u
      → EndsAlike (on_tx (S.set_cursor b) tx w) (set_cursors S (b ∷ []) tx u)
  unfolding set_cursors
  Alike-set_cursors b tx w u k =
      subst (EndsAlike (on_tx (S.set_cursor b) tx w))
        (sym (pure-continue (on_tx (S.set_cursor b) tx u))) (Alike-on_tx (S.set_cursor b) tx w u k)

module _ {Value : Type 0} (p : Processor Value) (plain : All (IsPerBlock p.store) p.handlers) where
  -- For handlers with the trait's defaults, `commit_batch` of one block ends as `commit_block` of it does,
  -- in the same value or error, and leaves the same store and source, also where a step fails.
  pub commit_batch-commit_block :
      (b : Block Value) (w : World p.store.Db p.source.Src)
      → EndsAlike (commit_block p b w) (commit_batch p (b ∷ []) w)
  unfolding commit_block commit_batch continue inspect on_store
  commit_batch-commit_block b w = rw (prepare_all-none p.store p.handlers (b ∷ []) plain) (
      EndsAlike-bind _ _ _ _
        (Alike-on_store p.store.begin w w (record { db_same = refl; src_same = refl }))
        λ tx w₁ u₁ k₁.
          EndsAlike-bind _ _ _ _ (Alike-write_all p.store p.handlers b tx w₁ u₁ plain k₁)
            λ tx' w₂ u₂ k₂.
              EndsAlike-bind _ _ _ _ (Alike-set_cursors p.store b tx' w₂ u₂ k₂) λ tx'' w₃ u₃ k₃.
                Alike-notify _ _ _
                  (Alike-report _ _ "commit" (Alike-on_store (p.store.commit tx'') w₃ u₃ k₃)))
