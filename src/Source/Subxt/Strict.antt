-- ===== src/Source/Subxt/Strict.antt =====
-- `strict` of crates/subdex-source/src/mapping.rs: what it changes, and what it does not.
use subdex.Prelude.{
  ℕ, suc, ◌+◌, ◌≤◌, String, Bool, true, false, none, List, [], ◌∷◌, ◌++◌, length, length-append,
  Attempt, ◌≡◌, ◌↔◌, refl, sym, ap, ◌∙◌, arith, Bool-cases, inl, inr,
}
use subdex.Core.Error.{SubdexError, Result, ok, err}
use subdex.Core.Types.{Block, Extrinsic}
use subdex.Exec.{Exec, pure, continue, ◌>>=◌}
use subdex.Source.Config.{DataSelection}
use subdex.Source.Value.{Value}
use subdex.Source.Subxt.Parts.{RawEvent, RawExtrinsic, Success}
use subdex.Source.Subxt.Decode.{
  At, Decoding, Request, replied, ask, checked, decoded, on_decode_failure, events_loop, map_events,
  extrinsics_loop, map_extrinsics, selected_events, selected_extrinsics, map_block,
}

never : {A : Type 0} {x : SubdexError} {a : A} → Path (Result A) (err x) (ok a) → ⊥
never e = cc

module _ {Net : Type 0} where
  abbrev pub failed : Decoding Net → ℕ
  failed w = length w.failures

  -- The strict action succeeds just where the tolerant one does with nothing more counted, and then
  -- they do the same.
  record Agree {A : Type 0} (strict tolerant : Exec (Decoding Net) A) : Type 0 where
    to_tolerant :
        (w u : Decoding Net) (a : A)
        → strict w ≡ (ok a, u)
        → (tolerant w ≡ (ok a, u)) × (failed u ≡ failed w)
    to_strict :
        (w u : Decoding Net) (a : A)
        → tolerant w ≡ (ok a, u)
        → failed u ≡ failed w
        → strict w ≡ (ok a, u)
    grows : (w u : Decoding Net) (a : A) → tolerant w ≡ (ok a, u) → failed w ≤ failed u

  continue-inv :
      {A B : Type 0} (r : Result A × Decoding Net) (f : A → Exec (Decoding Net) B) (b : B)
      (u : Decoding Net)
      → continue r f ≡ (ok b, u)
      → (a : A) × (v : Decoding Net) × (r ≡ (ok a, v)) × (f a v ≡ (ok b, u))
  unfolding continue
  continue-inv (ok a, v) f b u e = (a, v, refl, e)
  continue-inv (err x, v) f b u e = absurd cc

  Agree-bind :
      {A B : Type 0} {m n : Exec (Decoding Net) A} {f g : A → Exec (Decoding Net) B}
      → Agree m n
      → ((a : A) → Agree (f a) (g a))
      → Agree (m >>= f) (n >>= g)
  unfolding continue
  Agree-bind {A} {B} {m} {n} {f} {g} h k = record {
    to_tolerant = λ w u b e.
        let (a, v, e₁, e₂) = continue-inv (m w) f b u e in
        let (t₁, s₁) = h.to_tolerant w v a e₁ in
        let (t₂, s₂) = (k a).to_tolerant v u b e₂ in (rw (t₁) t₂, s₂ ∙ s₁);
    to_strict = λ w u b e same.
        let (a, v, e₁, e₂) = continue-inv (n w) g b u e in
        let le₁ = h.grows w v a e₁ in
        let le₂ = (k a).grows v u b e₂ in
        let t₁ = h.to_strict w v a e₁ (omega (arith, le₁, le₂, same)) in
        let t₂ = (k a).to_strict v u b e₂ (omega (arith, le₁, le₂, same)) in rw (t₁) t₂;
    grows = λ w u b e.
        let (a, v, e₁, e₂) = continue-inv (n w) g b u e in
        omega (arith, h.grows w v a e₁, (k a).grows v u b e₂);
  }

  -- An action that counts nothing.
  Agree-same :
      {A : Type 0} (m : Exec (Decoding Net) A)
      → ((w : Decoding Net) → (m w).1.failures ≡ w.failures)
      → Agree m m
  Agree-same {A} m h = record {
    to_tolerant = λ w u a e. (e, ap length (kept w u a e));
    to_strict = λ w u a e same. e;
    grows =
        λ w u a e. let same : failed u ≡ failed w = ap length (kept w u a e) in omega (arith, same);
  }
    where
      kept : (w u : Decoding Net) (a : A) → m w ≡ (ok a, u) → u.failures ≡ w.failures
      kept w u a e = sym (ap (λ r. r.1.failures) e) ∙ h w

  replied-failures :
      {A : Type 0} (f : String → SubdexError) (w : Decoding Net) (r : Attempt A × Net)
      → (replied f w r).1.failures ≡ w.failures
  unfolding replied
  replied-failures f w (Attempt.got a, net) = refl
  replied-failures f w (Attempt.lost e, net) = refl

  checked-failures :
      {A : Type 0} (f : String → SubdexError) (r : Attempt A) (w : Decoding Net)
      → (checked f r w).1.failures ≡ w.failures
  unfolding checked
  checked-failures f (Attempt.got a) w = refl
  checked-failures f (Attempt.lost e) w = refl

  one_more :
      (p : String × String) (w u : Decoding Net)
      → length (w.failures ++ (p ∷ [])) ≡ failed u
      → failed u ≡ failed w + 1
  one_more p w u e = omega (arith, e, length-append w.failures (p ∷ []))

  Agree-decoded :
      (kind pallet item : String) (height : ℕ) (r : Attempt Value)
      → Agree (decoded kind pallet item height true r) (decoded kind pallet item height false r)
  unfolding decoded on_decode_failure continue
  Agree-decoded kind pallet item height (Attempt.got v) = Agree-same (pure v) (λ w. refl)
  Agree-decoded kind pallet item height (Attempt.lost e) = record {
    to_tolerant = λ w u a x. absurd (never (ap (λ r. r.0) x));
    to_strict = λ w u a x same.
        let more = one_more _ w u (ap (λ r. length r.1.failures) x) in
        absurd (omega (arith, more, same));
    grows = λ w u a x.
        let more = one_more _ w u (ap (λ r. length r.1.failures) x) in omega (arith, more);
  }

  Agree-checked :
      {A : Type 0} (f : String → SubdexError) (r : Attempt A) → Agree (checked f r) (checked f r)
  Agree-checked f r = Agree-same (checked f r) (checked-failures f r)

  Agree-ask :
      {A : Type 0} (f : String → SubdexError) (r : Request Net A) → Agree (ask f r) (ask f r)
  Agree-ask f r = Agree-same (ask f r) (λ w. replied-failures f w (r w.net))

  Agree-pure : {A : Type 0} (a : A) → Agree (pure a) (pure a)
  Agree-pure a = Agree-same (pure a) (λ w. refl)

  Agree-events_loop :
      (height i : ℕ) (items : List (Attempt RawEvent)) (success : Success)
      → Agree (events_loop height true i items success) (events_loop height false i items success)
  unfolding events_loop
  Agree-events_loop height i [] success = Agree-pure ([], success)
  Agree-events_loop height i (item ∷ items) success = Agree-bind (Agree-checked _ item) λ ev.
      Agree-bind (Agree-decoded "event" ev.pallet ev.name height ev.fields)
        λ fields. Agree-bind (Agree-events_loop height (suc i) items _) λ rest. Agree-pure _

  Agree-selected_events :
      (at : At Net) (number : ℕ) (selection : DataSelection)
      → Agree (selected_events at number selection true) (selected_events at number selection false)
  unfolding selected_events map_events
  Agree-selected_events at number selection = elim (Bool-cases selection.events) [
    | inl b ↦
        rw (b, selected_events, map_events)
          (Agree-bind (Agree-ask _ at.events) λ events. Agree-events_loop number 0 events [])
    | inr b ↦ rw (b, selected_events) (Agree-pure ([], []))
  ]

module _ (hex_encode : List ℕ → String) (blake2b_512 : List ℕ → List ℕ)
    (to_base58 : List ℕ → String) {Net : Type 0} where
  abbrev loop :
      Success
      → ℕ
      → ℕ
      → Bool
      → List (Attempt RawExtrinsic)
      → Exec (Decoding Net) (List (Extrinsic Value))
  loop = extrinsics_loop hex_encode blake2b_512 to_base58 {Net = Net}

  Agree-extrinsics_loop :
      (success : Success) (prefix height : ℕ) (items : List (Attempt RawExtrinsic))
      → Agree (loop success prefix height true items) (loop success prefix height false items)
  unfolding extrinsics_loop
  Agree-extrinsics_loop success prefix height [] = Agree-pure []
  Agree-extrinsics_loop success prefix height (item ∷ items) =
      Agree-bind (Agree-checked _ item) λ ext.
        Agree-bind (Agree-decoded "extrinsic" ext.pallet ext.call height ext.args) λ args.
          Agree-bind (Agree-extrinsics_loop success prefix height items) λ rest. Agree-pure _

  Agree-selected_extrinsics :
      (at : At Net) (success : Success) (number prefix : ℕ) (selection : DataSelection)
      → Agree
          (selected_extrinsics hex_encode blake2b_512 to_base58 at success number selection prefix
            true)
          (selected_extrinsics hex_encode blake2b_512 to_base58 at success number selection prefix
            false)
  unfolding selected_extrinsics map_extrinsics
  Agree-selected_extrinsics at success number prefix selection =
      elim (Bool-cases selection.extrinsics) [
        | inl b ↦
            rw (b, selected_extrinsics, map_extrinsics)
              (Agree-bind
                (Agree-bind (Agree-ask _ at.extrinsics)
                  λ exts. Agree-extrinsics_loop success prefix number exts)
                λ exts. Agree-pure _)
        | inr b ↦ rw (b, selected_extrinsics) (Agree-pure ([], none))
      ]

  Agree-map_block :
      (at : At Net) (finalized : Bool) (selection : DataSelection) (prefix : ℕ)
      → Agree
          (map_block hex_encode blake2b_512 to_base58 at finalized selection prefix true)
          (map_block hex_encode blake2b_512 to_base58 at finalized selection prefix false)
  unfolding map_block
  Agree-map_block at finalized selection prefix = Agree-bind (Agree-ask _ at.parent_hash) λ parent.
      Agree-bind (Agree-selected_events at _ selection) λ events.
        Agree-bind (Agree-selected_extrinsics at events.1 _ prefix selection) λ exts. Agree-pure _

  -- Strict and tolerant mapping give the same block and leave the same state where no decode failure is
  -- counted; the strict one succeeds exactly there.
  pub map_block-strict :
      (at : At Net) (finalized : Bool) (selection : DataSelection) (prefix : ℕ) (w u : Decoding Net)
      (b : Block Value)
      → (map_block hex_encode blake2b_512 to_base58 at finalized selection prefix true w
          ≡ (ok b, u))
        ↔ ((map_block hex_encode blake2b_512 to_base58 at finalized selection prefix false w
              ≡ (ok b, u))
            × (failed u ≡ failed w))
  map_block-strict at finalized selection prefix w u b =
      let h = Agree-map_block at finalized selection prefix in
      (h.to_tolerant w u b, λ x. h.to_strict w u b x.0 x.1)
