-- ===== src/Source/Value/Bytes.antt =====
-- `collect_bytes`: the bytes under newtype layers.
use mathlib.Core.Option.{bind, some-injective}
use subdex.Prelude.{
  ℕ, ◌≤◌, String, true, false, some, List, [], ◌∷◌, All, leb, ◌≡◌, ◌↔◌, refl, arith, Bool-cases,
  Option-cases, inl, inr, sym, ap, subst,
}
use subdex.Source.Value.{Primitive, Value, Items, Fields, is_byte, byte_of, bytes_of, collect_bytes}

abbrev pub items_of : List ℕ → Items
items_of [] = Items.nil
items_of (b ∷ bs) = Items.cons (Value.primitive (Primitive.u128 b)) (items_of bs)

abbrev pub AreBytes : List ℕ → Type 0
AreBytes = All (λ b. b ≤ 255)

-- An array of bytes, in any number of layers of one field or one item.
pub data Holds : Value → List ℕ → Type 0 where
  array : (bs : List ℕ) → AreBytes bs → Holds (Value.unnamed (items_of bs)) bs
  item : {v : Value} {bs : List ℕ} → Holds v bs → Holds (Value.unnamed (Items.cons v Items.nil)) bs
  in_field :
      {v : Value} {bs : List ℕ} (n : String)
      → Holds v bs
      → Holds (Value.named (Fields.entry n v Fields.end)) bs

bytes_of-items_of : (bs : List ℕ) → AreBytes bs → bytes_of (items_of bs) ≡ some bs
unfolding bytes_of byte_of bind
bytes_of-items_of [] h = refl
bytes_of-items_of (b ∷ bs) h =
    let small : leb b 255 ≡ true = ground arith in rw (small, bytes_of-items_of bs h.1) refl

collect_bytes-array :
    (bs : List ℕ) → AreBytes bs → collect_bytes (Value.unnamed (items_of bs)) ≡ some bs
unfolding collect_bytes is_byte bytes_of byte_of bind
collect_bytes-array [] h = refl
collect_bytes-array (b ∷ []) h = ground arith
collect_bytes-array (b ∷ c ∷ bs) h = bytes_of-items_of (b ∷ c ∷ bs) h

is_byte-Holds : (v : Value) {bs : List ℕ} → Holds v bs → is_byte v ≡ false
unfolding is_byte
is_byte-Holds v (array bs h) = refl
is_byte-Holds v (item h) = refl
is_byte-Holds v (in_field n h) = refl

Holds-collect_bytes : {v : Value} {bs : List ℕ} → Holds v bs → collect_bytes v ≡ some bs
unfolding collect_bytes
Holds-collect_bytes (array bs h) = collect_bytes-array bs h
Holds-collect_bytes (item h) = rw (is_byte-Holds _ h) (Holds-collect_bytes h)
Holds-collect_bytes (in_field n h) = Holds-collect_bytes h

byte_of-some :
    (v : Value) (b : ℕ) → byte_of v ≡ some b → (v ≡ Value.primitive (Primitive.u128 b)) × (b ≤ 255)
unfolding byte_of
byte_of-some (Value.primitive (Primitive.u128 n)) b e = elim (Bool-cases (leb n 255)) [
  | inl z ↦
      let same : n ≡ b = some-injective n b (rw z at e) in
      (ap (λ x. Value.primitive (Primitive.u128 x)) same, ground arith)
  | inr z ↦ absurd (cc (rw z at e))
]
byte_of-some _ b e = absurd cc

bytes_of-some :
    (vs : Items) (bs : List ℕ) → bytes_of vs ≡ some bs → (vs ≡ items_of bs) × AreBytes bs
unfolding bytes_of bind
bytes_of-some Items.nil bs e =
    subst (λ x. (Items.nil ≡ items_of x) × AreBytes x) (some-injective [] bs e) (refl, tt)
bytes_of-some (Items.cons v vs) bs e = elim (Option-cases (byte_of v)) [
  | inl n ↦ absurd (cc (rw n at e))
  | inr (b, s) ↦ elim (Option-cases (bytes_of vs)) [
    | inl n ↦ absurd (cc (rw (s, n) at e))
    | inr (cs, t) ↦
        let same : b ∷ cs ≡ bs = some-injective (b ∷ cs) bs (rw (s, t) at e) in
        let here = byte_of-some v b s in
        let rest = bytes_of-some vs cs t in
        subst (λ x. (Items.cons v vs ≡ items_of x) × AreBytes x) same
          (rw (here.0, rest.0) refl, (here.1, rest.1))
  ]
]

bytes_of-Holds : (vs : Items) (bs : List ℕ) → bytes_of vs ≡ some bs → Holds (Value.unnamed vs) bs
bytes_of-Holds vs bs e =
    let h = bytes_of-some vs bs e in
    subst (λ x. Holds (Value.unnamed x) bs) (sym h.0) (array bs h.1)

collect_bytes-Holds : (v : Value) (bs : List ℕ) → collect_bytes v ≡ some bs → Holds v bs
unfolding collect_bytes
collect_bytes-Holds (Value.primitive p) bs e = absurd cc
collect_bytes-Holds (Value.unnamed Items.nil) bs e = bytes_of-Holds Items.nil bs e
collect_bytes-Holds (Value.unnamed (Items.cons v Items.nil)) bs e = elim (Bool-cases (is_byte v)) [
  | inl b ↦ bytes_of-Holds (Items.cons v Items.nil) bs (rw b at e)
  | inr b ↦ item (collect_bytes-Holds v bs (rw b at e))
]
collect_bytes-Holds (Value.unnamed (Items.cons v (Items.cons w vs))) bs e =
    bytes_of-Holds (Items.cons v (Items.cons w vs)) bs e
collect_bytes-Holds (Value.named Fields.end) bs e = absurd cc
collect_bytes-Holds (Value.named (Fields.entry n v Fields.end)) bs e =
    in_field n (collect_bytes-Holds v bs e)
collect_bytes-Holds (Value.named (Fields.entry n v (Fields.entry m w fs))) bs e = absurd cc
collect_bytes-Holds Value.other bs e = absurd cc

-- `collect_bytes` gives bytes exactly where the value is an array of them, each at most 255, in any
-- number of layers of one item or one field.
pub collect_bytes_iff : (v : Value) (bs : List ℕ) → (collect_bytes v ≡ some bs) ↔ Holds v bs
collect_bytes_iff v bs = (collect_bytes-Holds v bs, Holds-collect_bytes)
