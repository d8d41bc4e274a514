-- ===== src/Codegen/Parse/Valid.antt =====
-- What a schema that `parse_schema` accepts satisfies.
use subdex.Prelude.{
  String, str_eq, eq_iff, true, false, ◌&&◌, List, [], ◌∷◌, ◌++◌, All, ◌≡◌, refl, sym, arith,
  Bool-cases, Option-cases, inl, inr,
}
use subdex.Codegen.Names.{to_snake_case, table_name}
use subdex.Codegen.Model.{FieldType, Field, Entity, from_graphql, any_enum}
use subdex.Codegen.Parse.{
  BaseType, FieldDefinition, Names, contains, has_directive, named_type, list_type, field_type,
  any_named, any_id, finish_field, build_field, build_fields,
}
use subdex.Codegen.Parse.Gives.{Gives, Gives-bind}

-- A type's name is one of the schema's.
abbrev pub Resolves : Names → FieldType → Type 0
Resolves known (FieldType.scalar s) = Unit
Resolves known (FieldType.scalar_list s) = Unit
Resolves known (FieldType.enum n) = any_enum known.1 n ≡ true
Resolves known (FieldType.relation n) = contains known.0 n ≡ true

pub record FieldIsValid (known : Names) (f : Field) : Type 0 where
  pub resolves : Resolves known f.ty
  pub column_named : f.column ≡ to_snake_case f.name
  pub id_named : f.is_id ≡ str_eq f.name "id"
  pub id_not_null : (f.is_id && f.nullable) ≡ false

-- No field's name is that of an earlier one.
abbrev pub Distinct : List Field → Type 0
Distinct [] = Unit
Distinct (f ∷ fs) = (any_named fs f.name ≡ false) × Distinct fs

pub record EntityIsValid (known : Names) (e : Entity) : Type 0 where
  pub table_named : e.table ≡ table_name e.name
  pub has_id : any_id e.fields ≡ true
  pub fields_valid : All (FieldIsValid known) e.fields
  pub fields_distinct : Distinct e.fields

pub All-snoc :
    {A : Type 0} (P : A → Type 0) (xs : List A) (x : A) → All P xs → P x → All P (xs ++ (x ∷ []))
All-snoc P [] x h k = (k, tt)
All-snoc P (y ∷ ys) x h k = (h.0, All-snoc P ys x h.1 k)

str_eq-sym : (s t : String) → str_eq s t ≡ false → str_eq t s ≡ false
str_eq-sym s t h = elim (Bool-cases (str_eq t s)) [
  | inr b ↦ b
  | inl b ↦ let same = (eq_iff t s).0 b in let back = (eq_iff s t).1 (sym same) in cc
]

any_named-snoc :
    (fs : List Field) (f : Field) (n : String)
    → any_named fs n ≡ false
    → str_eq f.name n ≡ false
    → any_named (fs ++ (f ∷ [])) n ≡ false
unfolding any_named
any_named-snoc [] f n h k = ground arith
any_named-snoc (g ∷ gs) f n h k = ground (arith, any_named-snoc gs f n)

Distinct-snoc :
    (fs : List Field) (f : Field)
    → Distinct fs
    → any_named fs f.name ≡ false
    → Distinct (fs ++ (f ∷ []))
unfolding any_named
Distinct-snoc [] f h k = (refl, tt)
Distinct-snoc (g ∷ gs) f h k =
    let other : str_eq g.name f.name ≡ false = ground arith in
    let rest : any_named gs f.name ≡ false = ground arith in
    (any_named-snoc gs f g.name h.0 (str_eq-sym g.name f.name other), Distinct-snoc gs f h.1 rest)

module _ (known : Names) (entity : String) where
  named_type-Resolves :
      (field n : String) → Gives (Resolves known) (named_type known entity field n)
  unfolding named_type Gives
  named_type-Resolves field n = elim (Option-cases (from_graphql n)) [
    | inr (s, e) ↦ rw (e, Gives) tt
    | inl e ↦
        rw (e, Gives)
          (elim (Bool-cases (any_enum known.1 n)) [
            | inl b ↦ rw b b
            | inr b ↦
                rw b (elim (Bool-cases (contains known.0 n)) [ inl c ↦ rw c c | inr c ↦ rw c tt ])
          ])
  ]

  list_type-Resolves :
      (field : String) (b : BaseType) → Gives (Resolves known) (list_type known entity field b)
  unfolding list_type Gives
  list_type-Resolves field (BaseType.named n) = elim (Option-cases (from_graphql n)) [
    | inr (s, e) ↦ rw (e, Gives) tt
    | inl e ↦ rw (e, Gives) tt
  ]
  list_type-Resolves field (BaseType.list b x) = tt

  field_type-Resolves :
      (field : String) (b : BaseType) → Gives (Resolves known) (field_type known entity field b)
  unfolding field_type
  field_type-Resolves field (BaseType.named n) = named_type-Resolves field n
  field_type-Resolves field (BaseType.list b x) = list_type-Resolves field b

  -- What the loop over the fields keeps.
  abbrev pub Built : List Field → Type 0
  Built fs = All (FieldIsValid known) fs × Distinct fs

  finish_field-Built :
      (f : FieldDefinition) (fs : List Field) (ty : FieldType)
      → any_named fs f.name ≡ false
      → Built fs
      → Resolves known ty
      → Gives Built (finish_field known entity f fs ty)
  unfolding finish_field Gives
  finish_field-Built f fs ty new h r = elim (Bool-cases (str_eq f.name "id" && f.nullable)) [
    | inl b ↦ rw b tt
    | inr b ↦ rw b (
      All-snoc (FieldIsValid known) fs _ h.0
          (record { resolves = r; column_named = refl; id_named = refl; id_not_null = b }),
      Distinct-snoc fs _ h.1 new,
    )
  ]

  build_field-Built :
      (f : FieldDefinition) (fs : List Field)
      → Built fs
      → Gives Built (build_field known entity f fs)
  unfolding build_field Gives
  build_field-Built f fs h = elim (Bool-cases (any_named fs f.name)) [
    | inl b ↦ rw b tt
    | inr b ↦ rw b (elim (Bool-cases (has_directive f.directives "derivedFrom")) [
      | inl c ↦ rw c h
      | inr c ↦ rw c (
          Gives-bind (Resolves known) Built _ _ (field_type-Resolves f.name f.base)
            λ ty r. finish_field-Built f fs ty b h r)
    ])
  ]

  pub build_fields-Built :
      (defs : List FieldDefinition) (fs : List Field)
      → Built fs
      → Gives Built (build_fields known entity defs fs)
  unfolding build_fields Gives
  build_fields-Built [] fs h = h
  build_fields-Built (f ∷ defs) fs h =
      Gives-bind Built Built _ _ (build_field-Built f fs h) λ fs' h'. build_fields-Built defs fs' h'
