-- ===== src/Codegen/Parse/Accepts.antt =====
-- `parse_schema` as a whole: its two passes, and the schemas that it accepts.
use mathlib.Core.List.{map-append, append_assoc, append-nil}
use subdex.Prelude.{
  String, false, List, [], ◌∷◌, ◌++◌, All, is_empty, if◌then◌else◌, ◌≡◌, refl, sym, ap, subst, ◌∙◌,
  Bool-cases, inl, inr, map,
}
use subdex.Codegen.Model.{Field, Entity, Schema}
use subdex.Codegen.Parse.{
  ParseResult, TypeKind, TypeDefinition, Definition, Document, Names, Syntax, contains,
  has_directive, collect_type, collect, any_id, finish_entity, build_type, build, build_schema,
  parse_schema,
}
use subdex.Codegen.Parse.Gives.{Gives, Gives-ok, Gives-bind}
use subdex.Codegen.Parse.Valid.{EntityIsValid, Built, build_fields-Built, All-snoc}

-- The names of the types with `@entity`, in order.
abbrev pub declared_by : TypeDefinition → TypeKind → List String
declared_by t (TypeKind.object _) = if has_directive t.directives "entity" then t.name ∷ [] else []
declared_by t _ = []

abbrev pub declared : Document → List String
declared [] = []
declared (Definition.type t ∷ ds) = declared_by t t.kind ++ declared ds
declared (Definition.other ∷ ds) = declared ds

abbrev pub entity_names : List Entity → List String
entity_names es = map (λ e. e.name) es

-- The entities, in the document's order, are each valid among the schema's own entities and enums.
pub record SchemaIsValid (doc : Document) (s : Schema) : Type 0 where
  pub in_order : entity_names s.entities ≡ declared doc
  pub some_entity : is_empty (entity_names s.entities) ≡ false
  pub entities_valid : All (EntityIsValid (entity_names s.entities, s.enums)) s.entities

collect_type-declared :
    (t : TypeDefinition) (k : TypeKind) (known : Names)
    → Gives (λ n. n.0 ≡ known.0 ++ declared_by t k) (collect_type t k known)
unfolding collect_type Gives
collect_type-declared t (TypeKind.object fs) (names, enums) =
    elim (Bool-cases (has_directive t.directives "entity")) [
      | inr b ↦ rw b (sym (append-nil names))
      | inl b ↦
          rw b (elim (Bool-cases (contains names t.name)) [ inl c ↦ rw c tt | inr c ↦ rw c refl ])
    ]
collect_type-declared t (TypeKind.enum vs) (names, enums) = sym (append-nil names)
collect_type-declared t TypeKind.other known = sym (append-nil known.0)

collect-declared :
    (ds : Document) (known : Names) → Gives (λ n. n.0 ≡ known.0 ++ declared ds) (collect ds known)
unfolding collect Gives
collect-declared [] known = sym (append-nil known.0)
collect-declared (Definition.type t ∷ ds) known =
    Gives-bind (λ n. n.0 ≡ known.0 ++ declared_by t t.kind)
      (λ n. n.0 ≡ known.0 ++ (declared_by t t.kind ++ declared ds)) _ _
      (collect_type-declared t t.kind known)
      λ n e.
        subst (λ xs. Gives (λ m. m.0 ≡ xs) (collect ds n))
          (ap (λ x. x ++ declared ds) e ∙ append_assoc known.0 (declared_by t t.kind) (declared ds))
          (collect-declared ds n)
collect-declared (Definition.other ∷ ds) known = collect-declared ds known

module _ (known : Names) where
  -- What the second pass keeps, with the names of what it has built.
  abbrev Made : List String → List Entity → Type 0
  Made names es = (entity_names es ≡ names) × All (EntityIsValid known) es

  finish_entity-Made :
      (names : List String) (entity : String) (es : List Entity) (fs : List Field)
      → Made names es
      → Built known entity fs
      → Gives (Made (names ++ (entity ∷ []))) (finish_entity entity es fs)
  unfolding finish_entity Gives
  finish_entity-Made names entity es fs h b = elim (Bool-cases (any_id fs)) [
    | inr c ↦ rw c tt
    | inl c ↦ rw c (
      map-append (λ e. e.name) es _ ∙ ap (λ x. x ++ (entity ∷ [])) h.0,
      All-snoc (EntityIsValid known) es _ h.1
          (record { table_named = refl; has_id = c; fields_valid = b.0; fields_distinct = b.1 }),
    )
  ]

  build_type-Made :
      (names : List String) (t : TypeDefinition) (k : TypeKind) (es : List Entity)
      → Made names es
      → Gives (Made (names ++ declared_by t k)) (build_type known t k es)
  unfolding build_type Gives
  build_type-Made names t (TypeKind.object obj) es h =
      elim (Bool-cases (has_directive t.directives "entity")) [
        | inr b ↦ rw b (h.0 ∙ sym (append-nil names), h.1)
        | inl b ↦ rw b (
            Gives-bind (Built known t.name) (Made (names ++ (t.name ∷ []))) _ _
              (build_fields-Built known t.name obj [] (tt, tt))
              λ fs built. finish_entity-Made names t.name es fs h built)
      ]
  build_type-Made names t (TypeKind.enum vs) es h = (h.0 ∙ sym (append-nil names), h.1)
  build_type-Made names t TypeKind.other es h = (h.0 ∙ sym (append-nil names), h.1)

  build-Made :
      (names : List String) (ds : Document) (es : List Entity)
      → Made names es
      → Gives (Made (names ++ declared ds)) (build known ds es)
  unfolding build Gives
  build-Made names [] es h = (h.0 ∙ sym (append-nil names), h.1)
  build-Made names (Definition.type t ∷ ds) es h =
      Gives-bind (Made (names ++ declared_by t t.kind))
        (Made (names ++ (declared_by t t.kind ++ declared ds))) _ _
        (build_type-Made names t t.kind es h)
        λ es' h'.
          subst (λ x. Gives (Made x) (build known ds es'))
            (append_assoc names (declared_by t t.kind) (declared ds))
            (build-Made (names ++ declared_by t t.kind) ds es' h')
  build-Made names (Definition.other ∷ ds) es h = build-Made names ds es h

build_schema-SchemaIsValid :
    (doc : Document) (known : Names)
    → known.0 ≡ declared doc
    → Gives (SchemaIsValid doc) (build_schema doc known)
unfolding build_schema Gives
build_schema-SchemaIsValid doc known e = elim (Bool-cases (is_empty known.0)) [
  | inl b ↦ rw b tt
  | inr b ↦ rw b (
      Gives-bind (Made known (declared doc)) (SchemaIsValid doc) _ _
        (build-Made known [] doc [] (refl, tt))
        λ es h.
          let same : entity_names es ≡ known.0 = h.0 ∙ sym e in
          record {
            in_order = h.0;
            some_entity = ap is_empty same ∙ b;
            entities_valid = subst (λ x. All (EntityIsValid (x, known.1)) es) (sym same) h.1;
          })
]

parse_schema-Gives :
    (parser : String → Syntax) (source : String) (doc : Document)
    → parser source ≡ Syntax.document doc
    → Gives (SchemaIsValid doc) (parse_schema parser source)
unfolding parse_schema
parse_schema-Gives parser source doc e =
    rw (e, parse_schema)
      (Gives-bind (λ n. n.0 ≡ declared doc) (SchemaIsValid doc) _ _ (collect-declared doc ([], []))
        λ known h. build_schema-SchemaIsValid doc known h)

-- A schema that `parse_schema` accepts has the document's types with `@entity`, in order, and at least
-- one. Each has the table of its name, an id field, columns named after their fields, no two fields of
-- one name, no nullable id, and every enum or relation that a field names is declared in the schema.
pub parse_schema-SchemaIsValid :
    (parser : String → Syntax) (source : String) (doc : Document) (schema : Schema)
    → parser source ≡ Syntax.document doc
    → parse_schema parser source ≡ ParseResult.ok schema
    → SchemaIsValid doc schema
parse_schema-SchemaIsValid parser source doc schema e h =
    Gives-ok (SchemaIsValid doc) (parse_schema parser source) schema
      (parse_schema-Gives parser source doc e) h
