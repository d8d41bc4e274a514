-- ===== src/Source/Value/Lookup.antt =====
-- `require_fields`: the first name without a field.
use subdex.Prelude.{String, none, List, [], ◌∷◌, ◌++◌, All, ◌≡◌, ◌≢◌, refl, Option-cases, inl, inr}
use subdex.Source.Value.{Value, field, missing_field, Required, require_fields}

abbrev pub IsPresent : Value → String → Type 0
IsPresent value name = field value name ≢ none

-- The names before it have fields, and it has none.
pub record FirstMissing (value : Value) (names : List String) (name : String) : Type 0 where
  pub before : List String
  pub after : List String
  pub split : names ≡ before ++ name ∷ after
  pub present : All (IsPresent value) before
  pub absent : field value name ≡ none

abbrev pub Checks : Value → List String → Required → Type 0
Checks value names Required.ok = All (IsPresent value) names
Checks value names (Required.err (missing_field name)) = FirstMissing value names name

Checks-skip :
    (value : Value) (name : String) (names : List String) (r : Required)
    → IsPresent value name
    → Checks value names r
    → Checks value (name ∷ names) r
Checks-skip value name names Required.ok p h = (p, h)
Checks-skip value name names (Required.err (missing_field x)) p h = record {
  before = name ∷ h.before;
  after = h.after;
  split = cc (h.split);
  present = (p, h.present);
  absent = h.absent;
}

-- `require_fields` succeeds where each name has a field, and else its error has the first name that has
-- none.
require_fields-Checks :
    (value : Value) (names : List String) → Checks value names (require_fields value names)
unfolding require_fields
require_fields-Checks value [] = tt
require_fields-Checks value (name ∷ names) = elim (Option-cases (field value name)) [
  | inl e ↦
      rw (e, require_fields)
        (record { before = []; after = names; split = refl; present = tt; absent = e })
  | inr (v, e) ↦
      rw (e, require_fields)
        (Checks-skip value name names (require_fields value names) (λ n. cc)
          (require_fields-Checks value names))
]
