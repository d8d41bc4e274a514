-- ===== src/Store/Postgres/Indexes/Changes.antt =====
-- Contents of the database between which no index is lost.
use subdex.Prelude.{
  ◌≡◌, ◌∙◌, sym, subst, inl, inr, String, str_eq, true, none, some, List, [], ◌∷◌, if◌then◌else◌,
  arith, eq_iff, Bool-cases,
}
use subdex.Store.Postgres.{Postgres}
use subdex.Store.Postgres.Indexes.{find, Catalog, Created, IsRegistry, Keeps}

module _ (pg : Postgres) (t : Catalog pg) where
  pub Keeps-refl : (C : t.Contents) → IsRegistry pg t C → Keeps pg t C C
  Keeps-refl C r = record { registry = r; kept = λ n k. k }

  pub Keeps-trans : {C D E : t.Contents} → Keeps pg t C D → Keeps pg t D E → Keeps pg t C E
  Keeps-trans a b = record { registry = b.registry; kept = λ n k. b.kept n (a.kept n k) }

  pub Created-Keeps :
      (name : String) (C D : t.Contents)
      → IsRegistry pg t C
      → Created pg t name C D
      → Keeps pg t C D
  Created-Keeps name C D r x = record {
    registry = λ n d e. r n d (sym (x.registry n) ∙ e);
    kept = λ n k. elim k [ inl p ↦ inl (x.stays n p) | inr (d, e) ↦ inr (d, x.registry n ∙ e) ];
  }

  -- What one round of the recreation makes of the contents.
  pub record Recreated (name : String) (C D : t.Contents) : Type 0 where
    pub there : t.present D name ≡ true
    pub stays : (n : String) → t.present C n ≡ true → t.present D n ≡ true
    pub registry : (n : String) → t.deferred D n ≡ (if str_eq n name then none else t.deferred C n)

  pub Recreated-Keeps :
      (name : String) (C D : t.Contents) → IsRegistry pg t C → Recreated name C D → Keeps pg t C D
  Recreated-Keeps name C D r x = record {
    registry = λ n ddl e. r n ddl (ground (arith, x.registry n));
    kept = λ n k. elim k [
      | inl p ↦ inl (x.stays n p)
      | inr (ddl, e) ↦ elim (Bool-cases (str_eq n name)) [
        | inl b ↦ inl (subst (λ m. t.present D m ≡ true) (sym ((eq_iff n name).0 b)) x.there)
        | inr b ↦ inr (ddl, ground (arith, x.registry n))
      ]
    ];
  }

  -- What the whole recreation of some rows makes of them.
  pub record Cleared (rows : List (String × String)) (C D : t.Contents) : Type 0 where
    pub registry : IsRegistry pg t D
    pub found :
        (n ddl : String) → find n rows ≡ some ddl → (t.present D n ≡ true) × (t.deferred D n ≡ none)
    pub gone : (n : String) → t.deferred C n ≡ none → t.deferred D n ≡ none
    pub stays : (n : String) → t.present C n ≡ true → t.present D n ≡ true

  pub Cleared-none : (C : t.Contents) → IsRegistry pg t C → Cleared [] C C
  Cleared-none C r = record {
    registry = r;
    found = λ n ddl e. absurd (cc e);
    gone = λ n e. e;
    stays = λ n e. e;
  }

  pub Cleared-some :
      (name ddl : String) (rows : List (String × String)) (C D E : t.Contents)
      → Recreated name C D
      → Cleared rows D E
      → Cleared ((name, ddl) ∷ rows) C E
  Cleared-some name ddl rows C D E x y = record {
    registry = y.registry;
    found = λ n d e. elim (Bool-cases (str_eq n name)) [
      | inr b ↦ y.found n d (ground (arith, e))
      | inl b ↦ (
        y.stays n (subst (λ m. t.present D m ≡ true) (sym ((eq_iff n name).0 b)) x.there),
        y.gone n (ground (arith, x.registry n)),
      )
    ];
    gone = λ n e. y.gone n (ground (arith, x.registry n, e));
    stays = λ n e. y.stays n (x.stays n e);
  }
