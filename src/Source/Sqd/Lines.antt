-- ===== src/Source/Sqd/Lines.antt =====
-- `parse_json_lines`: the blocks of a body, and the first line that is malformed.
use subdex.Prelude.{
  ℕ, suc, ◌+◌, String, ◌<>◌, true, false, List, [], ◌∷◌, ◌++◌, map, length, if◌then◌else◌, decimal,
  Attempt, Attempt-cases, subst, ◌≡◌, refl, ap, Bool-cases, inl, inr, arith,
}
use subdex.Core.Error.{SubdexError, Result, ok, err}
use subdex.Source.Sqd.Mapping.{PortalBlock}
use subdex.Source.Sqd.Text.{trim, lines, is_empty_text}
use subdex.Source.Sqd.Client.{parse_line, parse_lines, parse_json_lines}

-- The lines trimmed, without the blank ones.
abbrev pub trimmed : List String → List String
trimmed [] = []
trimmed (line ∷ ls) = if is_empty_text (trim line) then trimmed ls else trim line ∷ trimmed ls

module _ (from_json : String → Attempt PortalBlock) where
  abbrev pub ParsesTo : List String → List PortalBlock → Type 0
  ParsesTo ls blocks = map from_json (trimmed ls) ≡ map Attempt.got blocks

  -- The lines before it parse, it is not blank, and its error carries its index.
  pub record FailsAt (i : ℕ) (ls : List String) (e : SubdexError) : Type 0 where
    pub before : List String
    pub blocks : List PortalBlock
    pub line : String
    pub after : List String
    pub message : String
    pub split : ls ≡ before ++ line ∷ after
    pub parsed : ParsesTo before blocks
    pub not_blank : is_empty_text (trim line) ≡ false
    pub malformed : from_json (trim line) ≡ Attempt.lost message
    pub carried :
        e
        ≡ SubdexError.decode
            ("portal block line " <> (decimal (i + length before) <> (": " <> message)))

  abbrev pub Parses : ℕ → List String → Result (List PortalBlock) → Type 0
  Parses i ls (ok blocks) = ParsesTo ls blocks
  Parses i ls (err e) = FailsAt i ls e

  -- A line in front of lines that fail.
  FailsAt-cons :
      (i : ℕ) (line : String) (ls : List String) (bs : List PortalBlock) (e : SubdexError)
      → ((before : List String) (blocks : List PortalBlock)
          → ParsesTo before blocks
          → ParsesTo (line ∷ before) (bs ++ blocks))
      → FailsAt (suc i) ls e
      → FailsAt i (line ∷ ls) e
  FailsAt-cons i line ls bs e more h = record {
    before = line ∷ h.before;
    blocks = bs ++ h.blocks;
    line = h.line;
    after = h.after;
    message = h.message;
    split = ap (λ x. line ∷ x) h.split;
    parsed = more h.before h.blocks h.parsed;
    not_blank = h.not_blank;
    malformed = h.malformed;
    carried =
        let same : suc i + length h.before ≡ i + suc (length h.before) = omega arith in
        subst
          (λ n. e ≡ SubdexError.decode ("portal block line " <> (decimal n <> (": " <> h.message))))
          same h.carried;
  }

  Parses-blank :
      (i : ℕ) (line : String) (ls : List String) (r : Result (List PortalBlock))
      → is_empty_text (trim line) ≡ true
      → Parses (suc i) ls r
      → Parses i (line ∷ ls) r
  Parses-blank i line ls (ok blocks) b h = rw (b, trimmed) h
  Parses-blank i line ls (err e) b h =
      FailsAt-cons i line ls [] e (λ before blocks k. rw (b, trimmed) k) h

  ParsesTo-cons :
      (line : String) (ls : List String) (pb : PortalBlock) (blocks : List PortalBlock)
      → is_empty_text (trim line) ≡ false
      → from_json (trim line) ≡ Attempt.got pb
      → ParsesTo ls blocks
      → ParsesTo (line ∷ ls) (pb ∷ blocks)
  ParsesTo-cons line ls pb blocks b e h = rw (b, e) (ap (λ x. Attempt.got pb ∷ x) h)

  Parses-got :
      (i : ℕ) (line : String) (ls : List String) (pb : PortalBlock) (r : Result (List PortalBlock))
      → is_empty_text (trim line) ≡ false
      → from_json (trim line) ≡ Attempt.got pb
      → Parses (suc i) ls r
      → Parses i (line ∷ ls) (elim r [ ok blocks ↦ ok (pb ∷ blocks) | err e ↦ err e ])
  Parses-got i line ls pb (ok blocks) b e h = ParsesTo-cons line ls pb blocks b e h
  Parses-got i line ls pb (err x) b e h =
      FailsAt-cons i line ls (pb ∷ []) x
        (λ before blocks k. ParsesTo-cons line before pb blocks b e k) h

  Parses-line :
      (i : ℕ) (line : String) (ls : List String) (r : Result (List PortalBlock))
      → is_empty_text (trim line) ≡ false
      → Parses (suc i) ls r
      → Parses i (line ∷ ls) (parse_line from_json i (trim line) r)
  unfolding parse_line
  Parses-line i line ls r b h = elim (Attempt-cases (from_json (trim line))) [
    | inl (pb, e) ↦ rw (e, parse_line) (Parses-got i line ls pb r b e h)
    | inr (m, e) ↦
        rw (e, parse_line)
          (record {
            before = [];
            blocks = [];
            line = line;
            after = ls;
            message = m;
            split = refl;
            parsed = refl;
            not_blank = b;
            malformed = e;
            carried =
                let same : i ≡ i + 0 = omega arith in
                ap (λ n. SubdexError.decode ("portal block line " <> (decimal n <> (": " <> m))))
                  same;
          })
  ]

  parse_lines-Parses : (i : ℕ) (ls : List String) → Parses i ls (parse_lines from_json i ls)
  unfolding parse_lines
  parse_lines-Parses i [] = refl
  parse_lines-Parses i (line ∷ ls) =
      let rest = parse_lines-Parses (suc i) ls in
      elim (Bool-cases (is_empty_text (trim line))) [
        | inl b ↦ rw (b, parse_lines) (Parses-blank i line ls _ b rest)
        | inr b ↦ rw (b, parse_lines) (Parses-line i line ls _ b rest)
      ]

  -- The blocks of a body are those of its lines that are not blank, trimmed and in order; where a line
  -- does not parse, the error is a decode error with the index and the message of the first such line.
  pub parse_json_lines-Parses :
      (text : String) → Parses 0 (lines text) (parse_json_lines from_json text)
  parse_json_lines-Parses text = parse_lines-Parses 0 (lines text)
