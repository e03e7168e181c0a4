-- ===== src/Openspec/Margin.antt =====
-- The lines that the parsers of internal/openspec/parse.go take for prose or a heading.
use semdev.Base.{
  ◌≡◌, refl, sym, ap, ◌∙◌, subst, inl, inr, Bool, true, false, [], ◌∷◌, Option, some, none,
  Option-cases, Text, codes, is_empty, trim_space, Lacks,
}
use semdev.Openspec.Lines.{
  Line, scenario, requirement, section, title, blank, prose, prose_or_blank, or_else, cut_prefix,
  trim_end, line_of, read_line,
}
use semdev.Openspec.Trimmed.{trim_end-IsTrimmed}
use semdev.Openspec.Canonical.{IsName, IsProse}
use semdev.Openspec.Words.{cut_prefix-some, Lacks-trim_end, Lacks-behind, trim_space-IsName}

abbrev is_prose : Line → Bool
is_prose (prose t) = true
is_prose (scenario t) = false
is_prose (requirement t) = false
is_prose (section t) = false
is_prose (title t) = false
is_prose blank = false

abbrev prose_at_margin : Line → Bool
prose_at_margin (prose t) = is_prose (read_line t)
prose_at_margin (scenario t) = true
prose_at_margin (requirement t) = true
prose_at_margin (section t) = true
prose_at_margin (title t) = true
prose_at_margin blank = true

-- The line is no prose that would be a heading without its indentation.
abbrev pub at_margin : Text → Bool
at_margin raw = prose_at_margin (read_line raw)

-- A line of prose as a parser keeps it.
pub record IsLine (t : Text) : Type 0 where
  pub name : IsName t
  pub filled : is_empty t ≡ false
  pub prose_line : IsProse t

or_else-prose :
    (heading : Text → Line) (o : Option Text) (other : Line)
    → ((t : Text) → is_prose (heading t) ≡ false)
    → is_prose (or_else heading o other) ≡ true
    → or_else heading o other ≡ other
or_else-prose heading none other apart h = refl
or_else-prose heading (some t) other apart h = cc (apart (trim_space t), h)

line_of-prose : (t : Text) → is_prose (line_of t) ≡ true → line_of t ≡ prose_or_blank (trim_space t)
unfolding line_of
line_of-prose t h =
    let one = or_else-prose scenario (cut_prefix t (codes "#### Scenario:")) _ (λ t. refl) h in
    let two =
      or_else-prose requirement (cut_prefix t (codes "### Requirement:")) _ (λ t. refl)
        (sym (ap is_prose one) ∙ h) in
    let three =
      or_else-prose section (cut_prefix t (codes "## ")) _ (λ t. refl)
        (sym (ap is_prose (one ∙ two)) ∙ h) in
    let four =
      or_else-prose title (cut_prefix t (codes "# ")) _ (λ t. refl)
        (sym (ap is_prose (one ∙ two ∙ three)) ∙ h) in
    one ∙ two ∙ three ∙ four

abbrev pub IsValid : Line → Type 0
IsValid (scenario n) = IsName n
IsValid (requirement n) = IsName n
IsValid (section h) = Unit
IsValid (title t) = IsName t
IsValid blank = Unit
IsValid (prose t) = IsLine t

-- A line is valid where its prose stays prose at the margin.
abbrev AtMargin : Line → Type 0
AtMargin l = prose_at_margin l ≡ true → IsValid l

or_else-AtMargin :
    (heading : Text → Line) (t p : Text) (other : Line)
    → Lacks 10 t
    → ((n : Text) → IsName n → IsValid (heading n))
    → AtMargin other
    → AtMargin (or_else heading (cut_prefix t p) other)
or_else-AtMargin heading t p other lacks is rest = elim (Option-cases (cut_prefix t p)) [
  | inl e ↦ rw e rest
  | inr (r, e) ↦
      let behind : Lacks 10 r =
        Lacks-behind 10 p r (subst (Lacks 10) (cut_prefix-some t p e) lacks) in
      rw e (λ _. is (trim_space r) (trim_space-IsName r behind))
]

IsLine-margin :
    (t : Text) → IsName t → is_empty t ≡ false → is_prose (read_line t) ≡ true → IsLine t
unfolding read_line
IsLine-margin [] name filled h = cc
IsLine-margin (c ∷ cs) name filled h =
    let whole = trim_end-IsTrimmed (c ∷ cs) name.0 in
    record {
      name = name;
      filled = filled;
      prose_line =
          ap line_of whole
          ∙ line_of-prose (c ∷ cs) (sym (ap (λ t. is_prose (line_of t)) whole) ∙ h)
          ∙ ap prose_or_blank name.0;
    }

prose-AtMargin : (t : Text) → IsName t → AtMargin (prose_or_blank t)
prose-AtMargin [] name h = tt
prose-AtMargin (c ∷ cs) name h = IsLine-margin (c ∷ cs) name refl h

line_of-AtMargin : (t : Text) → Lacks 10 t → AtMargin (line_of t)
unfolding line_of
line_of-AtMargin t h =
    or_else-AtMargin scenario t (codes "#### Scenario:") _ h (λ n is. is)
      (or_else-AtMargin requirement t (codes "### Requirement:") _ h (λ n is. is)
        (or_else-AtMargin section t (codes "## ") _ h (λ n is. tt)
          (or_else-AtMargin title t (codes "# ") _ h (λ n is. is)
            (prose-AtMargin (trim_space t) (trim_space-IsName t h)))))

pub read_line-IsValid : (raw : Text) → Lacks 10 raw → at_margin raw ≡ true → IsValid (read_line raw)
unfolding read_line
read_line-IsValid raw h = line_of-AtMargin (trim_end raw) (Lacks-trim_end 10 raw h)
