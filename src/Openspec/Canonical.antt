-- ===== src/Openspec/Canonical.antt =====
-- The capability specs that a file can say, and how the lines that they are rendered to are read.
use semdev.Base.{
  ℕ, ◌≡◌, refl, ap, ◌∙◌, false, [], ◌∷◌, ◌++◌, some, Text, codes, is_empty, is_space, trim_space,
  split, All, Lacks,
}
use semdev.Openspec.Model.{Step, Scenario, Requirement, Spec}
use semdev.Openspec.Lines.{
  scenario, requirement, title, prose, bullet_body, parse_step, line_of, read_line,
}
use semdev.Openspec.Spec.{step_text}
use semdev.Openspec.Trimmed.{IsTrimmed, trim_end-prefix, trim_space-space, IsTrimmed-append}

-- The text of a heading: trimmed, on one line.
abbrev pub IsName : Text → Type 0
IsName t = IsTrimmed t × Lacks 10 t

-- A line that is read as prose.
abbrev pub IsProse : Text → Type 0
IsProse l = read_line l ≡ prose l

-- Nothing, or lines of prose.
abbrev pub IsBody : Text → Type 0
IsBody [] = Unit
IsBody (c ∷ cs) = IsTrimmed (c ∷ cs) × All IsProse (split 10 (c ∷ cs))

-- A step that is what its bullet is read as.
pub record IsStep (st : Step) : Type 0 where
  pub name : IsName (step_text st)
  pub filled : is_empty (step_text st) ≡ false
  pub reads : parse_step (step_text st) ≡ st

pub record IsScenario (sc : Scenario) : Type 0 where
  pub name : IsName sc.name
  pub steps : All IsStep sc.steps

pub record IsRequirement (r : Requirement) : Type 0 where
  pub name : IsName r.name
  pub statement : IsBody r.statement
  pub scenarios : All IsScenario r.scenarios

pub record IsSpec (s : Spec) : Type 0 where
  pub title : IsName s.title
  pub purpose : IsBody s.purpose
  pub requirements : All IsRequirement s.requirements

pub read_line-scenario :
    (n : Text) → IsTrimmed n → read_line (codes "#### Scenario: " ++ n) ≡ scenario n
unfolding read_line trim_space
read_line-scenario [] h = refl
read_line-scenario (d ∷ r) h =
    ap line_of (trim_end-prefix (codes "#### Scenario: ") d r h)
    ∙ ap scenario (trim_space-space (d ∷ r) h)

pub read_line-requirement :
    (n : Text) → IsTrimmed n → read_line (codes "### Requirement: " ++ n) ≡ requirement n
unfolding read_line trim_space
read_line-requirement [] h = refl
read_line-requirement (d ∷ r) h =
    ap line_of (trim_end-prefix (codes "### Requirement: ") d r h)
    ∙ ap requirement (trim_space-space (d ∷ r) h)

pub read_line-title :
    (d : ℕ) (r : Text) → IsTrimmed (d ∷ r) → read_line (codes "# " ++ d ∷ r) ≡ title (d ∷ r)
unfolding read_line trim_space
read_line-title d r h = ap line_of (trim_end-prefix (codes "# ") d r h) ∙ ap title h

pub read_line-bullet :
    (d : ℕ) (r : Text)
    → IsTrimmed (d ∷ r)
    → read_line (codes "- " ++ d ∷ r) ≡ prose (codes "- " ++ d ∷ r)
unfolding read_line is_space
read_line-bullet d r h =
    ap line_of (trim_end-prefix (codes "- ") d r h)
    ∙ rw (IsTrimmed-append b'-' (32 ∷ []) d r refl h) refl

pub bullet_body-dash : (t : Text) → IsTrimmed t → bullet_body (codes "- " ++ t) ≡ some t
unfolding bullet_body
bullet_body-dash t h = ap some h
