-- ===== src/Openspec/SpecRoundTrip.antt =====
-- A rendered capability spec is parsed as it was: `RenderSpec` and `ParseSpec` of internal/openspec.
use semdev.Base.{
  ◌≡◌, refl, sym, ap, ◌∙◌, inl, inr, List, [], ◌∷◌, ◌++◌, none, Option-cases, append-nil,
  append_assoc, Text, codes, split, trim_space, All,
}
use semdev.Openspec.Model.{Spec}
use semdev.Openspec.Lines.{prose, bullet_body, read_line}
use semdev.Openspec.Spec.{
  Reading, Section, other, start, flush_requirement, step, read_lines, spec_of, parse_spec,
  put_line, render_requirements, purpose_section, render_spec,
}
use semdev.Openspec.Reads.{
  run, run-put_line, run-prefixed, run-blank, body_lines, prose_text-body_lines,
}
use semdev.Openspec.Replay.{at, run-requirements}
use semdev.Openspec.Canonical.{IsName, IsProse, IsBody, IsSpec, read_line-title}

-- A reading in front of the requirements.
abbrev before : Text → Section → List Text → Reading
before t sec ls = record start { title = t; section = sec; purpose_lines = ls }

step-title : (t : Text) → IsName t → step start (read_line (codes "# " ++ t)) ≡ before t other []
unfolding step read_line
step-title [] h = refl
step-title (d ∷ t) h = ap (step start) (read_line-title d t h.0)

step-purpose :
    (t : Text) (ls : List Text) (l : Text)
    → step (before t Section.purpose ls) (prose l) ≡ before t Section.purpose (ls ++ l ∷ [])
unfolding step
step-purpose t ls l = elim (Option-cases (bullet_body l)) [
  | inl e ↦ rw e refl
  | inr (body, e) ↦ rw e refl
]

read_lines-purpose :
    (t : Text) (ls ms : List Text)
    → All IsProse ms
    → read_lines (before t Section.purpose ls) ms ≡ before t Section.purpose (ls ++ ms)
unfolding read_lines
read_lines-purpose t ls [] h = ap (before t Section.purpose) (sym (append-nil ls))
read_lines-purpose t ls (m ∷ ms) (h, hs) =
    ap (λ l. read_lines (step (before t Section.purpose ls) l) ms) h
    ∙ ap (λ s. read_lines s ms) (step-purpose t ls m)
    ∙ read_lines-purpose t (ls ++ m ∷ []) ms hs
    ∙ ap (before t Section.purpose) (append_assoc ls (m ∷ []) ms)

run-purpose :
    (t purpose rest : Text)
    → IsBody purpose
    → run
        (before t other [])
        (purpose_section purpose (put_line [] (put_line (codes "## Requirements") rest)))
      ≡ run (at t (body_lines purpose) [] none [] none) rest
unfolding step flush_requirement read_line trim_space
run-purpose t [] rest h = run-blank _ _ ∙ run-prefixed _ (codes "## Requirements") [] rest refl tt
run-purpose t (c ∷ cs) rest h =
    run-blank _ _
    ∙ run-prefixed _ (codes "## Purpose") [] _ refl tt
    ∙ run-put_line _ (c ∷ cs) _
    ∙ ap (λ s. run s (put_line [] (put_line (codes "## Requirements") rest)))
        (read_lines-purpose t [] (split 10 (c ∷ cs)) h.1)
    ∙ run-blank _ _
    ∙ run-prefixed _ (codes "## Requirements") [] rest refl tt

-- Of a spec whose names are trimmed and on one line, whose purpose and statements are nothing or
-- trimmed lines of prose, and whose steps are what their bullets are read as, ParseSpec reads back
-- what RenderSpec writes, but for the capability and the warnings, which it does not write.
pub parse_spec-render_spec :
    (s : Spec) → IsSpec s → parse_spec (render_spec s) ≡ record s { capability = []; warnings = [] }
unfolding parse_spec render_spec
parse_spec-render_spec s h =
    ap (λ r. spec_of (flush_requirement r))
      (run-prefixed start (codes "# ") s.title _ refl h.title.1
        ∙ ap
            (λ r. run r (
              purpose_section s.purpose (
                put_line []
                  (put_line (codes "## Requirements") (render_requirements s.requirements [])))))
            (step-title s.title h.title)
        ∙ run-purpose s.title s.purpose (render_requirements s.requirements []) h.purpose)
    ∙ ap spec_of (
        run-requirements s.title (body_lines s.purpose) [] none [] none s.requirements
          h.requirements)
    ∙ ap (λ p. record s { capability = []; purpose = p; warnings = [] })
        (prose_text-body_lines s.purpose h.purpose)
