-- ===== src/Openspec/Replay.antt =====
-- How the requirements that `renderRequirement` of internal/openspec/render.go writes are read.
use semdev.Base.{
  ◌≡◌, refl, sym, ap, ◌∙◌, inl, inr, false, List, [], ◌∷◌, ◌++◌, Option, some, none, Option-cases,
  append-nil, append_assoc, Text, codes, is_empty, split, All,
}
use semdev.Openspec.Model.{Step, Scenario, Requirement}
use semdev.Openspec.Lines.{scenario, requirement, prose, bullet_body, parse_step, read_line}
use semdev.Openspec.Spec.{
  Reading, requirements, prose_text, with_scenario, with_statement, add_req, flush_scenario,
  flush_requirement, new_requirement, take_text, step, read_lines, put_body, step_text,
  render_steps, render_scenario, render_scenarios, render_requirement, render_requirements,
}
use semdev.Openspec.Trimmed.{IsTrimmed, split-filled}
use semdev.Openspec.Canonical.{
  IsProse, IsBody, IsStep, IsScenario, IsRequirement, read_line-scenario, read_line-requirement,
  read_line-bullet, bullet_body-dash,
}
use semdev.Openspec.Reads.{
  run, run-prefixed, run-blank, body_lines, All-body_lines, run-put_body, prose_text-body_lines,
}

module _ (heading : Text) (purpose_lines : List Text) where
  -- A reading among the requirements.
  abbrev pub at : List Requirement → Option Requirement → List Text → Option Scenario → Reading
  at done r ls sc = record {
    title = heading;
    done = done;
    warnings = [];
    section = requirements;
    purpose_lines = purpose_lines;
    stmt_lines = ls;
    cur_req = r;
    cur_scen = sc;
  }

  step-statement :
      (ds : List Requirement) (r : Requirement) (ls : List Text) (t : Text)
      → step (at ds (some r) ls none) (prose t) ≡ at ds (some r) (ls ++ t ∷ []) none
  unfolding step
  step-statement ds r ls t = elim (Option-cases (bullet_body t)) [
    | inl e ↦ rw e refl
    | inr (body, e) ↦ rw e refl
  ]

  read_lines-statement :
      (ds : List Requirement) (r : Requirement) (ls ms : List Text)
      → All IsProse ms
      → read_lines (at ds (some r) ls none) ms ≡ at ds (some r) (ls ++ ms) none
  unfolding read_lines
  read_lines-statement ds r ls [] h = ap (λ x. at ds (some r) x none) (sym (append-nil ls))
  read_lines-statement ds r ls (m ∷ ms) (h, hs) =
      ap (λ l. read_lines (step (at ds (some r) ls none) l) ms) h
      ∙ ap (λ s. read_lines s ms) (step-statement ds r ls m)
      ∙ read_lines-statement ds r (ls ++ m ∷ []) ms hs
      ∙ ap (λ x. at ds (some r) x none) (append_assoc ls (m ∷ []) ms)

  step-bullet :
      (ds : List Requirement) (r : Requirement) (ls : List Text) (sc : Scenario) (t : Text)
      (st : Step)
      → IsTrimmed t
      → is_empty t ≡ false
      → parse_step t ≡ st
      → step (at ds (some r) ls (some sc)) (read_line (codes "- " ++ t))
        ≡ at ds (some r) ls (some (record sc { steps = sc.steps ++ st ∷ [] }))
  unfolding step
  step-bullet ds r ls sc [] st trimmed filled h = cc
  step-bullet ds r ls sc (d ∷ t) st trimmed filled h =
      ap (step (at ds (some r) ls (some sc))) (read_line-bullet d t trimmed)
      ∙ ap (λ b. take_text (codes "- " ++ d ∷ t) b (some sc) (at ds (some r) ls (some sc)))
          (bullet_body-dash (d ∷ t) trimmed)
      ∙ ap (λ x. at ds (some r) ls (some (record sc { steps = sc.steps ++ x ∷ [] }))) h

  run-steps :
      (ds : List Requirement) (r : Requirement) (ls : List Text) (sc : Scenario) (sts : List Step)
      (rest : Text)
      → All IsStep sts
      → run (at ds (some r) ls (some sc)) (render_steps sts rest)
        ≡ run (at ds (some r) ls (some (record sc { steps = sc.steps ++ sts }))) rest
  unfolding render_steps
  run-steps ds r ls sc [] rest h = rw (append-nil sc.steps) refl
  run-steps ds r ls sc (st ∷ sts) rest (h, hs) =
      run-prefixed _ (codes "- ") (step_text st) (render_steps sts rest) refl h.name.1
      ∙ ap (λ s. run s (render_steps sts rest))
          (step-bullet ds r ls sc (step_text st) st h.name.0 h.filled h.reads)
      ∙ run-steps ds r ls (record sc { steps = sc.steps ++ st ∷ [] }) sts rest hs
      ∙ ap (λ x. run (at ds (some r) ls (some (record sc { steps = x }))) rest)
          (append_assoc sc.steps (st ∷ []) sts)

  -- The requirement that is open when its scenario is flushed.
  abbrev flushed : Requirement → Option Scenario → Requirement
  flushed r none = r
  flushed r (some sc) = record r { scenarios = r.scenarios ++ sc ∷ [] }

  run-scenario :
      (ds : List Requirement) (r : Requirement) (ls : List Text) (before : Option Scenario)
      (sc : Scenario) (rest : Text)
      → IsScenario sc
      → run (at ds (some r) ls before) (render_scenario sc rest)
        ≡ run (at ds (some (flushed r before)) ls (some sc)) rest
  unfolding render_scenario step flush_scenario
  run-scenario ds r ls before sc rest h =
      run-blank _ _
      ∙ run-prefixed _ (codes "#### Scenario: ") sc.name (render_steps sc.steps rest) refl h.name.1
      ∙ ap (λ l. run (step (at ds (some r) ls before) l) (render_steps sc.steps rest))
          (read_line-scenario sc.name h.name.0)
      ∙ opened before
    where
      opened :
          (sc' : Option Scenario)
          → run (step (at ds (some r) ls sc') (scenario sc.name)) (render_steps sc.steps rest)
            ≡ run (at ds (some (flushed r sc')) ls (some sc)) rest
      opened none = run-steps ds r ls (record { name = sc.name; steps = [] }) sc.steps rest h.steps
      opened (some b) =
          run-steps ds (flushed r (some b)) ls (record { name = sc.name; steps = [] }) sc.steps rest
            h.steps

  -- The requirement and the scenario that are open after scenarios.
  abbrev absorb : Requirement → Option Scenario → List Scenario → Requirement × Option Scenario
  absorb r before [] = (r, before)
  absorb r before (sc ∷ scs) = absorb (flushed r before) (some sc) scs

  run-scenarios :
      (ds : List Requirement) (r : Requirement) (ls : List Text) (before : Option Scenario)
      (scs : List Scenario) (rest : Text)
      → All IsScenario scs
      → run (at ds (some r) ls before) (render_scenarios scs rest)
        ≡ run (at ds (some (absorb r before scs).0) ls (absorb r before scs).1) rest
  unfolding render_scenarios
  run-scenarios ds r ls before [] rest h = refl
  run-scenarios ds r ls before (sc ∷ scs) rest (h, hs) =
      run-scenario ds r ls before sc (render_scenarios scs rest) h
      ∙ run-scenarios ds (flushed r before) ls (some sc) scs rest hs

  absorb-flushed :
      (r : Requirement) (sc : Scenario) (scs : List Scenario)
      → flushed (absorb r (some sc) scs).0 (absorb r (some sc) scs).1
        ≡ record r { scenarios = r.scenarios ++ sc ∷ scs }
  absorb-flushed r sc [] = refl
  absorb-flushed r sc (d ∷ scs) =
      absorb-flushed (flushed r (some sc)) d scs
      ∙ ap (λ x. record r { scenarios = x }) (append_assoc r.scenarios (sc ∷ []) (d ∷ scs))

  absorb_all :
      (r : Requirement) (scs : List Scenario)
      → r.scenarios ≡ []
      → flushed (absorb r none scs).0 (absorb r none scs).1 ≡ record r { scenarios = scs }
  absorb_all r [] h = ap (λ x. record r { scenarios = x }) h
  absorb_all r (sc ∷ scs) h =
      absorb-flushed r sc scs ∙ ap (λ x. record r { scenarios = x ++ sc ∷ scs }) h

  -- What is open in front of the requirements, closed.
  abbrev pub closed :
      List Requirement → Option Requirement → List Text → Option Scenario → List Requirement
  closed ds r ls sc = add_req ds (with_scenario r sc) ls

  with_statement-body :
      (r : Requirement) (t : Text)
      → IsBody t
      → r.statement ≡ []
      → with_statement r (body_lines t) ≡ record r { statement = t }
  with_statement-body r [] h e = ap (λ x. record r { statement = x }) e
  with_statement-body r (c ∷ cs) h e =
      let (l, ls, is) = split-filled (c ∷ cs) in
      ap (with_statement r) is
      ∙ ap (λ x. record r { statement = x })
          (ap prose_text (sym is) ∙ prose_text-body_lines (c ∷ cs) h)

  run-requirement :
      (ds : List Requirement) (r : Option Requirement) (ls : List Text) (sc : Option Scenario)
      (q : Requirement) (rest : Text)
      → IsRequirement q
      → run (at ds r ls sc) (render_requirement q [] [] rest)
        ≡ run
            (at
              (closed ds r ls sc)
              (some (absorb (new_requirement q.name) none q.scenarios).0)
              (body_lines q.statement)
              (absorb (new_requirement q.name) none q.scenarios).1)
            rest
  unfolding render_requirement step flush_requirement
  run-requirement ds r ls sc q rest h =
      run-blank _ _
      ∙ run-prefixed _ (codes "### Requirement: ") q.name tail refl h.name.1
      ∙ ap (λ l. run (step (at ds r ls sc) l) tail) (read_line-requirement q.name h.name.0)
      ∙ run-opened
    where
      tail : Text
      tail = put_body q.statement (render_scenarios q.scenarios rest)

      run-opened :
          run (step (at ds r ls sc) (requirement q.name)) tail
          ≡ run
              (at
                (closed ds r ls sc)
                (some (absorb (new_requirement q.name) none q.scenarios).0)
                (body_lines q.statement)
                (absorb (new_requirement q.name) none q.scenarios).1)
              rest
      run-opened =
          run-put_body _ q.statement (render_scenarios q.scenarios rest)
          ∙ ap (λ s. run s (render_scenarios q.scenarios rest))
              (read_lines-statement (closed ds r ls sc) (new_requirement q.name) []
                (body_lines q.statement) (All-body_lines q.statement h.statement))
          ∙ run-scenarios (closed ds r ls sc) (new_requirement q.name) (body_lines q.statement) none
              q.scenarios rest h.scenarios

  with_scenario-some :
      (r : Requirement) (sc : Option Scenario) → with_scenario (some r) sc ≡ some (flushed r sc)
  with_scenario-some r none = refl
  with_scenario-some r (some sc) = refl

  -- The requirement that was read is the one rendered.
  closed-requirement :
      (ds : List Requirement) (q : Requirement)
      → IsRequirement q
      → closed ds
          (some (absorb (new_requirement q.name) none q.scenarios).0)
          (body_lines q.statement)
          (absorb (new_requirement q.name) none q.scenarios).1
        ≡ ds ++ q ∷ []
  closed-requirement ds q h =
      let read = absorb (new_requirement q.name) none q.scenarios in
      let lines = body_lines q.statement in
      ap (λ o. add_req ds o lines) (with_scenario-some read.0 read.1)
      ∙ ap (λ x. ds ++ with_statement x lines ∷ [])
          (absorb_all (new_requirement q.name) q.scenarios refl)
      ∙ ap (λ x. ds ++ x ∷ [])
          (with_statement-body (record (new_requirement q.name) { scenarios = q.scenarios })
            q.statement h.statement refl)

  pub run-requirements :
      (ds : List Requirement) (r : Option Requirement) (ls : List Text) (sc : Option Scenario)
      (qs : List Requirement)
      → All IsRequirement qs
      → flush_requirement (run (at ds r ls sc) (render_requirements qs []))
        ≡ at (closed ds r ls sc ++ qs) none [] none
  unfolding render_requirements flush_requirement read_lines step read_line split
  run-requirements ds r ls sc [] h =
      ap (λ x. at x none [] none) (sym (append-nil (closed ds r ls sc)))
  run-requirements ds r ls sc (q ∷ qs) (h, hs) =
      let read = absorb (new_requirement q.name) none q.scenarios in
      ap flush_requirement (run-requirement ds r ls sc q (render_requirements qs []) h)
      ∙ run-requirements (closed ds r ls sc) (some read.0) (body_lines q.statement) read.1 qs hs
      ∙ ap (λ x. at (x ++ qs) none [] none) (closed-requirement (closed ds r ls sc) q h)
      ∙ ap (λ x. at x none [] none) (append_assoc (closed ds r ls sc) (q ∷ []) qs)
