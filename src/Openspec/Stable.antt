-- ===== src/Openspec/Stable.antt =====
-- Reading, writing and reading again: the stability that internal/openspec/render.go speaks of.
use semdev.Base.{
  ◌≡◌, refl, sym, ap, ◌∙◌, subst, true, List, [], ◌∷◌, ◌++◌, Option, some, none, Text, all, all-All,
  All-append, split, trim_space, Lacks, All,
}
use semdev.Openspec.Model.{Scenario, Requirement}
use semdev.Openspec.Lines.{
  Line, scenario, requirement, section, title, blank, prose, bullet_body, parse_step, read_line,
}
use semdev.Openspec.Spec.{
  Reading, Section, start, flush_scenario, take_prose, take_text, step, read_lines, parse_spec,
  render_spec,
}
use semdev.Openspec.Trimmed.{IsTrimmed, split-All-Lacks}
use semdev.Openspec.Canonical.{IsStep, IsScenario, IsSpec}
use semdev.Openspec.Words.{trim_space-IsName}
use semdev.Openspec.Bullets.{bullet_body-IsBullet, bullet_filled, parse_step-IsStep}
use semdev.Openspec.Margin.{at_margin, IsLine, IsValid, read_line-IsValid}
use semdev.Openspec.SpecRoundTrip.{parse_spec-render_spec}
use semdev.Openspec.Kept.{
  OnSome, IsReading, prose_text-IsBody, flush_requirement-IsReading, flush_scenario-IsReading,
  open_scenario-IsReading,
}

to_purpose :
    (t : Text) (s : Reading)
    → IsLine t
    → IsReading s
    → IsReading (record s { purpose_lines = s.purpose_lines ++ t ∷ [] })
to_purpose t s k h = record {
  title = h.title;
  done = h.done;
  purpose = All-append IsLine s.purpose_lines (t ∷ []) h.purpose (k, tt);
  stmt = h.stmt;
  req = h.req;
  scen = h.scen;
}

to_statement :
    (t : Text) (s : Reading)
    → IsLine t
    → IsReading s
    → IsReading (record s { stmt_lines = s.stmt_lines ++ t ∷ [] })
to_statement t s k h = record {
  title = h.title;
  done = h.done;
  purpose = h.purpose;
  stmt = All-append IsLine s.stmt_lines (t ∷ []) h.stmt (k, tt);
  req = h.req;
  scen = h.scen;
}

take_prose-IsReading :
    (t : Text) (sec : Section) (r : Option Requirement) (sc : Option Scenario) (s : Reading)
    → IsLine t
    → IsReading s
    → IsReading (take_prose t sec r sc s)
take_prose-IsReading t Section.purpose r sc s k h = to_purpose t s k h
take_prose-IsReading t Section.requirements (some r) none s k h = to_statement t s k h
take_prose-IsReading t Section.other (some r) none s k h = to_statement t s k h
take_prose-IsReading t Section.requirements none sc s k h = h
take_prose-IsReading t Section.requirements (some r) (some sc) s k h = h
take_prose-IsReading t Section.other none sc s k h = h
take_prose-IsReading t Section.other (some r) (some sc) s k h = h

bullet-IsStep : (t body : Text) → IsLine t → bullet_body t ≡ some body → IsStep (parse_step body)
bullet-IsStep t body k e =
    let b = bullet_body-IsBullet t e in
    let trimmed : IsTrimmed (b.mark ∷ 32 ∷ b.rest) = subst IsTrimmed b.is_it k.name.0 in
    let lacks : Lacks 10 b.rest = (subst (Lacks 10) b.is_it k.name.1).1.1 in
    subst (λ x. IsStep (parse_step x)) (sym b.body_is)
      (parse_step-IsStep (trim_space b.rest) (trim_space-IsName b.rest lacks)
        (bullet_filled b.mark b.rest trimmed))

take_text-IsReading :
    (t : Text) (body : Option Text) (sc : Option Scenario) (s : Reading)
    → bullet_body t ≡ body
    → IsLine t
    → OnSome IsScenario sc
    → IsReading s
    → IsReading (take_text t body sc s)
take_text-IsReading t (some body) (some sc) s e k i h = record {
  title = h.title;
  done = h.done;
  purpose = h.purpose;
  stmt = h.stmt;
  req = h.req;
  scen = record {
    name = i.name;
    steps =
        All-append IsStep sc.steps (parse_step body ∷ []) i.steps (bullet-IsStep t body k e, tt);
  };
}
take_text-IsReading t (some body) none s e k i h =
    take_prose-IsReading t s.section s.cur_req s.cur_scen s k h
take_text-IsReading t none sc s e k i h =
    take_prose-IsReading t s.section s.cur_req s.cur_scen s k h

step-IsReading : (s : Reading) (l : Line) → IsValid l → IsReading s → IsReading (step s l)
unfolding step
step-IsReading s (scenario n) v h =
    open_scenario-IsReading n s.cur_req (flush_scenario s) v (flush_scenario-IsReading s h)
step-IsReading s (requirement n) v h =
    let f = flush_requirement-IsReading s h in
    record {
      title = f.title;
      done = f.done;
      purpose = f.purpose;
      stmt = f.stmt;
      req = record { name = v; empty = refl; scenarios = tt };
      scen = f.scen;
    }
step-IsReading s (section n) v h =
    let f = flush_requirement-IsReading s h in
    record {
      title = f.title;
      done = f.done;
      purpose = f.purpose;
      stmt = f.stmt;
      req = f.req;
      scen = f.scen;
    }
step-IsReading s (title t) v h = record {
  title = v;
  done = h.done;
  purpose = h.purpose;
  stmt = h.stmt;
  req = h.req;
  scen = h.scen;
}
step-IsReading s blank v h = h
step-IsReading s (prose t) v h = take_text-IsReading t (bullet_body t) s.cur_scen s refl v h.scen h

read_lines-IsReading :
    (s : Reading) (raws : List Text)
    → All (Lacks 10) raws
    → All (λ raw. at_margin raw ≡ true) raws
    → IsReading s
    → IsReading (read_lines s raws)
unfolding read_lines
read_lines-IsReading s [] ls ms h = h
read_lines-IsReading s (raw ∷ raws) (l, ls) (m, ms) h =
    read_lines-IsReading (step s (read_line raw)) raws ls ms
      (step-IsReading s (read_line raw) (read_line-IsValid raw l m) h)

start-IsReading : IsReading start
unfolding trim_space
start-IsReading = record {
  title = (refl, tt);
  done = tt;
  purpose = tt;
  stmt = tt;
  req = tt;
  scen = tt;
}

-- What ParseSpec reads of such a text is a spec that a file can say.
pub parse_spec-IsSpec : (md : Text) → all at_margin (split 10 md) ≡ true → IsSpec (parse_spec md)
unfolding parse_spec
parse_spec-IsSpec md h =
    let read = flush_requirement-IsReading _ (
      read_lines-IsReading start (split 10 md) (split-All-Lacks md)
        (all-All at_margin (split 10 md) h) start-IsReading) in
    record {
      title = read.title;
      purpose = prose_text-IsBody _ read.purpose;
      requirements = read.done;
    }

-- Of a text in which no indented line of prose would be a heading at the margin, what ParseSpec
-- reads, RenderSpec writes and ParseSpec reads again is what was read at first, but for the
-- warnings, of which there are none the second time.
pub parse_spec_stable :
    (md : Text)
    → all at_margin (split 10 md) ≡ true
    → parse_spec (render_spec (parse_spec md)) ≡ record (parse_spec md) { warnings = [] }
parse_spec_stable md h =
    parse_spec-render_spec (parse_spec md) (parse_spec-IsSpec md h)
    ∙ ap (λ c. record (parse_spec md) { capability = c; warnings = [] })
        (sym (unfold parse_spec in refl))
