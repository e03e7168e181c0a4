-- ===== src/Openspec/TasksStable.antt =====
-- Reading, writing and reading again the tasks of internal/openspec.
use semdev.Base.{
  ◌≡◌, refl, sym, subst, inl, inr, Bool, true, false, List, [], ◌∷◌, ◌++◌, Option, some, none,
  Option-cases, Text, codes, is_empty, all, all-All, All, All-append, split, trim_space, Lacks,
  lacks,
}
use semdev.Openspec.Model.{Task, TaskSection}
use semdev.Openspec.Lines.{cut_prefix, trim_end}
use semdev.Openspec.Tasks.{
  Line, section, title, blank, prose, prose_or_blank, or_else, line_of, read_line,
  parse_task_bullet, Reading, flushed, with_task, step, read_lines, start, tasks_of, parse_tasks,
  render_tasks,
}
use semdev.Openspec.Trimmed.{split-All-Lacks}
use semdev.Openspec.Canonical.{IsName}
use semdev.Openspec.Words.{cut_prefix-some, Lacks-trim_end, Lacks-behind, trim_space-IsName}
use semdev.Openspec.TaskLines.{IsTask, parse_task_bullet-IsTask}
use semdev.Openspec.TasksRoundTrip.{IsNamed, AreSections, at, parse_tasks-render_tasks}

-- A line is no heading of the second level without a name.
abbrev has_name : Line → Bool
has_name (section []) = false
has_name (section (c ∷ cs)) = true
has_name (title t) = true
has_name blank = true
has_name (prose t) = true

abbrev pub is_named : Text → Bool
is_named raw = has_name (read_line raw)

abbrev IsValid : Line → Type 0
IsValid (section n) = IsName n
IsValid (title t) = IsName t
IsValid blank = Unit
IsValid (prose t) = IsName t

or_else-IsValid :
    (of : Text → Line) (t p : Text) (other : Line)
    → Lacks 10 t
    → ((n : Text) → IsName n → IsValid (of n))
    → IsValid other
    → IsValid (or_else of (cut_prefix t p) other)
or_else-IsValid of t p other lacks is rest = elim (Option-cases (cut_prefix t p)) [
  | inl e ↦ rw e rest
  | inr (r, e) ↦
      let behind : Lacks 10 r =
        Lacks-behind 10 p r (subst (Lacks 10) (cut_prefix-some t p e) lacks) in
      rw e (is (trim_space r) (trim_space-IsName r behind))
]

prose-IsValid : (t : Text) → IsName t → IsValid (prose_or_blank t)
prose-IsValid [] h = tt
prose-IsValid (c ∷ cs) h = h

read_line-IsValid : (raw : Text) → Lacks 10 raw → IsValid (read_line raw)
unfolding read_line line_of
read_line-IsValid raw h =
    let lacks = Lacks-trim_end 10 raw h in
    or_else-IsValid section (trim_end raw) (codes "## ") _ lacks (λ n is. is)
      (or_else-IsValid title (trim_end raw) (codes "# ") _ lacks (λ n is. is)
        (prose-IsValid (trim_space (trim_end raw)) (trim_space-IsName (trim_end raw) lacks)))

-- What the loop over the lines keeps.
record IsReading (r : Reading) : Type 0 where
  title : IsName r.title
  sections : AreSections (flushed r.sections r.cur)
  implicit : r.cur ≡ none → r.sections ≡ []

AreSections-append :
    (ss : List TaskSection) (s : TaskSection)
    → AreSections ss
    → IsNamed s
    → AreSections (ss ++ s ∷ [])
AreSections-append [] s h (k, named) = (k, (λ e. cc (named, e)), tt)
AreSections-append (x ∷ ss) s (h, filled, hs) named =
    (h, filled, All-append IsNamed ss (s ∷ []) hs (named, tt))

-- The last section takes a task.
All-last :
    (ss : List TaskSection) (s : TaskSection) (t : Task)
    → IsTask t
    → All IsNamed (ss ++ s ∷ [])
    → All IsNamed (ss ++ record s { tasks = s.tasks ++ t ∷ [] } ∷ [])
All-last [] s t h ((k, named), _) = (
  (record { name = k.name; tasks = All-append IsTask s.tasks (t ∷ []) k.tasks (h, tt) }, named),
  tt,
)
All-last (x ∷ ss) s t h (k, ks) = (k, All-last ss s t h ks)

append-filled : (ts : List Task) (t : Task) → is_empty (ts ++ t ∷ []) ≡ false
append-filled [] t = refl
append-filled (u ∷ ts) t = refl

AreSections-last :
    (ss : List TaskSection) (s : TaskSection) (t : Task)
    → IsTask t
    → AreSections (ss ++ s ∷ [])
    → AreSections (ss ++ record s { tasks = s.tasks ++ t ∷ [] } ∷ [])
AreSections-last [] s t h (k, filled, _) = (
  record { name = k.name; tasks = All-append IsTask s.tasks (t ∷ []) k.tasks (h, tt) },
  (λ e. append-filled s.tasks t),
  tt,
)
AreSections-last (x ∷ ss) s t h (k, filled, ks) = (k, filled, All-last ss s t h ks)

take-IsReading :
    (name : Text) (ss : List TaskSection) (cur : Option TaskSection) (t : Task)
    → IsTask t
    → IsReading (at name ss cur)
    → IsReading (at name ss (some (with_task cur t)))
unfolding trim_space
take-IsReading name ss (some s) t h r = record {
  title = r.title;
  sections = AreSections-last ss s t h r.sections;
  implicit = λ e. cc e;
}
take-IsReading name ss none t h r = record {
  title = r.title;
  sections =
      subst (λ x. AreSections (x ++ record { name = []; tasks = t ∷ [] } ∷ []))
        (sym (r.implicit refl)) (record { name = (refl, tt); tasks = (h, tt) }, (λ e. refl), tt);
  implicit = λ e. cc e;
}

step-IsReading :
    (r : Reading) (l : Line) → IsValid l → has_name l ≡ true → IsReading r → IsReading (step r l)
unfolding step trim_space
step-IsReading r (section []) v named h = cc
step-IsReading r (section (c ∷ cs)) v named h = record {
  title = h.title;
  sections =
      AreSections-append (flushed r.sections r.cur) (record { name = c ∷ cs; tasks = [] })
        h.sections (record { name = v; tasks = tt }, refl);
  implicit = λ e. cc e;
}
step-IsReading r (title t) v named h = record {
  title = v;
  sections = h.sections;
  implicit = h.implicit;
}
step-IsReading r blank v named h = h
step-IsReading r (prose t) v named h = elim (Option-cases (parse_task_bullet t)) [
  | inl e ↦ rw e h
  | inr (task, e) ↦
      rw e (take-IsReading r.title r.sections r.cur task (parse_task_bullet-IsTask t v e) h)
]

read_lines-IsReading :
    (r : Reading) (raws : List Text)
    → All (Lacks 10) raws
    → All (λ raw. is_named raw ≡ true) raws
    → IsReading r
    → IsReading (read_lines r raws)
unfolding read_lines
read_lines-IsReading r [] ls ms h = h
read_lines-IsReading r (raw ∷ raws) (l, ls) (m, ms) h =
    read_lines-IsReading (step r (read_line raw)) raws ls ms
      (step-IsReading r (read_line raw) (read_line-IsValid raw l) m h)

-- Of a text in which no heading of the second level lacks a name, what ParseTasks reads is what it
-- reads again of what RenderTasks writes of it.
pub parse_tasks_stable :
    (md : Text)
    → all is_named (split 10 md) ≡ true
    → parse_tasks (render_tasks (parse_tasks md)) ≡ parse_tasks md
unfolding parse_tasks trim_space
parse_tasks_stable md h =
    let read =
      read_lines-IsReading start (split 10 md) (split-All-Lacks md)
        (all-All is_named (split 10 md) h)
        (record { title = (refl, tt); sections = tt; implicit = λ e. refl }) in
    parse_tasks-render_tasks (tasks_of (read_lines start (split 10 md))) read.title read.sections
