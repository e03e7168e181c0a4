-- ===== src/Openspec/TasksRoundTrip.antt =====
-- Rendered tasks are parsed as they were: `RenderTasks` and `ParseTasks` of internal/openspec.
use semdev.Base.{
  ◌≡◌, refl, sym, ap, ◌∙◌, Bool, true, false, List, [], ◌∷◌, ◌++◌, Option, some, none, append-nil,
  append_assoc, Text, codes, is_empty, if◌then◌else◌, All, split, trim_space, Lacks, Lacks-append,
  lacks, lacks-Lacks,
}
use semdev.Openspec.Model.{Task, TaskSection, Tasks}
use semdev.Openspec.Spec.{put_line}
use semdev.Openspec.Tasks.{
  section, line_of, read_line, task_of, parse_task_bullet, Reading, flushed, with_task, take_task,
  step, read_lines, start, tasks_of, parse_tasks, task_content, box, spaced, render_task_list,
  heading, render_sections, render_tasks,
}
use semdev.Openspec.Trimmed.{IsTrimmed, trim_end-prefix, split-put_line, split-Lacks}
use semdev.Openspec.Canonical.{IsName}
use semdev.Openspec.TaskLines.{IsTask, read_line-box, parse_task_bullet-box}

pub record IsSection (s : TaskSection) : Type 0 where
  pub name : IsName s.name
  pub tasks : All IsTask s.tasks

abbrev pub IsNamed : TaskSection → Type 0
IsNamed s = IsSection s × (is_empty s.name ≡ false)

-- The first section may have no name, but then it has a task.
abbrev pub AreSections : List TaskSection → Type 0
AreSections [] = Unit
AreSections (s ∷ ss) =
    IsSection s × (is_empty s.name ≡ true → is_empty s.tasks ≡ false) × All IsNamed ss

abbrev run : Reading → Text → Reading
run r t = read_lines r (split 10 t)

read_lines-append :
    (r : Reading) (ls ms : List Text) → read_lines r (ls ++ ms) ≡ read_lines (read_lines r ls) ms
unfolding read_lines
read_lines-append r [] ms = refl
read_lines-append r (l ∷ ls) ms = read_lines-append (step r (read_line l)) ls ms

run-line :
    (r : Reading) (p l rest : Text)
    → lacks 10 p ≡ true
    → Lacks 10 l
    → run r (put_line (p ++ l) rest) ≡ run (step r (read_line (p ++ l))) rest
unfolding read_lines
run-line r p l rest h k =
    ap (read_lines r) (split-put_line (p ++ l) rest)
    ∙ read_lines-append r (split 10 (p ++ l)) (split 10 rest)
    ∙ ap (λ ls. run (read_lines r ls) rest)
        (split-Lacks (p ++ l) (Lacks-append 10 p l (lacks-Lacks 10 p h) k))

spaced-Lacks : (c : Text) → Lacks 10 c → Lacks 10 (spaced c)
spaced-Lacks [] h = tt
spaced-Lacks (d ∷ r) h = (refl, h)

run-task :
    (r : Reading) (t : Task) (rest : Text)
    → IsTask t
    → run r (put_line (box t.done ++ spaced (task_content t)) rest)
      ≡ run (record r { cur = some (with_task r.cur t) }) rest
unfolding step
run-task r t rest h =
    run-line r (box t.done) (spaced (task_content t)) rest (one_line t.done)
      (spaced-Lacks (task_content t) h.name.1)
    ∙ ap (λ l. run (step r l) rest) (read_line-box t.done (task_content t) h.name.0)
    ∙ ap (λ o. run (take_task o r) rest) (parse_task_bullet-box t.done (task_content t) h.name.0)
    ∙ ap (λ x. run (take_task (some (task_of t.done x)) r) rest) h.reads
  where
    one_line : (done : Bool) → lacks 10 (box done) ≡ true
    one_line true = refl
    one_line false = refl

module _ (name : Text) where
  abbrev pub at : List TaskSection → Option TaskSection → Reading
  at ss cur = record { title = name; sections = ss; cur = cur }

  run-tasks :
      (ss : List TaskSection) (s : TaskSection) (ts : List Task) (rest : Text)
      → All IsTask ts
      → run (at ss (some s)) (render_task_list ts rest)
        ≡ run (at ss (some (record s { tasks = s.tasks ++ ts }))) rest
  unfolding render_task_list
  run-tasks ss s [] rest h =
      ap (λ x. run (at ss (some (record s { tasks = x }))) rest) (sym (append-nil s.tasks))
  run-tasks ss s (t ∷ ts) rest (h, hs) =
      run-task (at ss (some s)) t (render_task_list ts rest) h
      ∙ run-tasks ss (record s { tasks = s.tasks ++ t ∷ [] }) ts rest hs
      ∙ ap (λ x. run (at ss (some (record s { tasks = x }))) rest)
          (append_assoc s.tasks (t ∷ []) ts)

  read_line-section :
      (n : Text) → is_empty n ≡ false → IsTrimmed n → read_line (codes "## " ++ n) ≡ section n
  unfolding read_line trim_space
  read_line-section [] filled h = cc
  read_line-section (d ∷ r) filled h =
      ap line_of (trim_end-prefix (codes "## ") d r h) ∙ ap section h

  run-heading :
      (ss : List TaskSection) (cur : Option TaskSection) (s : TaskSection) (rest : Text)
      → IsNamed s
      → run (at ss cur) (heading s.name rest)
        ≡ run (at (flushed ss cur) (some (record { name = s.name; tasks = [] }))) rest
  unfolding step read_line trim_space
  run-heading ss cur s rest (h, named) =
      ap
        (λ b.
          run (at ss cur) (if b then rest else put_line [] (put_line (codes "## " ++ s.name) rest)))
        named
      ∙ run-line (at ss cur) [] [] (put_line (codes "## " ++ s.name) rest) refl tt
      ∙ run-line (at ss cur) (codes "## ") s.name rest refl h.name.1
      ∙ ap (λ l. run (step (at ss cur) l) rest) (read_line-section s.name named h.name.0)

  run-named :
      (ss : List TaskSection) (cur : Option TaskSection) (secs : List TaskSection)
      → All IsNamed secs
      → tasks_of (run (at ss cur) (render_sections secs []))
        ≡ record { title = name; sections = flushed ss cur ++ secs }
  unfolding render_sections read_lines step read_line split trim_space
  run-named ss cur [] h =
      ap (λ x. record { title = name; sections = x }) (sym (append-nil (flushed ss cur)))
  run-named ss cur (s ∷ secs) (h, hs) =
      ap tasks_of (
        run-heading ss cur s (render_task_list s.tasks (render_sections secs [])) h
        ∙ run-tasks (flushed ss cur) (record { name = s.name; tasks = [] }) s.tasks
            (render_sections secs []) h.0.tasks)
      ∙ run-named (flushed ss cur) (some s) secs hs
      ∙ ap (λ x. record { title = name; sections = x })
          (append_assoc (flushed ss cur) (s ∷ []) secs)

  run-first :
      (n : Text) (ts : List Task) (secs : List TaskSection)
      → AreSections (record { name = n; tasks = ts } ∷ secs)
      → tasks_of (run (at [] none) (render_sections (record { name = n; tasks = ts } ∷ secs) []))
        ≡ record { title = name; sections = record { name = n; tasks = ts } ∷ secs }
  unfolding render_sections render_task_list
  run-first (c ∷ cs) ts secs (h, filled, hs) =
      run-named [] none (record { name = c ∷ cs; tasks = ts } ∷ secs) ((h, refl), hs)
  run-first [] [] secs (h, filled, hs) = cc (filled refl)
  run-first [] (t ∷ ts) secs (h, filled, hs) =
      ap tasks_of (
        run-task (at [] none) t (render_task_list ts (render_sections secs [])) h.tasks.0
        ∙ run-tasks [] (record { name = []; tasks = t ∷ [] }) ts (render_sections secs [])
            h.tasks.1)
      ∙ run-named [] (some (record { name = []; tasks = t ∷ ts })) secs hs

  run-sections :
      (secs : List TaskSection)
      → AreSections secs
      → tasks_of (run (at [] none) (render_sections secs []))
        ≡ record { title = name; sections = secs }
  run-sections [] h = run-named [] none [] tt
  run-sections (s ∷ secs) h = run-first s.name s.tasks secs h

step-title : (n : Text) → IsTrimmed n → step start (read_line (codes "# " ++ n)) ≡ at n [] none
unfolding step read_line trim_space parse_task_bullet
step-title [] h = refl
step-title (d ∷ r) h =
    ap (λ l. step start (line_of l)) (trim_end-prefix (codes "# ") d r h) ∙ ap (λ t. at t [] none) h

pub parse_tasks-render_tasks :
    (t : Tasks) → IsName t.title → AreSections t.sections → parse_tasks (render_tasks t) ≡ t
unfolding parse_tasks render_tasks
parse_tasks-render_tasks t h secs =
    ap tasks_of (
      run-line start (codes "# ") t.title (render_sections t.sections []) refl h.1
      ∙ ap (λ r. run r (render_sections t.sections [])) (step-title t.title h.0))
    ∙ run-sections t.title t.sections secs
