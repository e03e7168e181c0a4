-- ===== src/Openspec/Tasks.antt =====
-- `ParseTasks` of internal/openspec/parse.go and `RenderTasks` of internal/openspec/render.go.
use semdev.Base.{
  ℕ, Bool, true, false, ◌&&◌, ◌||◌, List, [], ◌∷◌, ◌++◌, Option, none, some, if◌then◌else◌, leb,
  ◌==◌, all, any, Text, codes, is_empty, trim_space, split,
}
use semdev.Admission.Refs.{cut_first}
use semdev.Openspec.Model.{Task, TaskSection, Tasks}
use semdev.Openspec.Lines.{bullet_body, cut_prefix, trim_end}
use semdev.Openspec.Spec.{put_line}

-- A line of a document whose headings are of the first two levels.
pub data Line : Type 0 where
  section : Text → Line
  title : Text → Line
  blank : Line
  prose : Text → Line

abbrev pub prose_or_blank : Text → Line
prose_or_blank [] = blank
prose_or_blank (c ∷ cs) = prose (c ∷ cs)

abbrev pub or_else : (Text → Line) → Option Text → Line → Line
or_else heading none other = other
or_else heading (some rest) other = heading (trim_space rest)

unfoldable pub line_of : Text → Line
unfolding cut_prefix
line_of line =
    or_else section (cut_prefix line (codes "## "))
      (or_else title (cut_prefix line (codes "# ")) (prose_or_blank (trim_space line)))

unfoldable pub read_line : Text → Line
unfolding line_of trim_end
read_line raw = line_of (trim_end raw)

abbrev pub is_number_rune : ℕ → Bool
is_number_rune c = (leb b'0' c && leb c b'9') || c == b'.'

-- `isTaskNumber`
unfoldable pub is_task_number : Text → Bool
is_task_number s = all is_number_rune s && any (λ c. leb b'0' c && leb c b'9') s

abbrev pub whole_number : Text → Text × Text
whole_number s = if is_task_number s then (s, []) else ([], s)

abbrev pub number_in_front : Text → Option (Text × Text) → Text × Text
number_in_front s none = whole_number s
number_in_front s (some (head, rest)) =
    if is_task_number head then (head, trim_space rest) else whole_number s

-- `splitTaskNumber`
unfoldable pub split_task_number : Text → Text × Text
unfolding is_task_number cut_first
split_task_number s = number_in_front s (cut_first 32 s)

abbrev pub task_of : Bool → Text × Text → Task
task_of done (number, text) = record { number = number; text = text; done = done }

-- The task of a bullet's text, behind its checkbox.
unfoldable pub task_in : Text → Task
unfolding split_task_number cut_prefix
task_in body = elim (cut_prefix body (codes "[x]")) [
  | some rest ↦ task_of true (split_task_number (trim_space rest))
  | none ↦ elim (cut_prefix body (codes "[X]")) [
    | some rest ↦ task_of true (split_task_number (trim_space rest))
    | none ↦ elim (cut_prefix body (codes "[ ]")) [
      | some rest ↦ task_of false (split_task_number (trim_space rest))
      | none ↦ task_of false (split_task_number body)
    ]
  ]
]

abbrev pub task_if : Option Text → Option Task
task_if none = none
task_if (some body) = some (task_in body)

-- `parseTaskBullet`
unfoldable pub parse_task_bullet : Text → Option Task
unfolding task_in bullet_body
parse_task_bullet trimmed = task_if (bullet_body trimmed)

pub record Reading : Type 0 where
  pub title : Text
  pub sections : List TaskSection
  pub cur : Option TaskSection

-- `flushSection`, on the sections.
abbrev pub flushed : List TaskSection → Option TaskSection → List TaskSection
flushed ss none = ss
flushed ss (some s) = ss ++ s ∷ []

abbrev pub with_task : Option TaskSection → Task → TaskSection
with_task none t = record { name = []; tasks = t ∷ [] }
with_task (some s) t = record s { tasks = s.tasks ++ t ∷ [] }

abbrev pub take_task : Option Task → Reading → Reading
take_task none r = r
take_task (some t) r = record r { cur = some (with_task r.cur t) }

unfoldable pub step : Reading → Line → Reading
unfolding parse_task_bullet
step r (section name) = record r {
  sections = flushed r.sections r.cur;
  cur = some (record { name = name; tasks = [] });
}
step r (title t) = record r { title = t }
step r blank = r
step r (prose t) = take_task (parse_task_bullet t) r

unfoldable pub read_lines : Reading → List Text → Reading
unfolding step read_line
read_lines r [] = r
read_lines r (raw ∷ raws) = read_lines (step r (read_line raw)) raws

abbrev pub start : Reading
start = record { title = []; sections = []; cur = none }

abbrev pub tasks_of : Reading → Tasks
tasks_of r = record { title = r.title; sections = flushed r.sections r.cur }

-- `ParseTasks`
unfoldable pub parse_tasks : Text → Tasks
unfolding read_lines split
parse_tasks md = tasks_of (read_lines start (split 10 md))

-- `taskContent`
unfoldable pub task_content : Task → Text
task_content t =
    if is_empty t.number
    then t.text
    else if is_empty t.text
    then t.number
    else t.number ++ (32 ∷ t.text)

abbrev pub box : Bool → Text
box true = codes "- [x]"
box false = codes "- [ ]"

abbrev pub spaced : Text → Text
spaced [] = []
spaced (c ∷ cs) = 32 ∷ c ∷ cs

unfoldable pub render_task_list : List Task → Text → Text
unfolding task_content
render_task_list [] rest = rest
render_task_list (t ∷ ts) rest =
    put_line (box t.done ++ spaced (task_content t)) (render_task_list ts rest)

abbrev pub heading : Text → Text → Text
heading name rest =
    if is_empty name then rest else put_line [] (put_line (codes "## " ++ name) rest)

unfoldable pub render_sections : List TaskSection → Text → Text
unfolding render_task_list
render_sections [] rest = rest
render_sections (s ∷ ss) rest = heading s.name (render_task_list s.tasks (render_sections ss rest))

-- `RenderTasks`
unfoldable pub render_tasks : Tasks → Text
unfolding render_sections
render_tasks t = put_line (codes "# " ++ t.title) (render_sections t.sections [])
