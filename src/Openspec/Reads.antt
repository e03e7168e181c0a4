-- ===== src/Openspec/Reads.antt =====
-- How the lines that internal/openspec/render.go writes are read on, one by one, and those of a body.
use semdev.Base.{
  ◌≡◌, refl, ap, ◌∙◌, true, List, [], ◌∷◌, ◌++◌, Text, split, trim_space, All, Lacks, Lacks-append,
  lacks, lacks-Lacks,
}
use semdev.Openspec.Lines.{read_line}
use semdev.Openspec.Spec.{Reading, prose_text, step, read_lines, put_line, put_body}
use semdev.Openspec.Trimmed.{split-put_line, split-Lacks, join-split}
use semdev.Openspec.Canonical.{IsProse, IsBody}

-- The reading of a text from a state on.
abbrev pub run : Reading → Text → Reading
run s t = read_lines s (split 10 t)

read_lines-append :
    (s : Reading) (ls ms : List Text) → read_lines s (ls ++ ms) ≡ read_lines (read_lines s ls) ms
unfolding read_lines
read_lines-append s [] ms = refl
read_lines-append s (l ∷ ls) ms = read_lines-append (step s (read_line l)) ls ms

pub run-put_line : (s : Reading) (l rest : Text) → run s (put_line l rest) ≡ run (run s l) rest
run-put_line s l rest =
    ap (read_lines s) (split-put_line l rest) ∙ read_lines-append s (split 10 l) (split 10 rest)

run-line :
    (s : Reading) (l rest : Text)
    → Lacks 10 l
    → run s (put_line l rest) ≡ run (step s (read_line l)) rest
unfolding read_lines
run-line s l rest h =
    run-put_line s l rest ∙ ap (λ ls. run (read_lines s ls) rest) (split-Lacks l h)

pub run-prefixed :
    (s : Reading) (p l rest : Text)
    → lacks 10 p ≡ true
    → Lacks 10 l
    → run s (put_line (p ++ l) rest) ≡ run (step s (read_line (p ++ l))) rest
run-prefixed s p l rest h k = run-line s (p ++ l) rest (Lacks-append 10 p l (lacks-Lacks 10 p h) k)

pub run-blank : (s : Reading) (rest : Text) → run s (put_line [] rest) ≡ run s rest
unfolding read_lines step
run-blank s rest = run-line s [] rest tt

-- The lines of a body.
abbrev pub body_lines : Text → List Text
body_lines [] = []
body_lines (c ∷ cs) = split 10 (c ∷ cs)

pub All-body_lines : (t : Text) → IsBody t → All IsProse (body_lines t)
All-body_lines [] h = tt
All-body_lines (c ∷ cs) h = h.1

pub run-put_body :
    (s : Reading) (t rest : Text) → run s (put_body t rest) ≡ run (read_lines s (body_lines t)) rest
unfolding read_lines
run-put_body s [] rest = refl
run-put_body s (c ∷ cs) rest = run-put_line s (c ∷ cs) rest

pub prose_text-body_lines : (t : Text) → IsBody t → prose_text (body_lines t) ≡ t
unfolding prose_text
prose_text-body_lines [] h = refl
prose_text-body_lines (c ∷ cs) h = ap trim_space (join-split (c ∷ cs)) ∙ h.0
