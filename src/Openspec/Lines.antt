-- ===== src/Openspec/Lines.antt =====
-- The lines that the parsers of internal/openspec/parse.go tell apart, and the bullets of a scenario.
use semdev.Base.{
  ℕ, ◌+◌, Bool, ◌&&◌, ◌||◌, List, [], ◌∷◌, map, Option, none, some, if◌then◌else◌, leb, ◌==◌, Text,
  codes, has, trim_space, upper,
}
use semdev.Openspec.Model.{Step}

-- A byte of the set that the parsers trim from the end of a line.
unfoldable pub in_cutset : ℕ → Bool
in_cutset c = c == 32 || c == 9 || c == 13

abbrev pub put_unless_cut : ℕ → Text → Text
put_unless_cut c [] = if in_cutset c then [] else c ∷ []
put_unless_cut c (d ∷ r) = c ∷ d ∷ r

-- `strings.TrimRight(raw, " \t\r")`
unfoldable pub trim_end : Text → Text
unfolding in_cutset
trim_end [] = []
trim_end (c ∷ cs) = put_unless_cut c (trim_end cs)

-- `strings.CutPrefix`: what follows the prefix.
unfoldable pub cut_prefix : Text → Text → Option Text
cut_prefix s [] = some s
cut_prefix [] (p ∷ ps) = none
cut_prefix (c ∷ cs) (p ∷ ps) = if c == p then cut_prefix cs ps else none

-- `unicode.ToLower` where the result is ASCII; any other code point is left as it is, which no
-- comparison with an ASCII word can tell.
abbrev pub lower : ℕ → ℕ
lower c =
    if leb b'A' c && leb c b'Z'
    then c + 32
    else if c == 0x130
    then b'i'
    else if c == 0x212a
    then b'k'
    else c

-- `unicode.ToUpper`, likewise.
abbrev pub to_upper_rune : ℕ → ℕ
to_upper_rune c = if c == 0x131 then b'I' else if c == 0x17f then b'S' else upper c

abbrev pub to_lower : Text → Text
to_lower = map lower

abbrev pub to_upper : Text → Text
to_upper = map to_upper_rune

-- `bulletBody`
unfoldable pub bullet_body : Text → Option Text
unfolding cut_prefix
bullet_body trimmed = elim (cut_prefix trimmed (codes "- ")) [
  | some rest ↦ some (trim_space rest)
  | none ↦ elim (cut_prefix trimmed (codes "* ")) [
    | some rest ↦ some (trim_space rest)
    | none ↦ elim (cut_prefix trimmed (codes "+ ")) [
      | some rest ↦ some (trim_space rest)
      | none ↦ none
    ]
  ]
]

-- `scenarioStepKeywords`
abbrev pub scenario_step_keywords : List Text
scenario_step_keywords = codes "GIVEN" ∷ codes "WHEN" ∷ codes "THEN" ∷ codes "AND" ∷ []

abbrev pub put_head : ℕ → Text × Text → Text × Text
put_head c (head, rest) = (c ∷ head, rest)

-- `strings.Cut(s, " ")`, with nothing behind where no space is found.
unfoldable pub cut_space : Text → Text × Text
cut_space [] = ([], [])
cut_space (c ∷ cs) = if c == 32 then ([], cs) else put_head c (cut_space cs)

abbrev pub step_of : Text → Text × Text → Step
step_of bullet (head, rest) =
    if has scenario_step_keywords (to_upper head)
    then record { keyword = to_upper head; text = trim_space rest }
    else record { keyword = []; text = bullet }

-- `parseStep`
unfoldable pub parse_step : Text → Step
unfolding cut_space has
parse_step bullet = let trimmed = trim_space bullet in step_of trimmed (cut_space trimmed)

-- A line of a capability spec or a delta: a heading with its text, a blank line, or prose.
pub data Line : Type 0 where
  scenario : Text → Line
  requirement : Text → Line
  section : Text → Line
  title : Text → Line
  blank : Line
  prose : Text → Line

abbrev pub prose_or_blank : Text → Line
prose_or_blank [] = blank
prose_or_blank (c ∷ cs) = prose (c ∷ cs)

abbrev pub or_else : (Text → Line) → Option Text → Line → Line
or_else heading none other = other
or_else heading (some rest) other = heading (trim_space rest)

-- The cases of the switch on a line that is cut at its end.
unfoldable pub line_of : Text → Line
unfolding cut_prefix
line_of line = or_else scenario (cut_prefix line (codes "#### Scenario:")) (
    or_else requirement (cut_prefix line (codes "### Requirement:")) (
      or_else section (cut_prefix line (codes "## "))
        (or_else title (cut_prefix line (codes "# ")) (prose_or_blank (trim_space line)))))

unfoldable pub read_line : Text → Line
unfolding trim_end line_of
read_line raw = line_of (trim_end raw)
