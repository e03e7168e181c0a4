-- ===== src/Standards/Gates.antt =====
-- Which declared commands can serve as a gate: internal/standards/gates.go. A rejection reason is a
-- constructor of `Defect` in place of its English sentence; a warning is the suppressor that it quotes.
use mathlib.Core.Option
use semdev.Base.{
  ℕ, Bool, true, false, not, ◌&&◌, ◌||◌, List, [], ◌∷◌, Option, none, some, ◌==◌, if◌then◌else◌,
  Text, codes, is_empty, same, has, trim_space, split, contains, fields,
}
use semdev.Standards.Scan.{Separator, top_level_separator, strip_comment}

abbrev pub vacuous_bases : List Text
vacuous_bases = codes "true" ∷ codes ":" ∷ codes "echo" ∷ codes "printf" ∷ []

abbrev pub always_fail_bases : List Text
always_fail_bases = codes "false" ∷ []

abbrev pub diagnostic_suppressors : List Text
diagnostic_suppressors =
    codes "2>/dev/null" ∷ codes "2> /dev/null" ∷ codes "2>&-" ∷ codes "2> &-" ∷ []

pub data Defect : Type 0 where
  no_command : Defect
  multiple_commands : Defect
  separated : Separator → Defect
  vacuous : Text → Defect
  exit_zero : Defect
  always_fails : Text → Defect
  exit_non_zero : Defect

-- The lines in the order of the loop: comments stripped, trimmed, blank ones dropped.
unfoldable pub effective_of : List Text → List Text
effective_of [] = []
effective_of (raw ∷ raws) =
    let line = trim_space (strip_comment raw) in
    if not (is_empty line) then line ∷ effective_of raws else effective_of raws

unfoldable pub effective_lines : Text → List Text
unfolding effective_of
effective_lines command = effective_of (split b'\n' command)

-- `word[:i]` at the first space or tab.
unfoldable pub first_word : Text → Text
first_word [] = []
first_word (c ∷ cs) = if (c == b' ') || (c == b'\t') then [] else c ∷ first_word cs

-- `strings.Trim` by double and single quotes, from the left and from the right.
unfoldable pub unquote_left : Text → Text
unquote_left [] = []
unquote_left (c ∷ cs) = if c == b'"' || c == b'\'' then unquote_left cs else c ∷ cs

abbrev put_unless_quote : ℕ → Text → Text
put_unless_quote c [] = if c == b'"' || c == b'\'' then [] else c ∷ []
put_unless_quote c (d ∷ r) = c ∷ d ∷ r

unfoldable pub unquote_right : Text → Text
unquote_right [] = []
unquote_right (c ∷ cs) = put_unless_quote c (unquote_right cs)

-- `word[i+1:]` at the last slash: `best` is what follows the last slash read so far.
unfoldable pub base_from : Text → Text → Text
base_from best [] = best
base_from best (c ∷ cs) = base_from (if c == b'/' then cs else best) cs

unfoldable pub first_word_base : Text → Text
unfolding first_word unquote_left unquote_right base_from
first_word_base command =
    let word = unquote_right (unquote_left (first_word command)) in base_from word word

abbrev is_exit : (Text → Bool) → List Text → Bool
is_exit status (word ∷ code ∷ []) = same word (codes "exit") && status code
is_exit status _ = false

unfoldable pub exits_zero : Text → Bool
exits_zero command = is_exit (λ code. same code (codes "0")) (fields command)

unfoldable pub exits_non_zero : Text → Bool
exits_non_zero command = is_exit (λ code. not (same code (codes "0"))) (fields command)

-- `effective[len(effective)-1]` of `first ∷ more`.
abbrev pub last_line : Text → List Text → Text
last_line first [] = first
last_line first (next ∷ more) = last_line next more

-- The first suppressor that the command contains.
unfoldable pub suppressor_in : List Text → Text → List Text
suppressor_in [] command = []
suppressor_in (s ∷ ss) command = if contains command s then s ∷ [] else suppressor_in ss command

-- The verdict on the last effective line, which sets the status.
unfoldable pub vacuity : Text → List Text → Option Defect × List Text
vacuity line warnings =
    let base = first_word_base line in
    if has vacuous_bases base
    then (some (vacuous base), warnings)
    else if exits_zero line
    then (some exit_zero, warnings)
    else (none, warnings)

unfoldable pub required_defect : Text → List Text → Option Defect
required_defect first (next ∷ more) = some multiple_commands
required_defect first [] = Option.map separated (top_level_separator first)

unfoldable pub judge_lines : Text → Bool → List Text → Option Defect × List Text
unfolding suppressor_in vacuity required_defect
judge_lines command required [] = (some no_command, [])
judge_lines command required (first ∷ more) =
    let warnings = suppressor_in diagnostic_suppressors command in
    elim (if required then required_defect first more else none) [
      | some defect ↦ (some defect, [])
      | none ↦ vacuity (last_line first more) warnings
    ]

unfoldable pub check_defect : Text → Bool → Option Defect × List Text
unfolding judge_lines
check_defect command required = judge_lines command required (effective_lines command)

unfoldable pub control_defect : Text → List Text → Option Defect × List Text
control_defect proof [] = (some no_command, [])
control_defect proof (first ∷ more) =
    let last = last_line first more in
    let base = first_word_base last in
    if has always_fail_bases base
    then (some (always_fails base), [])
    else if exits_non_zero last
    then (some exit_non_zero, [])
    else check_defect proof true

unfoldable pub proof_defect : Text → Option Defect × List Text
unfolding control_defect
proof_defect proof = control_defect proof (effective_lines proof)
