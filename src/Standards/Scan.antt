-- ===== src/Standards/Scan.antt =====
-- The shell scanner of internal/standards/gates.go: `shellScan`, `stripComment` and
-- `topLevelSeparator`. The cursor is the text from it on; `next` may take two bytes, so the loops
-- carry a flag that says that the byte at the cursor is taken already. All the bytes that the code
-- tests for are ASCII, so it is the same to walk bytes or code points.
use semdev.Base.{
  ℕ, ◌+◌, ◌-◌, Bool, true, false, not, ◌&&◌, ◌||◌, [], ◌∷◌, Option, none, some, ltb, ◌==◌,
  if◌then◌else◌, Text,
}

-- What `next` tracks: the open quote (0 if none), the depth of `$( )`, and whether backticks are open.
pub record Shell : Type 0 where
  pub quote : ℕ
  pub depth : ℕ
  pub tick : Bool

abbrev pub fresh : Shell
fresh = record { quote = 0; depth = 0; tick = false }

abbrev pub bare : Shell → Bool
bare s = (s.quote == 0) && (s.depth == 0) && not s.tick

abbrev pub peek : Text → ℕ
peek [] = 0
peek (c ∷ cs) = c

-- One call of `next` at the byte `c`, where `p` is the byte behind it: the state after it, and
-- whether `p` is taken too.
unfoldable pub turn : Shell → ℕ → ℕ → Shell × Bool
turn s c p =
    if c == b'\\' && not (s.quote == b'\'')
    then (s, true)
    else if not (s.quote == 0)
    then (if c == s.quote then record s { quote = 0 } else s, false)
    else if s.tick
    then (if c == b'`' then record s { tick = false } else s, false)
    else if c == b'\'' || c == b'"'
    then (record s { quote = c }, false)
    else if c == b'`'
    then (record s { tick = true }, false)
    else if c == b'$' && p == b'('
    then (record s { depth = s.depth + 1 }, true)
    else if ltb 0 s.depth && c == b')'
    then (record s { depth = s.depth - 1 }, false)
    else (s, false)

pub data Separator : Type 0 where
  semicolon or_else pipe background : Separator

-- What the loop of `topLevelSeparator` does at a byte: it returns, or goes on.
pub data Visit : Type 0 where
  found : Separator → Visit
  on : Shell → Bool → Visit

unfoldable pub visit : Shell × Bool → ℕ → ℕ → Visit
visit (s, taken) c p =
    if not (bare s)
    then on s taken
    else if c == b';'
    then found semicolon
    else if c == b'|'
    then (if p == b'|' then found or_else else found pipe)
    else if c == b'&'
    then (if p == b'&' then on s true else found background)
    else on s taken

unfoldable pub separator_from : Shell → Bool → Text → Option Separator
unfolding turn visit
separator_from s taken [] = none
separator_from s true (c ∷ cs) = separator_from s false cs
separator_from s false (c ∷ cs) = elim (visit (turn s c (peek cs)) c (peek cs)) [
  | found t ↦ some t
  | on s' taken' ↦ separator_from s' taken' cs
]

unfoldable pub top_level_separator : Text → Option Separator
unfolding separator_from
top_level_separator = separator_from fresh false

abbrev pub is_space_or_tab : ℕ → Bool
is_space_or_tab c = c == b' ' || c == b'\t'

-- `start` says that the cursor is at the line's start or behind a space or a tab.
unfoldable pub strip_from : Shell → Bool → Bool → Text → Text
unfolding turn
strip_from s start taken [] = []
strip_from s start true (c ∷ cs) = c ∷ strip_from s (is_space_or_tab c) false cs
strip_from s start false (c ∷ cs) =
    let (s', taken') = turn s c (peek cs) in
    elim (bare s' && c == b'#' && start) [
      | true ↦ []
      | false ↦ c ∷ strip_from s' (is_space_or_tab c) taken' cs
    ]

unfoldable pub strip_comment : Text → Text
unfolding strip_from
strip_comment = strip_from fresh true false
