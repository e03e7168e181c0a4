-- ===== src/Standards/Inert.antt =====
-- The text that the shell scanner passes over, as a grammar, and what it makes of it: the rules of
-- the comment above `shellScan` in internal/standards/gates.go.
use semdev.Base.{
  ℕ, suc, ◌≡◌, refl, ◌∙◌, Bool, true, false, not, ◌||◌, [], ◌∷◌, ◌++◌, some, none, append_assoc,
  append-nil, arith, ◌==◌, Text,
}
use semdev.Standards.Scan.{
  Shell, peek, Separator, semicolon, or_else, pipe, background, separator_from, top_level_separator,
}

-- Bytes that mean nothing to the scanner.
abbrev pub is_plain : ℕ → Bool
is_plain c = not (
    c == b'\\'
    || c == b'\''
    || c == b'"'
    || c == b'`'
    || c == b'$'
    || c == b';'
    || c == b'|'
    || c == b'&'
    || c == b')')

abbrev pub is_operator : ℕ → Bool
is_operator c = c == b';' || c == b'|' || c == b'&'

-- The inside of double quotes or backticks: any bytes but the closing one, with escapes.
pub data Until (close : ℕ) : Text → Type 0 where
  nil : Until close []
  plain :
      {c : ℕ} {t : Text} → (c == close || c == b'\\') ≡ false → Until close t → Until close (c ∷ t)
  escaped : (d : ℕ) {t : Text} → Until close t → Until close (b'\\' ∷ d ∷ t)

-- The inside of single quotes.
pub data Literal : Text → Type 0 where
  nil : Literal []
  plain : {c : ℕ} {t : Text} → (c == b'\'') ≡ false → Literal t → Literal (c ∷ t)

-- Text with no separator at its own level, inside `depth` open substitutions; every quote,
-- backtick and `$( )` that it opens it closes.
pub data Inert : ℕ → Text → Type 0 where
  nil : {n : ℕ} → Inert n []
  plain : {n c : ℕ} {t : Text} → is_plain c ≡ true → Inert n t → Inert n (c ∷ t)
  escaped : {n : ℕ} (d : ℕ) {t : Text} → Inert n t → Inert n (b'\\' ∷ d ∷ t)
  dollar : {n c : ℕ} {t : Text} → (c == b'(') ≡ false → Inert n (c ∷ t) → Inert n (b'$' ∷ c ∷ t)
  and_then : {n : ℕ} {t : Text} → Inert n t → Inert n (b'&' ∷ b'&' ∷ t)
  single :
      {n : ℕ} {body t : Text} → Literal body → Inert n t → Inert n (b'\'' ∷ (body ++ (b'\'' ∷ t)))
  double :
      {n : ℕ} {body t : Text} → Until b'"' body → Inert n t → Inert n (b'"' ∷ (body ++ (b'"' ∷ t)))
  ticked :
      {n : ℕ} {body t : Text} → Until b'`' body → Inert n t → Inert n (b'`' ∷ (body ++ (b'`' ∷ t)))
  substitution :
      {n : ℕ} {body t : Text}
      → Inert (suc n) body
      → Inert n t
      → Inert n (b'$' ∷ b'(' ∷ (body ++ (b')' ∷ t)))
  operator : {n c : ℕ} {t : Text} → is_operator c ≡ true → Inert (suc n) t → Inert (suc n) (c ∷ t)

abbrev level : ℕ → Shell
level n = record { quote = 0; depth = n; tick = false }

abbrev quoted : ℕ → ℕ → Shell
quoted q n = record { quote = q; depth = n; tick = false }

abbrev in_ticks : ℕ → Shell
in_ticks n = record { quote = 0; depth = n; tick = true }

scan-plain :
    (n c : ℕ) (rest : Text)
    → is_plain c ≡ true
    → separator_from (level n) false (c ∷ rest) ≡ separator_from (level n) false rest
unfolding separator_from
scan-plain n c rest h = ground arith

scan-operator :
    (n c : ℕ) (rest : Text)
    → is_operator c ≡ true
    → separator_from (level (suc n)) false (c ∷ rest) ≡ separator_from (level (suc n)) false rest
unfolding separator_from
scan-operator n c rest h = ground arith

scan-escaped :
    (s : Shell) (d : ℕ) (rest : Text)
    → (s.quote == b'\'') ≡ false
    → separator_from s false (b'\\' ∷ d ∷ rest) ≡ separator_from s false rest
unfolding separator_from
scan-escaped s d rest h = ground arith

scan-and_then :
    (n : ℕ) (rest : Text)
    → separator_from (level n) false (b'&' ∷ b'&' ∷ rest) ≡ separator_from (level n) false rest
unfolding separator_from
scan-and_then n rest = ground arith

scan-dollar :
    (n c : ℕ) (rest : Text)
    → (c == b'(') ≡ false
    → separator_from (level n) false (b'$' ∷ c ∷ rest) ≡ separator_from (level n) false (c ∷ rest)
unfolding separator_from
scan-dollar n c rest h = ground arith

scan-single :
    (n : ℕ) {body : Text} (rest : Text)
    → Literal body
    → separator_from (quoted b'\'' n) false (body ++ (b'\'' ∷ rest))
      ≡ separator_from (level n) false rest
unfolding separator_from
scan-single n rest Literal.nil = ground arith
scan-single n rest (Literal.plain h t) = ground (arith, scan-single n rest t)

scan-double :
    (n : ℕ) {body : Text} (rest : Text)
    → Until b'"' body
    → separator_from (quoted b'"' n) false (body ++ (b'"' ∷ rest))
      ≡ separator_from (level n) false rest
unfolding separator_from
scan-double n rest Until.nil = ground arith
scan-double n rest (Until.plain h t) = ground (arith, scan-double n rest t)
scan-double n rest (Until.escaped d t) = ground (arith, scan-double n rest t)

scan-ticked :
    (n : ℕ) {body : Text} (rest : Text)
    → Until b'`' body
    → separator_from (in_ticks n) false (body ++ (b'`' ∷ rest))
      ≡ separator_from (level n) false rest
unfolding separator_from
scan-ticked n rest Until.nil = ground arith
scan-ticked n rest (Until.plain h t) = ground (arith, scan-ticked n rest t)
scan-ticked n rest (Until.escaped d t) = ground (arith, scan-ticked n rest t)

scan_open :
    (n c : ℕ) (rest : Text)
    → (c == b'\'' || c == b'"') ≡ true
    → separator_from (level n) false (c ∷ rest) ≡ separator_from (quoted c n) false rest
unfolding separator_from
scan_open n c rest h = ground arith

scan_open_ticks :
    (n : ℕ) (rest : Text)
    → separator_from (level n) false (b'`' ∷ rest) ≡ separator_from (in_ticks n) false rest
unfolding separator_from
scan_open_ticks n rest = ground arith

scan_open_substitution :
    (n : ℕ) (rest : Text)
    → separator_from (level n) false (b'$' ∷ b'(' ∷ rest)
      ≡ separator_from (level (suc n)) false rest
unfolding separator_from
scan_open_substitution n rest = ground arith

scan_close_substitution :
    (n : ℕ) (rest : Text)
    → separator_from (level (suc n)) false (b')' ∷ rest) ≡ separator_from (level n) false rest
unfolding separator_from
scan_close_substitution n rest = ground arith

-- The scanner passes over inert text and is then where it was.
pub scan-Inert :
    {n : ℕ} {t : Text} (rest : Text)
    → Inert n t
    → separator_from (level n) false (t ++ rest) ≡ separator_from (level n) false rest
scan-Inert rest Inert.nil = refl
scan-Inert rest (Inert.plain h t) = scan-plain _ _ _ h ∙ scan-Inert rest t
scan-Inert rest (Inert.escaped d t) = scan-escaped _ d _ refl ∙ scan-Inert rest t
scan-Inert rest (Inert.dollar h t) = scan-dollar _ _ _ h ∙ scan-Inert rest t
scan-Inert rest (Inert.and_then t) = scan-and_then _ _ ∙ scan-Inert rest t
scan-Inert rest (Inert.operator h t) = scan-operator _ _ _ h ∙ scan-Inert rest t
scan-Inert rest (Inert.single {n} {body} {t = u} b t) =
    rw (append_assoc body (b'\'' ∷ u) rest)
      (scan_open n b'\'' _ refl ∙ scan-single n (u ++ rest) b ∙ scan-Inert rest t)
scan-Inert rest (Inert.double {n} {body} {t = u} b t) =
    rw (append_assoc body (b'"' ∷ u) rest)
      (scan_open n b'"' _ refl ∙ scan-double n (u ++ rest) b ∙ scan-Inert rest t)
scan-Inert rest (Inert.ticked {n} {body} {t = u} b t) =
    rw (append_assoc body (b'`' ∷ u) rest)
      (scan_open_ticks n _ ∙ scan-ticked n (u ++ rest) b ∙ scan-Inert rest t)
scan-Inert rest (Inert.substitution {n} {body} {t = u} b t) =
    rw (append_assoc body (b')' ∷ u) rest) (
      scan_open_substitution n _
      ∙ scan-Inert (b')' ∷ (u ++ rest)) b
      ∙ scan_close_substitution n _
      ∙ scan-Inert rest t)

-- Text that begins with a separator, and which one the code reports.
pub data Operator : Text → Separator → Type 0 where
  at_semicolon : (rest : Text) → Operator (b';' ∷ rest) semicolon
  at_or_else : (rest : Text) → Operator (b'|' ∷ b'|' ∷ rest) or_else
  at_pipe : (rest : Text) → (peek rest == b'|') ≡ false → Operator (b'|' ∷ rest) pipe
  at_background : (rest : Text) → (peek rest == b'&') ≡ false → Operator (b'&' ∷ rest) background

scan-Operator :
    {u : Text} {sep : Separator} → Operator u sep → separator_from (level 0) false u ≡ some sep
unfolding separator_from
scan-Operator (at_semicolon rest) = ground arith
scan-Operator (at_or_else rest) = ground arith
scan-Operator (at_pipe rest h) = ground arith
scan-Operator (at_background rest h) = ground arith

-- A command of inert text, with every separator inside closed quotes or substitutions, has no
-- top-level separator.
pub top_level_separator-Inert : {t : Text} → Inert 0 t → top_level_separator t ≡ none
unfolding top_level_separator
top_level_separator-Inert {t} h = rw (← append-nil t) (scan-Inert [] h)

-- The first separator behind text that is inert, its quotes and substitutions closed, is found,
-- whatever follows it.
pub top_level_separator-Operator :
    {t u : Text} {sep : Separator}
    → Inert 0 t
    → Operator u sep
    → top_level_separator (t ++ u) ≡ some sep
unfolding top_level_separator
top_level_separator-Operator h o = scan-Inert _ h ∙ scan-Operator o

scan-Literal : (n : ℕ) {q : Text} → Literal q → separator_from (quoted b'\'' n) false q ≡ none
unfolding separator_from
scan-Literal n Literal.nil = refl
scan-Literal n (Literal.plain h t) = ground (arith, scan-Literal n t)
