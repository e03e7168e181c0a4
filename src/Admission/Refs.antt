-- ===== src/Admission/Refs.antt =====
-- The coordinate `owner/repo#number` of an issue: `SplitRef` of internal/intake/admission/refs.go, with
-- `strconv.Atoi` and the searches of Go's `strings` that it calls.
use semdev.Base.{
  ℕ, ◌+◌, ◌-◌, ◌*◌, Bool, ◌&&◌, [], ◌∷◌, Option, none, some, if◌then◌else◌, leb, ltb, ◌==◌, Text,
  is_empty,
}

pub record Coordinate : Type 0 where
  pub owner : Text
  pub repo : Text
  pub number : ℕ

abbrev pub is_digit : ℕ → Bool
is_digit c = leb b'0' c && leb c b'9'

-- The number that a text of digits spells behind those read as `n`.
unfoldable pub digits_from : ℕ → Text → Option ℕ
digits_from n [] = some n
digits_from n (c ∷ cs) =
    let rest = digits_from (n * 10 + (c - b'0')) cs in if is_digit c then rest else none

abbrev unsigned : Text → Option ℕ
unsigned [] = none
unsigned (c ∷ cs) = digits_from 0 (c ∷ cs)

-- A positive result of `strconv.Atoi`; the other numbers are refused where it is called.
unfoldable pub positive_int : Text → Option ℕ
unfolding digits_from
positive_int t = bounded (unsigned (unsigned_part t))
  where
    unsigned_part : Text → Text
    unsigned_part [] = []
    unsigned_part (c ∷ cs) = if c == b'+' then cs else c ∷ cs

    bounded : Option ℕ → Option ℕ
    bounded none = none
    bounded (some n) = if ltb 0 n && ltb n 0x8000000000000000 then some n else none

abbrev pub in_front_of : ℕ → Option (Text × Text) → Option (Text × Text)
in_front_of d none = none
in_front_of d (some (s, t)) = some (d ∷ s, t)

-- The text in front of the first `c`, and behind it: `strings.IndexByte`.
unfoldable pub cut_first : ℕ → Text → Option (Text × Text)
cut_first c [] = none
cut_first c (d ∷ ds) =
    let later = in_front_of d (cut_first c ds) in if d == c then some ([], ds) else later

abbrev pub cut_here : ℕ → ℕ → Text → Option (Text × Text) → Option (Text × Text)
cut_here c d ds (some (s, t)) = some (d ∷ s, t)
cut_here c d ds none = if d == c then some ([], ds) else none

-- The text in front of the last `c`, and behind it: `strings.LastIndexByte`.
unfoldable pub cut_last : ℕ → Text → Option (Text × Text)
cut_last c [] = none
cut_last c (d ∷ ds) = cut_here c d ds (cut_last c ds)

abbrev pub numbered : Text → Text → Option ℕ → Option Coordinate
numbered owner repo none = none
numbered owner repo (some n) = some (record { owner = owner; repo = repo; number = n })

abbrev pub at_slash : Text → Option (Text × Text) → Option Coordinate
at_slash number none = none
at_slash number (some (owner, repo)) =
    if is_empty owner then none else numbered owner repo (positive_int number)

abbrev pub at_hash : Option (Text × Text) → Option Coordinate
at_hash none = none
at_hash (some (path, number)) = at_slash number (cut_first b'/' path)

-- `SplitRef`. The first slash stands in front of the last `#`, and neither is the first byte.
unfoldable pub split_ref : Text → Option Coordinate
unfolding cut_last cut_first positive_int
split_ref ref = at_hash (cut_last b'#' ref)
