-- ===== src/Secrets/Scrub.antt =====
-- `NewScrubber` and `Scrub` of internal/secrets/scrub.go, and that no value survives a scrub.
use semdev.Base.{
  ℕ, zero, suc, not, List, [], ◌∷◌, ◌++◌, ltb, if◌then◌else◌, length, keep, Text, codes, is_blank,
  has_prefix, byte_len,
}

abbrev pub redaction : Text
redaction = codes "***"

-- The values in the order of the pairs: longer ones first, blank ones dropped.
unfoldable pub insert_longest : Text → List Text → List Text
insert_longest v [] = v ∷ []
insert_longest v (u ∷ us) =
    if ltb (byte_len v) (byte_len u) then u ∷ insert_longest v us else v ∷ u ∷ us

unfoldable pub longest_first : List Text → List Text
unfolding insert_longest
longest_first [] = []
longest_first (v ∷ vs) = insert_longest v (longest_first vs)

abbrev pub values_of : List (Text × Text) → List Text
values_of [] = []
values_of ((name, value) ∷ env) = value ∷ values_of env

-- The scrubber is its list of values; an empty one is the no-op.
unfoldable pub new_scrubber : List (Text × Text) → List Text
unfolding longest_first
new_scrubber env = longest_first (keep (λ v. not (is_blank v)) (values_of env))

-- How many code points the first value takes that stands at the text's start, or 0.
unfoldable pub match_at : List Text → Text → ℕ
match_at [] t = 0
match_at (v ∷ vs) t = if has_prefix t v then length v else match_at vs t

-- `skip` code points belong to a value that has been replaced.
unfoldable pub scrub_from : List Text → ℕ → Text → Text
unfolding match_at
scrub_from values skip [] = []
scrub_from values (suc skip) (c ∷ cs) = scrub_from values skip cs
scrub_from values zero (c ∷ cs) = elim (match_at values (c ∷ cs)) [
  | zero ↦ c ∷ scrub_from values 0 cs
  | suc n ↦ redaction ++ scrub_from values n cs
]

unfoldable pub scrub : List Text → Text → Text
unfolding scrub_from
scrub values = scrub_from values 0
