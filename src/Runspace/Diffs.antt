-- ===== src/Runspace/Diffs.antt =====
-- The files that a diff writes: `parseDiffTargets` of internal/runspace/patcher.go.
use semdev.Base.{
  Bool, true, false, not, ◌&&◌, ◌||◌, List, [], ◌∷◌, ◌++◌, Option, none, some, if◌then◌else◌, ◌==◌,
  any, Text, codes, same, has, is_empty, trim_space, split, has_prefix, Result, ok, err, ◌>>=◌,
  ◌>>◌,
}
use mathlib.Core.List.{reverse}
use semdev.Admission.Refs.{cut_first}
use semdev.Openspec.Lines.{cut_prefix}

pub data DiffError : Type 0 where
  no_content : DiffError
  unsupported : Text → DiffError
  no_segment : Text → DiffError

-- The variables of the loop over the lines; the targets are also the set of those seen.
pub record Blocks : Type 0 where
  pub targets : List Text
  pub in_git_block : Bool
  pub block_has_content : Bool

abbrev pub is_block : Text → Bool
is_block line = has_prefix line (codes "diff --git ")

abbrev pub has_suffix : Text → Text → Bool
has_suffix s suffix = has_prefix (reverse s) (reverse suffix)

abbrev new_paths : List Text
new_paths = codes "rename from " ∷ codes "rename to " ∷ codes "copy from " ∷ codes "copy to " ∷ []

abbrev extended : Text → Bool
extended line =
    same line (codes "GIT binary patch")
    || any (λ p. has_prefix line p) new_paths
    || has_suffix line (codes "mode 120000")

-- `isUnsupportedDiffHeader`
unfoldable pub is_unsupported_diff_header : Text → Bool
unfolding same has_prefix
is_unsupported_diff_header [] = false
is_unsupported_diff_header (c ∷ cs) =
    if c == b'+' || c == b'-' || c == 32 || c == b'@' then false else extended (c ∷ cs)

-- `stripP1`
unfoldable pub strip_p1 : Text → Option Text
unfolding cut_first
strip_p1 p = elim (cut_first b'/' p) [ none ↦ none | some (first, rel) ↦ some rel ]

-- The path of a header, without the timestamp.
unfoldable pub header_path : Text → Text
unfolding cut_first trim_space
header_path raw = elim (cut_first 9 raw) [
  | none ↦ trim_space raw
  | some (path, time) ↦ trim_space path
]

-- What follows `--- ` or `+++ `.
unfoldable pub header_of : Text → Option Text
unfolding cut_prefix
header_of line = elim (cut_prefix line (codes "--- ")) [
  | some raw ↦ some raw
  | none ↦ cut_prefix line (codes "+++ ")
]

abbrev pub with_target : Text → Blocks → Blocks
with_target rel b = record b {
  targets = if has b.targets rel then b.targets else b.targets ++ rel ∷ [];
  block_has_content = true;
}

-- The file that a header names, none where it is the side that is not there.
abbrev pub named : Text → Result DiffError (Option Text)
named path =
    if is_empty path || same path (codes "/dev/null")
    then ok none
    else elim (strip_p1 path) [ none ↦ err (no_segment path) | some rel ↦ ok (some rel) ]

abbrev pub take_name : Blocks → Option Text → Blocks
take_name b none = record b { block_has_content = true }
take_name b (some rel) = with_target rel b

abbrev pub take_header : Blocks → Option Text → Result DiffError Blocks
take_header b none = ok b
take_header b (some raw) = named (header_path raw) >>= λ name. ok (take_name b name)

-- `flushBlock`
abbrev pub flush_block : Blocks → Result DiffError (Unit {0})
flush_block b = if b.in_git_block && not b.block_has_content then err no_content else ok tt

unfoldable pub diff_line : Blocks → Text → Result DiffError Blocks
unfolding has header_of header_path strip_p1 is_unsupported_diff_header has_prefix
diff_line b line =
    if is_block line
    then flush_block b >> ok (record b { in_git_block = true; block_has_content = false })
    else if is_unsupported_diff_header line
    then err (unsupported line)
    else take_header b (header_of line)

unfoldable pub diff_lines : Blocks → List Text → Result DiffError Blocks
unfolding diff_line
diff_lines b [] = flush_block b >> ok b
diff_lines b (l ∷ ls) = diff_line b l >>= λ b'. diff_lines b' ls

abbrev pub no_blocks : Blocks
no_blocks = record { targets = []; in_git_block = false; block_has_content = false }

-- `parseDiffTargets`
unfoldable pub parse_diff_targets : Text → Result DiffError (List Text)
unfolding diff_lines split
parse_diff_targets diff = diff_lines no_blocks (split 10 diff) >>= λ b. ok b.targets
