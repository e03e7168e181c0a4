-- ===== src/Devtask.antt =====
-- The projection of authored tasks at the apply gate: `Project` of internal/devtask/project.go and what it
-- calls. A nil slice or pointer is `none`, an `int` is an integer; the indices and budgets that occur
-- are far below 2 ^ 63. A read through a nil budget, which would panic, is the error `nil_budget`.
pub mod Sorting
pub mod Projected
pub mod Gaps
use semdev.Base.{
  ℕ, Bool, true, false, not, ◌||◌, List, [], ◌∷◌, ◌++◌, Option, none, some, if◌then◌else◌, leb, ltb,
  ◌==◌, length, keep, Text, codes, is_empty, is_blank, trim_space, ℤ, pos, negsuc, Result, ok, err,
  ◌>>=◌, ◌>>◌, guard,
}

abbrev pub min_budget : ℤ
min_budget = pos 1

abbrev pub max_budget : ℤ
max_budget = pos 5

pub record RawTask : Type 0 where
  pub index : ℤ
  pub goal : Text
  pub assumptions : Option (List Text)
  pub non_goals : Option (List Text)
  pub target_files : List Text
  pub test_command : Text
  pub budget : Option ℤ

pub record TaskSpec : Type 0 where
  pub index : ℤ
  pub goal : Text
  pub assumptions : Option (List Text)
  pub non_goals : Option (List Text)
  pub target_files : List Text
  pub test_command : Text
  pub budget : ℤ

pub record TaskGap : Type 0 where
  pub index : ℤ
  pub missing : List Text

pub data ProjectError : Type 0 where
  no_tasks nil_budget : ProjectError
  duplicate_index : ℤ → ProjectError
  out_of_range : ℤ → ℕ → ProjectError
  schema_error : List TaskGap → ProjectError

-- `a < b` on integers.
abbrev pub int_lt : ℤ → ℤ → Bool
int_lt (pos a) (pos b) = ltb a b
int_lt (pos a) (negsuc b) = false
int_lt (negsuc a) (pos b) = true
int_lt (negsuc a) (negsuc b) = ltb b a

abbrev pub int_eq : ℤ → ℤ → Bool
int_eq (pos a) (pos b) = a == b
int_eq (negsuc a) (negsuc b) = a == b
int_eq _ _ = false

unfoldable pub clamp_budget : ℤ → ℤ
clamp_budget n =
    if int_lt n min_budget then min_budget else if int_lt max_budget n then max_budget else n

-- `seen[t.Index]`
unfoldable pub has_index : List ℤ → ℤ → Bool
has_index [] i = false
has_index (j ∷ js) i = int_eq j i || has_index js i

abbrev pub outside : ℕ → ℤ → Bool
outside n i = int_lt i (pos 0) || not (int_lt i (pos n))

-- The loop of `checkIndices` with the indices seen, for `n` tasks.
unfoldable pub check_indices : ℕ → List ℤ → List RawTask → Result ProjectError (Unit {0})
unfolding has_index
check_indices n seen [] = ok tt
check_indices n seen (t ∷ ts) = do
  guard (not (has_index seen t.index)) (duplicate_index t.index)
  guard (not (outside n t.index)) (out_of_range t.index n)
  check_indices n (t.index ∷ seen) ts

-- `if test { missing = append(missing, name) }`
abbrev pub when : Bool → Text → List Text
when true name = name ∷ []
when false name = []

abbrev pub is_nil {ℓ} : {A : Type ℓ} → Option A → Bool
is_nil none = true
is_nil (some a) = false

unfoldable pub count_non_blank : List Text → ℕ
count_non_blank xs = length (keep (λ x. not (is_blank x)) xs)

unfoldable pub schema_gaps : RawTask → List Text
unfolding count_non_blank
schema_gaps t =
    when (is_blank t.goal) (codes "goal")
    ++ (when (is_nil t.assumptions) (codes "assumptions")
        ++ (when (is_nil t.non_goals) (codes "non_goals")
            ++ (when (count_non_blank t.target_files == 0) (codes "target_files")
                ++ (when (is_blank t.test_command) (codes "test_command")
                    ++ when (is_nil t.budget) (codes "budget")))))

-- The loop that collects the gaps.
unfoldable pub gaps_of : List RawTask → List TaskGap
gaps_of [] = []
gaps_of (t ∷ ts) =
    let rest = gaps_of ts in
    if is_empty (schema_gaps t)
    then rest
    else record { index = t.index; missing = schema_gaps t } ∷ rest

abbrev pub spec_with : RawTask → ℤ → TaskSpec
spec_with t budget = record {
  index = t.index;
  goal = trim_space t.goal;
  assumptions = t.assumptions;
  non_goals = t.non_goals;
  target_files = t.target_files;
  test_command = trim_space t.test_command;
  budget = clamp_budget budget;
}

abbrev pub read_budget : Option ℤ → Result ProjectError ℤ
read_budget none = err nil_budget
read_budget (some n) = ok n

-- The loop that makes the specs.
unfoldable pub specs_of : List RawTask → Result ProjectError (List TaskSpec)
specs_of [] = ok []
specs_of (t ∷ ts) = do
  budget ← read_budget t.budget
  rest ← specs_of ts
  ok (spec_with t budget ∷ rest)

-- `slices.SortFunc` by index. It is not stable; the indices are distinct where it is called.
module _ {A : Type 0} (index_of : A → ℤ) where
  unfoldable pub insert_by : A → List A → List A
  insert_by a [] = a ∷ []
  insert_by a (b ∷ bs) =
      let rest = insert_by a bs in if int_lt (index_of b) (index_of a) then b ∷ rest else a ∷ b ∷ bs

  unfoldable pub sort_by : List A → List A
  unfolding insert_by
  sort_by [] = []
  sort_by (a ∷ xs) = insert_by a (sort_by xs)

abbrev pub reject_gaps : List TaskGap → Result ProjectError (Unit {0})
reject_gaps [] = ok tt
reject_gaps (g ∷ gs) = err (schema_error (sort_by (λ (x : TaskGap). x.index) (g ∷ gs)))

unfoldable pub project : List RawTask → Result ProjectError (List TaskSpec)
project tasks = do
  guard (not (is_empty tasks)) no_tasks
  check_indices (length tasks) [] tasks
  reject_gaps (gaps_of tasks)
  specs ← specs_of tasks
  ok (sort_by (λ (x : TaskSpec). x.index) specs)
