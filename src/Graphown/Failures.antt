-- ===== src/Graphown/Failures.antt =====
-- How a failed mutation is read: the classification functions of internal/graphown/writer.go and
-- create.go. The errors are those of the framework's projection client.
use semdev.Base.{
  ℕ, ◌*◌, ◌≤◌, arith, Bool, true, false, ◌||◌, Option, none, some, if◌then◌else◌, Text, codes,
  has_prefix,
}

-- `projection.MutationError.Kind`; `other` stands for a kind that the code does not name.
pub data Kind : Type 0 where
  invalid not_found conflict revision_conflict unavailable commit_unknown internal other : Kind

-- An error as the code looks at it: the kind that `errors.As` finds in its chain, if any, whether it
-- finds a classified error there, and its message.
pub record Failure : Type 0 where
  pub kind : Option Kind
  pub classified : Bool
  pub message : Text

abbrev pub replace_attempts : ℕ
replace_attempts = 3

abbrev pub transport_attempts : ℕ
transport_attempts = 4

abbrev bound_of : Option Kind → ℕ
bound_of (some revision_conflict) = replace_attempts
bound_of _ = transport_attempts

unfoldable pub attempt_bound : Failure → ℕ
attempt_bound e = bound_of e.kind

bound_of-le : (k : Option Kind) → bound_of k ≤ transport_attempts
bound_of-le (some invalid) = omega arith
bound_of-le (some not_found) = omega arith
bound_of-le (some conflict) = omega arith
bound_of-le (some revision_conflict) = omega arith
bound_of-le (some unavailable) = omega arith
bound_of-le (some commit_unknown) = omega arith
bound_of-le (some internal) = omega arith
bound_of-le (some other) = omega arith
bound_of-le none = omega arith

-- No kind has more attempts than a transport fault.
pub attempt_bound-le : (e : Failure) → attempt_bound e ≤ transport_attempts
unfolding attempt_bound
attempt_bound-le e = bound_of-le e.kind

abbrev is_convergent_write : Option Kind → Bool
is_convergent_write (some revision_conflict) = true
is_convergent_write (some unavailable) = true
is_convergent_write (some commit_unknown) = true
is_convergent_write _ = false

unfoldable pub convergent_write_kind : Failure → Bool
convergent_write_kind e = is_convergent_write e.kind

abbrev backoff_of : Option Kind → ℕ → ℕ
backoff_of (some revision_conflict) attempt = 0
backoff_of _ attempt = attempt * 100

-- In milliseconds.
unfoldable pub write_retry_backoff : Failure → ℕ → ℕ
write_retry_backoff e attempt = backoff_of e.kind attempt

abbrev is_convergent_create : Option Kind → Bool
is_convergent_create (some unavailable) = true
is_convergent_create (some commit_unknown) = true
is_convergent_create _ = false

unfoldable pub convergent_create_kind : Failure → Bool
convergent_create_kind e = is_convergent_create e.kind

abbrev is_conflict_kind : Option Kind → Bool
is_conflict_kind (some conflict) = true
is_conflict_kind _ = false

unfoldable pub is_conflict : Failure → Bool
is_conflict e = is_conflict_kind e.kind

-- `agentic.ToolErrorKind`
pub data ToolErrorKind : Type 0 where
  tool_internal tool_network : ToolErrorKind

abbrev kind_error : Kind → ToolErrorKind
kind_error invalid = tool_internal
kind_error internal = tool_internal
kind_error not_found = tool_internal
kind_error conflict = tool_internal
kind_error _ = tool_network

abbrev plain_error : Failure → ToolErrorKind
plain_error e =
    if e.classified || has_prefix e.message (codes "graphown:") then tool_internal else tool_network

abbrev error_of : Option Kind → ToolErrorKind → ToolErrorKind
error_of (some k) plain = kind_error k
error_of none plain = plain

unfoldable pub write_error_kind : Failure → ToolErrorKind
write_error_kind e = error_of e.kind (plain_error e)
