-- ===== src/Standards/Decl.antt =====
-- One declared standard and one declared check: the data types of internal/standards/standards.go,
-- `validateStandard`, `validateCheck`, `InjectionForm` and what they call. An error is a constructor of
-- `DeclError`, with the values that its message quotes. A YAML string is valid UTF-8.
use semdev.Base.{
  ℕ, Bool, true, false, not, ◌&&◌, ◌||◌, List, [], ◌∷◌, ◌++◌, Option, none, some, map, ltb, leb,
  ◌==◌, if◌then◌else◌, Text, codes, same, has, trim_space, is_blank, byte_len, upper, Result, ok,
  err, ◌>>=◌, ◌>>◌, guard,
}
use semdev.Standards.Gates.{Defect, check_defect, proof_defect}

abbrev pub max_injection_form_bytes : ℕ
max_injection_form_bytes = 320

pub data Severity : Type 0 where
  must should may : Severity

abbrev pub severity_name : Severity → Text
severity_name must = codes "must"
severity_name should = codes "should"
severity_name may = codes "may"

abbrev pub injectable_roles : List Text
injectable_roles = codes "developer" ∷ codes "reviewer" ∷ []

pub record Standard : Type 0 where
  pub id : Text
  pub text : Text
  pub severity : Severity
  pub roles : List Text

-- A suppressed diagnostic stream, of the check's command or of its proof.
pub record Warning : Type 0 where
  pub check : Text
  pub in_proof : Bool
  pub suppressor : Text

pub record Check : Type 0 where
  pub name : Text
  pub command : Text
  pub required : Bool
  pub proof : Text
  pub warnings : List Warning

pub record YamlStandard : Type 0 where
  pub id : Text
  pub text : Text
  pub severity : Text
  pub roles : List Text

pub record YamlCheck : Type 0 where
  pub name : Text
  pub command : Text
  pub required : Bool
  pub proof : Text

pub data Field : Type 0 where
  command_field proof_field : Field

pub data DeclError : Type 0 where
  no_id no_name : ℕ → DeclError
  bad_id duplicate_id empty_text bad_name duplicate_name without_command : Text → DeclError
  empty_proof : Text → DeclError
  control_byte : Text → ℕ → DeclError
  bad_severity bad_role repeated_role : Text → Text → DeclError
  over_bound : Text → ℕ → DeclError
  control_character : Text → Field → ℕ → DeclError
  defective defective_proof : Text → Defect → DeclError

abbrev pub is_word_byte : ℕ → Bool
is_word_byte c = (leb b'a' c && leb c b'z') || (leb b'0' c && leb c b'9')

-- The regular expression `^[a-z0-9]+(-[a-z0-9]+)*$`; the flag says that the last byte was of a word.
unfoldable pub kebab_from : Bool → Text → Bool
kebab_from word [] = word
kebab_from word (c ∷ cs) = (is_word_byte c || (c == b'-' && word)) && kebab_from (is_word_byte c) cs

unfoldable pub kebab_token : Text → Bool
unfolding kebab_from
kebab_token = kebab_from false

abbrev pub is_control : ℕ → Bool
is_control r = ltb r 0x20 || r == 0x7f

-- The first rune that the test refuses.
unfoldable pub first_rune : (ℕ → Bool) → Text → Option ℕ
first_rune bad [] = none
first_rune bad (r ∷ rs) = if bad r then some r else first_rune bad rs

abbrev pub reject {ℓ} : {A : Type ℓ} → Option A → (A → DeclError) → Result DeclError (Unit {0})
reject none error = ok tt
reject (some a) error = err (error a)

unfoldable pub severity_of : Text → Text → Result DeclError Severity
severity_of id s =
    if same s (codes "must")
    then ok must
    else if same s (codes "should")
    then ok should
    else if same s (codes "may")
    then ok may
    else err (bad_severity id s)

-- The loop over the roles, with those that it has seen.
unfoldable pub check_roles : Text → List Text → List Text → Result DeclError (Unit {0})
check_roles id seen [] = ok tt
check_roles id seen (r ∷ rs) = do
  guard (has injectable_roles r) (bad_role id r)
  guard (not (has seen r)) (repeated_role id r)
  check_roles id (r ∷ seen) rs

unfoldable pub injection_text : Standard → Text
injection_text s =
    codes "[std:"
    ++ (s.id ++ (codes "] " ++ (map upper (severity_name s.severity) ++ (b' ' ∷ s.text))))

unfoldable pub injection_form : Standard → Result DeclError Text
injection_form s =
    let form = injection_text s in
    if ltb max_injection_form_bytes (byte_len form)
    then err (over_bound s.id (byte_len form))
    else ok form

abbrev pub default_roles : List Text → List Text
default_roles [] = injectable_roles
default_roles (r ∷ rs) = r ∷ rs

-- `seen` holds the ids of the standards before this one.
unfoldable pub validate_standard : ℕ → YamlStandard → List Text → Result DeclError Standard
unfolding severity_of check_roles injection_form first_rune
validate_standard i s seen = do
  guard (not (is_blank s.id)) (no_id i)
  guard (kebab_token s.id) (bad_id s.id)
  guard (not (has seen s.id)) (duplicate_id s.id)
  guard (not (is_blank s.text)) (empty_text s.id)
  reject (first_rune is_control s.text) (control_byte s.id)
  sev ← severity_of s.id s.severity
  let roles = default_roles s.roles
  check_roles s.id [] roles
  let std : Standard = record { id = s.id; text = trim_space s.text; severity = sev; roles = roles }
  _ ← injection_form std
  ok std

-- `rejectControlBytes` lets through what a YAML block scalar produces.
abbrev pub is_bad_control : ℕ → Bool
is_bad_control r = not (r == b'\n' || r == b'\t') && is_control r

unfoldable pub reject_control_bytes : Text → Field → Text → Result DeclError (Unit {0})
reject_control_bytes name field value =
    reject (first_rune is_bad_control value) (control_character name field)

abbrev pub warn : Text → Bool → List Text → List Warning
warn name in_proof [] = []
warn name in_proof (s ∷ ss) =
    record { check = name; in_proof = in_proof; suppressor = s } ∷ warn name in_proof ss

-- The block on a declared proof: its warnings.
unfoldable pub validate_proof : Text → Text → Result DeclError (List Warning)
validate_proof name [] = ok []
validate_proof name (c ∷ cs) = do
  guard (not (is_blank (c ∷ cs))) (empty_proof name)
  reject (proof_defect (c ∷ cs)).0 (defective_proof name)
  ok (warn name true (proof_defect (c ∷ cs)).1)

abbrev pub reject_in_proof : Text → Text → Result DeclError (Unit {0})
reject_in_proof name [] = ok tt
reject_in_proof name (c ∷ cs) = reject_control_bytes name proof_field (c ∷ cs)

unfoldable pub validate_check : ℕ → YamlCheck → List Text → Result DeclError Check
unfolding validate_proof reject_control_bytes first_rune
validate_check i c seen = do
  guard (not (is_blank c.name)) (no_name i)
  guard (kebab_token c.name) (bad_name c.name)
  guard (not (has seen c.name)) (duplicate_name c.name)
  guard (not (is_blank c.command)) (without_command c.name)
  reject_control_bytes c.name command_field c.command
  reject_in_proof c.name c.proof
  reject (check_defect c.command c.required).0 (defective c.name)
  proof_warnings ← validate_proof c.name c.proof
  ok (record {
    name = c.name;
    command = c.command;
    required = c.required;
    proof = c.proof;
    warnings = warn c.name false (check_defect c.command c.required).1 ++ proof_warnings;
  })
