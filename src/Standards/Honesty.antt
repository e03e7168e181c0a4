-- ===== src/Standards/Honesty.antt =====
-- What the rules of internal/standards/gates.go say of a command that they accept.
use semdev.Base.{
  ◌≡◌, ◌↔◌, refl, Bool, true, false, List, [], ◌∷◌, none, arith, Text, All, is_empty, has,
  trim_space, trim_space_idem, Bool-cases, inl, inr,
}
use semdev.Standards.Scan.{top_level_separator, strip_comment}
use semdev.Standards.Gates.{
  effective_of, effective_lines, first_word_base, exits_zero, exits_non_zero, vacuous_bases,
  always_fail_bases, last_line, judge_lines, check_defect, control_defect, proof_defect,
}

-- The command is one effective line with no top-level separator, so its exit status is the
-- line's, and the line is none of the forms that always succeed.
pub record IsGate (command : Text) : Type 0 where
  pub line : Text
  pub single_line : effective_lines command ≡ line ∷ []
  pub unseparated : top_level_separator line ≡ none
  pub not_vacuous : has vacuous_bases (first_word_base line) ≡ false
  pub not_exit_zero : exits_zero line ≡ false

judge_lines-IsGate :
    (command : Text) (lines : List Text)
    → effective_lines command ≡ lines
    → (judge_lines command true lines).0 ≡ none
    → IsGate command
unfolding judge_lines
judge_lines-IsGate command [] e h = cc
judge_lines-IsGate command (line ∷ next ∷ more) e h = cc
judge_lines-IsGate command (line ∷ []) e h = record {
  line = line;
  single_line = e;
  unseparated = ground arith;
  not_vacuous = ground arith;
  not_exit_zero = ground arith;
}

check_defect-IsGate : (command : Text) → (check_defect command true).0 ≡ none → IsGate command
unfolding check_defect
check_defect-IsGate command h = judge_lines-IsGate command (effective_lines command) refl h

gate-check_defect : (command : Text) → IsGate command → (check_defect command true).0 ≡ none
unfolding check_defect
gate-check_defect command g =
    rw g.single_line (unfold judge_lines in ground (arith, g.unseparated, g.not_vacuous))

-- A required check's command is accepted exactly when it has one effective line, with no top-level
-- separator in it, whose first word is no vacuous command and which is not a bare exit zero.
pub check_defect_iff : (command : Text) → ((check_defect command true).0 ≡ none) ↔ IsGate command
check_defect_iff command = (check_defect-IsGate command, gate-check_defect command)

-- What a required check passes, an advisory one passes too, with the same warnings.
pub check_defect_advisory :
    (command : Text)
    → (check_defect command true).0 ≡ none
    → check_defect command false ≡ check_defect command true
unfolding check_defect
check_defect_advisory command h =
    let g = check_defect-IsGate command h in
    rw g.single_line (unfold judge_lines in ground (arith, g.unseparated))

-- A control is held to the rules of a required check, and is none of the forms that always fail.
pub record IsControl (proof : Text) : Type 0 where
  pub gate : IsGate proof
  pub not_always_failing : has always_fail_bases (first_word_base gate.line) ≡ false
  pub not_exit_non_zero : exits_non_zero gate.line ≡ false

control_defect_parts :
    (proof line : Text) (more : List Text)
    → (control_defect proof (line ∷ more)).0 ≡ none
    → (has always_fail_bases (first_word_base (last_line line more)) ≡ false)
      × (exits_non_zero (last_line line more) ≡ false)
      × ((check_defect proof true).0 ≡ none)
unfolding control_defect
control_defect_parts proof line more h = ground arith

last_is :
    (proof line : Text) (more : List Text) (g : IsGate proof)
    → effective_lines proof ≡ line ∷ more
    → (test : Text → Bool) → test (last_line line more) ≡ false
    → test g.line ≡ false
last_is proof line [] g e test h = rw (← line_is) h
  where
    line_is : line ≡ g.line
    line_is = cc (e, g.single_line)
last_is proof line (next ∷ more) g e test h = cc (e, g.single_line)

control_defect-IsControl :
    (proof : Text) (lines : List Text)
    → effective_lines proof ≡ lines
    → (control_defect proof lines).0 ≡ none
    → IsControl proof
control_defect-IsControl proof [] e h = unfold control_defect in cc
control_defect-IsControl proof (line ∷ more) e h =
    let (fails, exits, checked) = control_defect_parts proof line more h in
    let g = check_defect-IsGate proof checked in
    record {
      gate = g;
      not_always_failing =
          last_is proof line more g e (λ l. has always_fail_bases (first_word_base l)) fails;
      not_exit_non_zero = last_is proof line more g e exits_non_zero exits;
    }

-- A control gets the verdict and the warnings that a required check of the same text gets.
pub control-proof_defect :
    (proof : Text) → IsControl proof → proof_defect proof ≡ check_defect proof true
unfolding proof_defect
control-proof_defect proof c =
    rw c.gate.single_line
      (unfold control_defect in ground (arith, c.not_always_failing, c.not_exit_non_zero))

-- A negative control is accepted exactly when it is a command a required check may have, its first
-- word is no command that always fails, and it is not a bare exit with another code.
pub proof_defect_iff : (proof : Text) → ((proof_defect proof).0 ≡ none) ↔ IsControl proof
proof_defect_iff proof = (
  unfold proof_defect in control_defect-IsControl proof (effective_lines proof) refl,
  λ c. rw (control-proof_defect proof c) (gate-check_defect proof c.gate),
)

-- Every effective line is trimmed and not empty.
abbrev IsLine : Text → Type 0
IsLine l = (trim_space l ≡ l) × (is_empty l ≡ false)

effective_of-All : (raws : List Text) → All IsLine (effective_of raws)
unfolding effective_of
effective_of-All [] = tt
effective_of-All (raw ∷ raws) = elim (Bool-cases (is_empty (trim_space (strip_comment raw)))) [
  | inl e ↦ rw e (effective_of-All raws)
  | inr e ↦ rw e ((trim_space_idem (strip_comment raw), e), effective_of-All raws)
]

pub effective_lines-All : (command : Text) → All IsLine (effective_lines command)
unfolding effective_lines
effective_lines-All command = effective_of-All _
