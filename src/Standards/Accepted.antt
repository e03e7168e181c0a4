-- ===== src/Standards/Accepted.antt =====
-- What a standard and a check that `validateStandard` and `validateCheck` accept is like.
use semdev.Base.{
  ℕ, ◌≤◌, ◌≡◌, refl, ◌∙◌, Bool, true, false, not, List, [], ◌∷◌, Option, none, some, subst, codes,
  All, Text, is_empty, has, trim_left, trim_right, put_unless_space, trim_space, trim_space_idem,
  is_blank, is_blank-trim_space, byte_len, arith, ◌⊎◌, inl, inr, ◌⊎◌, Unseen, Distinct, Unseen-cons,
  same_iff, Result, ok, ◌>>◌, guard-eq-ok, >>=-eq-ok, ok-injective, not-true, List-cases,
}
use semdev.Standards.Gates.{check_defect, proof_defect}
use semdev.Standards.Honesty.{IsGate, IsControl, check_defect_iff, proof_defect_iff}
use semdev.Standards.Decl.{
  Severity, Standard, Check, YamlStandard, YamlCheck, DeclError, severity_name, injectable_roles,
  kebab_token, is_control, is_bad_control, first_rune, reject, severity_of, check_roles,
  injection_text, injection_form, default_roles, validate_standard, validate_proof, Warning,
  reject_in_proof, validate_check, max_injection_form_bytes,
}

pub record IsStandard (s : Standard) : Type 0 where
  pub id_kebab : kebab_token s.id ≡ true
  pub text_shown : is_blank s.text ≡ false
  pub text_trimmed : trim_space s.text ≡ s.text
  pub text_plain : first_rune is_control s.text ≡ none
  pub roles_declared : is_empty s.roles ≡ false
  pub roles_known : All (λ r. has injectable_roles r ≡ true) s.roles
  pub roles_once : Distinct s.roles
  pub bounded : byte_len (injection_text s) ≤ max_injection_form_bytes

reject-eq-ok {ℓ κ} :
    {A : Type ℓ} {B : Type κ} (o : Option A) (error : A → DeclError) (k : Result DeclError B)
    {b : B}
    → (reject o error >> k) ≡ ok b
    → (o ≡ none) × (k ≡ ok b)
reject-eq-ok none error k h = (refl, h)
reject-eq-ok (some a) error k h = cc

first_rune-trim_left :
    (bad : ℕ → Bool) (t : Text) → first_rune bad t ≡ none → first_rune bad (trim_left t) ≡ none
unfolding first_rune trim_left
first_rune-trim_left bad [] h = refl
first_rune-trim_left bad (c ∷ cs) h = ground (arith, first_rune-trim_left bad cs)

first_rune-trim_right :
    (bad : ℕ → Bool) (t : Text) → first_rune bad t ≡ none → first_rune bad (trim_right t) ≡ none
unfolding first_rune trim_right
first_rune-trim_right bad [] h = refl
first_rune-trim_right bad (c ∷ cs) h = elim (List-cases (trim_right cs)) [
  | inl e ↦ rw (e, put_unless_space) (ground arith)
  | inr (d, r, e) ↦ rw (e, put_unless_space) (ground (arith, e, first_rune-trim_right bad cs))
]

first_rune-trim_space :
    (bad : ℕ → Bool) (t : Text) → first_rune bad t ≡ none → first_rune bad (trim_space t) ≡ none
unfolding trim_space
first_rune-trim_space bad t h = first_rune-trim_right bad _ (first_rune-trim_left bad t h)

-- The roles that the loop accepts are known, are none of those seen, and are distinct.
check_roles-ok :
    (id : Text) (seen rs : List Text) {u : Unit {0}}
    → check_roles id seen rs ≡ ok u
    → All (λ r. has injectable_roles r ≡ true) rs × Unseen seen rs × Distinct rs
unfolding check_roles
check_roles-ok id seen [] h = (tt, tt, tt)
check_roles-ok id seen (r ∷ rs) h =
    let (known, h₁) = guard-eq-ok (has injectable_roles r) _ _ h in
    let (new, h₂) = guard-eq-ok (not (has seen r)) _ _ h₁ in
    let (all_known, unseen, once) = check_roles-ok id (r ∷ seen) rs h₂ in
    let (before, absent) = Unseen-cons r seen rs unseen in
    ((known, all_known), (not-true _ new, before), (absent, once))

severity_of-ok : (id s : Text) {v : Severity} → severity_of id s ≡ ok v → severity_name v ≡ s
unfolding severity_of
severity_of-ok id s h =
    ground (arith, same_iff s (codes "must"), same_iff s (codes "should"), same_iff s (codes "may"))

injection_form-ok :
    (s : Standard) {t : Text}
    → injection_form s ≡ ok t
    → (t ≡ injection_text s) × (byte_len (injection_text s) ≤ max_injection_form_bytes)
unfolding injection_form
injection_form-ok s h = ground arith

default_roles-declared : (rs : List Text) → is_empty (default_roles rs) ≡ false
default_roles-declared [] = refl
default_roles-declared (r ∷ rs) = refl

-- The fields of an accepted standard, and what it is made from.
pub record Accepts (raw : YamlStandard) (seen : List Text) (s : Standard) : Type 0 where
  pub valid : IsStandard s
  pub new : has seen s.id ≡ false
  pub same_id : s.id ≡ raw.id
  pub same_text : s.text ≡ trim_space raw.text
  pub same_severity : severity_name s.severity ≡ raw.severity
  pub same_roles : s.roles ≡ default_roles raw.roles

abbrev standard_from : YamlStandard → Severity → Standard
standard_from raw sev = record {
  id = raw.id;
  text = trim_space raw.text;
  severity = sev;
  roles = default_roles raw.roles;
}

accepted :
    (raw : YamlStandard) (seen : List Text) (sev : Severity) {s : Standard}
    → kebab_token raw.id ≡ true
    → has seen raw.id ≡ false
    → is_blank raw.text ≡ false
    → first_rune is_control raw.text ≡ none
    → severity_name sev ≡ raw.severity
    → All (λ r. has injectable_roles r ≡ true) (default_roles raw.roles)
      × Unseen [] (default_roles raw.roles)
      × Distinct (default_roles raw.roles)
    → byte_len (injection_text (standard_from raw sev)) ≤ max_injection_form_bytes
    → standard_from raw sev ≡ s
    → Accepts raw seen s
accepted raw seen sev kebab new shown plain named (known, _, once) bound e =
    subst (Accepts raw seen) e (record {
      valid = record {
        id_kebab = kebab;
        text_shown = is_blank-trim_space raw.text ∙ shown;
        text_trimmed = trim_space_idem raw.text;
        text_plain = first_rune-trim_space is_control raw.text plain;
        roles_declared = default_roles-declared raw.roles;
        roles_known = known;
        roles_once = once;
        bounded = bound;
      };
      new = new;
      same_id = refl;
      same_text = refl;
      same_severity = named;
      same_roles = refl;
    })

pub validate_standard-ok :
    (i : ℕ) (raw : YamlStandard) (seen : List Text) {s : Standard}
    → validate_standard i raw seen ≡ ok s
    → Accepts raw seen s
unfolding validate_standard
validate_standard-ok i raw seen h =
    let (_, h₁) = guard-eq-ok (not (is_blank raw.id)) _ _ h in
    let (kebab, h₂) = guard-eq-ok (kebab_token raw.id) _ _ h₁ in
    let (new, h₃) = guard-eq-ok (not (has seen raw.id)) _ _ h₂ in
    let (shown, h₄) = guard-eq-ok (not (is_blank raw.text)) _ _ h₃ in
    let (plain, h₅) = reject-eq-ok (first_rune is_control raw.text) _ _ h₄ in
    let (sev, sev_is, h₆) = >>=-eq-ok (severity_of raw.id raw.severity) _ h₅ in
    let (_, roles_pass, h₇) = >>=-eq-ok (check_roles raw.id [] (default_roles raw.roles)) _ h₆ in
    let (form, form_is, h₈) = >>=-eq-ok (injection_form (standard_from raw sev)) _ h₇ in
    accepted raw seen sev kebab (not-true _ new) (not-true _ shown) plain
      (severity_of-ok raw.id raw.severity sev_is)
      (check_roles-ok raw.id [] (default_roles raw.roles) roles_pass)
      (injection_form-ok (standard_from raw sev) form_is).1 (ok-injective h₈)

-- What `parse` promises of a check: a required one is a gate, and a declared proof is a control.
pub record IsCheck (c : Check) : Type 0 where
  pub name_kebab : kebab_token c.name ≡ true
  pub command_shown : is_blank c.command ≡ false
  pub command_plain : first_rune is_bad_control c.command ≡ none
  pub required_gates : (c.required ≡ false) ⊎ IsGate c.command
  pub advisory_defect : (check_defect c.command c.required).0 ≡ none
  pub proof_controls : (is_empty c.proof ≡ true) ⊎ IsControl c.proof

pub record AcceptsCheck (raw : YamlCheck) (seen : List Text) (c : Check) : Type 0 where
  pub valid : IsCheck c
  pub new : has seen c.name ≡ false
  pub same_name : c.name ≡ raw.name
  pub same_command : c.command ≡ raw.command
  pub same_required : c.required ≡ raw.required
  pub same_proof : c.proof ≡ raw.proof

required-gates :
    (command : Text) (required : Bool)
    → (check_defect command required).0 ≡ none
    → (required ≡ false) ⊎ IsGate command
required-gates command true h = inr ((check_defect_iff command).0 h)
required-gates command false h = inl refl

validate_proof-ok :
    (name proof : Text) {ws : List Warning}
    → validate_proof name proof ≡ ok ws
    → (is_empty proof ≡ true) ⊎ IsControl proof
unfolding validate_proof
validate_proof-ok name [] h = inl refl
validate_proof-ok name (c ∷ cs) h =
    let (_, h₁) = guard-eq-ok (not (is_blank (c ∷ cs))) _ _ h in
    let (accepted_proof, _) = reject-eq-ok (proof_defect (c ∷ cs)).0 _ _ h₁ in
    inr ((proof_defect_iff (c ∷ cs)).0 accepted_proof)

pub validate_check-ok :
    (i : ℕ) (raw : YamlCheck) (seen : List Text) {c : Check}
    → validate_check i raw seen ≡ ok c
    → AcceptsCheck raw seen c
unfolding validate_check
validate_check-ok i raw seen h =
    let (_, h₁) = guard-eq-ok (not (is_blank raw.name)) _ _ h in
    let (kebab, h₂) = guard-eq-ok (kebab_token raw.name) _ _ h₁ in
    let (new, h₃) = guard-eq-ok (not (has seen raw.name)) _ _ h₂ in
    let (shown, h₄) = guard-eq-ok (not (is_blank raw.command)) _ _ h₃ in
    let (plain, h₅) = reject-eq-ok (first_rune is_bad_control raw.command) _ _ h₄ in
    let (_, _, h₆) = >>=-eq-ok (reject_in_proof raw.name raw.proof) _ h₅ in
    let (gates, h₇) = reject-eq-ok (check_defect raw.command raw.required).0 _ _ h₆ in
    let (ws, proof_is, h₈) = >>=-eq-ok (validate_proof raw.name raw.proof) _ h₇ in
    subst (AcceptsCheck raw seen) (ok-injective h₈) (record {
      valid = record {
        name_kebab = kebab;
        command_shown = not-true _ shown;
        command_plain = plain;
        required_gates = required-gates raw.command raw.required gates;
        advisory_defect = gates;
        proof_controls = validate_proof-ok raw.name raw.proof proof_is;
      };
      new = not-true _ new;
      same_name = refl;
      same_command = refl;
      same_required = refl;
      same_proof = refl;
    })
