-- ===== src/Standards/WellFormed.antt =====
-- What every file that `Parse` of internal/standards/standards.go accepts is like.
use semdev.Base.{
  ℕ, suc, ◌+◌, ◌≤◌, ◌≡◌, refl, true, false, not, List, [], ◌∷◌, Option, none, some, ltb, All, Text,
  has, arith, Unseen, Distinct, Unseen-cons, Result, ok, err, ◌>>◌, guard-eq-ok, >>=-eq-ok,
  ok-injective, trim_space, length, is_nat, ap, subst,
}
use semdev.Standards.Decl.{
  severity_name, default_roles, Standard, Check, YamlStandard, YamlCheck, DeclError,
  validate_standard, validate_check,
}
use semdev.Standards.Parse.{
  max_standards_per_file, max_checks_per_file, file_version, YamlFile, Yaml, Bytes, ParseError,
  File, declare, identity_key, prior_id, reject_alias, ids, names, parse_standards, parse_checks,
  parse_raw, parse, reject_null_entries, from_decoded, max_file_bytes, Decoded, decoded,
  end_of_file, malformed,
}
use semdev.Standards.Accepted.{
  IsStandard, Accepts, validate_standard-ok, IsCheck, AcceptsCheck, validate_check-ok,
}

abbrev pub keys : List Standard → List Text
keys [] = []
keys (s ∷ ss) = identity_key s ∷ keys ss

-- Two lists go together, entry by entry.
pub data Each {A B : Type 0} (R : A → B → Type 0) : List A → List B → Type 0 where
  none_left : Each R [] []
  each :
      {x : A} {y : B} {xs : List A} {ys : List B} → R x y → Each R xs ys → Each R (x ∷ xs) (y ∷ ys)

-- A standard says what was declared, its text trimmed and its roles the default ones where none are
-- declared.
pub record DeclaresStandard (raw : YamlStandard) (s : Standard) : Type 0 where
  pub same_id : s.id ≡ raw.id
  pub same_text : s.text ≡ trim_space raw.text
  pub same_severity : severity_name s.severity ≡ raw.severity
  pub same_roles : s.roles ≡ default_roles raw.roles

pub record DeclaresCheck (raw : YamlCheck) (c : Check) : Type 0 where
  pub same_name : c.name ≡ raw.name
  pub same_command : c.command ≡ raw.command
  pub same_required : c.required ≡ raw.required
  pub same_proof : c.proof ≡ raw.proof

-- Every standard and every check is valid, ids, names and record identities are distinct, and the
-- numbers of both are bounded.
pub record IsFile (f : File) : Type 0 where
  pub standards_valid : All IsStandard f.standards
  pub ids_distinct : Distinct (ids f.standards)
  pub keys_distinct : Distinct (keys f.standards)
  pub standards_bounded : length f.standards ≤ max_standards_per_file
  pub checks_valid : All IsCheck f.checks
  pub names_distinct : Distinct (names f.checks)
  pub checks_bounded : length f.checks ≤ max_checks_per_file

-- The file holds the declarations of the decoded one, all of them, in order and unchanged, and the
-- decoded one is of the version that is known.
pub record Declares (raw : YamlFile) (f : File) : Type 0 where
  pub version : is_nat raw.version file_version ≡ true
  pub all_standards : Each DeclaresStandard raw.standards f.standards
  pub all_checks : Each DeclaresCheck raw.checks f.checks

declare-eq-ok {ℓ} : {A : Type ℓ} (r : Result DeclError A) {a : A} → declare r ≡ ok a → r ≡ ok a
declare-eq-ok (ok a) h = ap ok (ok-injective h)
declare-eq-ok (err e) h = cc

prior_id-none :
    (seen : List Standard) (key : Text) → prior_id seen key ≡ none → has (keys seen) key ≡ false
unfolding prior_id has
prior_id-none [] key h = refl
prior_id-none (s ∷ ss) key h = ground (arith, prior_id-none ss key)

reject_alias-eq-ok {ℓ} :
    {B : Type ℓ} (o : Option Text) (id : Text) (k : Result ParseError B) {b : B}
    → (reject_alias o id >> k) ≡ ok b
    → (o ≡ none) × (k ≡ ok b)
reject_alias-eq-ok none id k h = (refl, h)
reject_alias-eq-ok (some p) id k h = cc

record StandardsRest (seen : List Standard) (raws : List YamlStandard) (out : List Standard)
    : Type 0 where
  valid : All IsStandard out
  ids_unseen : Unseen (ids seen) (ids out)
  ids_once : Distinct (ids out)
  keys_unseen : Unseen (keys seen) (keys out)
  keys_once : Distinct (keys out)
  in_order : Each DeclaresStandard raws out

StandardsRest-cons :
    (seen : List Standard) (raw : YamlStandard) (raws : List YamlStandard) (s : Standard)
    (rest : List Standard)
    → Accepts raw (ids seen) s
    → prior_id seen (identity_key s) ≡ none
    → StandardsRest (s ∷ seen) raws rest
    → StandardsRest seen (raw ∷ raws) (s ∷ rest)
StandardsRest-cons seen raw raws s rest a prior r =
    let (ids_before, id_absent) = Unseen-cons s.id (ids seen) (ids rest) r.ids_unseen in
    let (keys_before, key_absent) =
      Unseen-cons (identity_key s) (keys seen) (keys rest) r.keys_unseen in
    record {
      valid = (a.valid, r.valid);
      ids_unseen = (a.new, ids_before);
      ids_once = (id_absent, r.ids_once);
      keys_unseen = (prior_id-none seen (identity_key s) prior, keys_before);
      keys_once = (key_absent, r.keys_once);
      in_order =
          each
            (record {
              same_id = a.same_id;
              same_text = a.same_text;
              same_severity = a.same_severity;
              same_roles = a.same_roles;
            })
            r.in_order;
    }

parse_standards-ok :
    (i : ℕ) (seen : List Standard) (raws : List YamlStandard) {out : List Standard}
    → parse_standards i seen raws ≡ ok out
    → StandardsRest seen raws out
unfolding parse_standards
parse_standards-ok i seen [] h = subst (StandardsRest seen []) (ok-injective h) (record {
  valid = tt;
  ids_unseen = tt;
  ids_once = tt;
  keys_unseen = tt;
  keys_once = tt;
  in_order = none_left;
})
parse_standards-ok i seen (raw ∷ raws) h =
    let (s, s_is, h₁) = >>=-eq-ok (declare (validate_standard i raw (ids seen))) _ h in
    let (prior, h₂) = reject_alias-eq-ok (prior_id seen (identity_key s)) s.id _ h₁ in
    let (rest, rest_is, h₃) = >>=-eq-ok (parse_standards (i + 1) (s ∷ seen) raws) _ h₂ in
    subst (StandardsRest seen (raw ∷ raws)) (ok-injective h₃) (
      StandardsRest-cons seen raw raws s rest
        (validate_standard-ok i raw (ids seen)
          (declare-eq-ok (validate_standard i raw (ids seen)) s_is))
        prior (parse_standards-ok (i + 1) (s ∷ seen) raws rest_is))

record ChecksRest (seen : List Check) (raws : List YamlCheck) (out : List Check) : Type 0 where
  valid : All IsCheck out
  names_unseen : Unseen (names seen) (names out)
  names_once : Distinct (names out)
  in_order : Each DeclaresCheck raws out

ChecksRest-cons :
    (seen : List Check) (raw : YamlCheck) (raws : List YamlCheck) (c : Check) (rest : List Check)
    → AcceptsCheck raw (names seen) c
    → ChecksRest (c ∷ seen) raws rest
    → ChecksRest seen (raw ∷ raws) (c ∷ rest)
ChecksRest-cons seen raw raws c rest a r =
    let (before, absent) = Unseen-cons c.name (names seen) (names rest) r.names_unseen in
    record {
      valid = (a.valid, r.valid);
      names_unseen = (a.new, before);
      names_once = (absent, r.names_once);
      in_order =
          each
            (record {
              same_name = a.same_name;
              same_command = a.same_command;
              same_required = a.same_required;
              same_proof = a.same_proof;
            })
            r.in_order;
    }

parse_checks-ok :
    (i : ℕ) (seen : List Check) (raws : List YamlCheck) {out : List Check}
    → parse_checks i seen raws ≡ ok out
    → ChecksRest seen raws out
unfolding parse_checks
parse_checks-ok i seen [] h =
    subst (ChecksRest seen []) (ok-injective h)
      (record { valid = tt; names_unseen = tt; names_once = tt; in_order = none_left })
parse_checks-ok i seen (raw ∷ raws) h =
    let (c, c_is, h₁) = >>=-eq-ok (declare (validate_check i raw (names seen))) _ h in
    let (rest, rest_is, h₂) = >>=-eq-ok (parse_checks (i + 1) (c ∷ seen) raws) _ h₁ in
    subst (ChecksRest seen (raw ∷ raws)) (ok-injective h₂) (
      ChecksRest-cons seen raw raws c rest
        (validate_check-ok i raw (names seen)
          (declare-eq-ok (validate_check i raw (names seen)) c_is))
        (parse_checks-ok (i + 1) (c ∷ seen) raws rest_is))

length-Each :
    {A B : Type 0} {R : A → B → Type 0} {xs : List A} {ys : List B}
    → Each R xs ys
    → length xs ≡ length ys
length-Each none_left = refl
length-Each (each r rs) = ap suc (length-Each rs)

not-ltb→le : (a b : ℕ) → not (ltb a b) ≡ true → b ≤ a
not-ltb→le a b h = ground arith

parse_raw-ok : (raw : YamlFile) {f : File} → parse_raw raw ≡ ok f → IsFile f × Declares raw f
unfolding parse_raw
parse_raw-ok raw h =
    let (version, h₁) = guard-eq-ok (is_nat raw.version file_version) _ _ h in
    let (few, h₂) = guard-eq-ok (not (ltb max_standards_per_file (length raw.standards))) _ _ h₁ in
    let (ss, ss_is, h₃) = >>=-eq-ok (parse_standards 0 [] raw.standards) _ h₂ in
    let (few_checks, h₄) = guard-eq-ok (not (ltb max_checks_per_file (length raw.checks))) _ _ h₃ in
    let (cs, cs_is, h₅) = >>=-eq-ok (parse_checks 0 [] raw.checks) _ h₄ in
    let s = parse_standards-ok 0 [] raw.standards ss_is in
    let c = parse_checks-ok 0 [] raw.checks cs_is in
    subst (λ f. IsFile f × Declares raw f) (ok-injective h₅)
      (
        record {
          standards_valid = s.valid;
          ids_distinct = s.ids_once;
          keys_distinct = s.keys_once;
          standards_bounded = omega (arith, length-Each s.in_order, not-ltb→le _ _ few);
          checks_valid = c.valid;
          names_distinct = c.names_once;
          checks_bounded = omega (arith, length-Each c.in_order, not-ltb→le _ _ few_checks);
        },
        record { version = version; all_standards = s.in_order; all_checks = c.in_order },
      )

from_decoded-eq-ok : (d : Decoded) {raw : YamlFile} → from_decoded d ≡ ok raw → d ≡ decoded raw
from_decoded-eq-ok end_of_file h = cc
from_decoded-eq-ok malformed h = cc
from_decoded-eq-ok (decoded r) h = ap decoded (ok-injective h)

-- A standards file that Parse accepts is within the byte bound and is one YAML document of the
-- known version with no null entry; the file is well formed, with unique ids, names and identities
-- within the counts allowed, and holds every declaration of the document, in order: a standard
-- with its id, its text trimmed, its severity and its roles, the default ones where it declares
-- none, a check with its name, command, required flag and proof.
pub parse-IsFile :
    (yaml : Yaml) (bytes : Bytes) {f : File}
    → parse yaml bytes ≡ ok f
    → (raw : YamlFile) × (yaml.decode bytes ≡ decoded raw)
      × (yaml.at_end bytes ≡ true)
      × (reject_null_entries (yaml.root bytes) ≡ ok tt)
      × (length bytes ≤ max_file_bytes)
      × IsFile f
      × Declares raw f
unfolding parse
parse-IsFile yaml bytes h =
    let (small, h₁) = guard-eq-ok (not (ltb max_file_bytes (length bytes))) _ _ h in
    let (raw, raw_is, h₂) = >>=-eq-ok (from_decoded (yaml.decode bytes)) _ h₁ in
    let (single, h₃) = guard-eq-ok (yaml.at_end bytes) _ _ h₂ in
    let (u, nulls, h₄) = >>=-eq-ok (reject_null_entries (yaml.root bytes)) _ h₃ in
    let (valid, declares) = parse_raw-ok raw h₄ in
    (raw, from_decoded-eq-ok _ raw_is, single, nulls, not-ltb→le _ _ small, valid, declares)
