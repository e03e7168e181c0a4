-- ===== src/Tests/Files.antt =====
-- The standards file of internal/standards and the scrubber of internal/secrets at small inputs.
use mathlib.Core.List.{Memᴰ}
use semdev.Base.{
  Bool, ◌≡◌, ◌↔◌, refl, List, [], ◌∷◌, ◌++◌, Text, codes, pos, ok, true, false, none, some, length,
  contains, trim_space, is_blank, has, byte_len, ◌≤◌, arith,
}
use semdev.Standards.Decl.{
  first_rune, injection_text, Standard, should, YamlStandard, validate_standard, kebab_token,
}
use semdev.Standards.Scan.{semicolon, top_level_separator}
use semdev.Standards.Gates.{check_defect, proof_defect}
use semdev.Standards.Honesty.{IsGate, IsControl, check_defect_iff, proof_defect_iff}
use semdev.Standards.Inert.{Inert, Literal, at_semicolon, top_level_separator-Operator}
use semdev.Standards.Accepted.{IsStandard}
use semdev.Standards.Parse.{
  Yaml, YamlFile, decoded, parse, parse_raw, parse_standards, prior_id, parse_checks, identity_key,
  reject_null_entries, max_file_bytes,
}
use semdev.Standards.WellFormed.{IsFile, Declares, parse-IsFile}
use semdev.Secrets.Scrub.{new_scrubber, scrub}
use semdev.Secrets.NoLeak.{scrub-contains}

check_defect_iff_example :
    ((check_defect (codes "go vet ./...") true).0 ≡ none) ↔ IsGate (codes "go vet ./...")
check_defect_iff_example = check_defect_iff (codes "go vet ./...")

proof_defect_iff_example : ((proof_defect (codes "false")).0 ≡ none) ↔ IsControl (codes "false")
proof_defect_iff_example = proof_defect_iff (codes "false")

-- a ';b'
abbrev quoted : Text
quoted = codes "a ';b'"

quoted-Inert : Inert 0 quoted
quoted-Inert = Inert.plain refl (
    Inert.plain refl (
      Inert.single {body = codes ";b"} (Literal.plain refl (Literal.plain refl Literal.nil))
        Inert.nil))

top_level_separator-Operator_example : top_level_separator (quoted ++ codes ";c") ≡ some semicolon
top_level_separator-Operator_example =
    top_level_separator-Operator quoted-Inert (at_semicolon (codes "c"))

abbrev standard : Text → Standard
standard id = record {
  id = id;
  text = codes "No panics.";
  severity = should;
  roles = codes "reviewer" ∷ codes "developer" ∷ [];
}

abbrev raw : YamlStandard
raw = record {
  id = codes "no-panic";
  text = codes " No panics.";
  severity = codes "should";
  roles = codes "reviewer" ∷ codes "developer" ∷ [];
}

standard-IsStandard : IsStandard (standard (codes "no-panic"))
unfolding kebab_token is_blank trim_space first_rune has injection_text byte_len
standard-IsStandard = record {
  id_kebab = refl;
  text_shown = refl;
  text_trimmed = refl;
  text_plain = refl;
  roles_declared = refl;
  roles_known = (refl, (refl, tt));
  roles_once = (refl, (refl, tt));
  bounded = omega arith;
}

abbrev yaml_file : YamlFile
yaml_file = record { version = pos 1; standards = raw ∷ []; checks = [] }

abbrev yaml : Yaml
yaml = record { decode = λ bytes. decoded yaml_file; at_end = λ bytes. true; root = λ bytes. none }

parse-IsFile_example :
    (r : YamlFile) × (decoded yaml_file ≡ decoded r)
    × (◌≡◌ {A = Bool} true true)
    × (reject_null_entries none ≡ ok tt)
    × (length (codes "file") ≤ max_file_bytes)
    × IsFile (record { standards = standard (codes "no-panic") ∷ []; checks = [] })
    × Declares r (record { standards = standard (codes "no-panic") ∷ []; checks = [] })
unfolding parse parse_raw parse_standards validate_standard kebab_token is_blank has trim_space
    reject_null_entries byte_len identity_key injection_text prior_id parse_checks
parse-IsFile_example = parse-IsFile yaml (codes "file") refl

abbrev secret_env : List (Text × Text)
secret_env = (codes "TOKEN", codes "s3cret") ∷ []

scrub-contains_example :
    contains (scrub (new_scrubber secret_env) (codes "echo s3cret")) (codes "s3cret") ≡ false
unfolding is_blank
scrub-contains_example =
    scrub-contains secret_env (codes "s3cret") (codes "echo s3cret") (Memᴰ.head refl) refl
      (refl, (refl, (refl, (refl, (refl, (refl, tt))))))
