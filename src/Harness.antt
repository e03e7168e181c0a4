-- ===== src/Harness.antt =====
-- The harness manifest that the cold proofs run: `Manifest` and `ImageDecl` of
-- internal/harness/manifest.go and `MissingRunFields` of internal/harness/customizations.go.
pub mod Resolution
pub mod Resolved
use semdev.Base.{List, [], ◌∷◌, ◌++◌, Text, codes}

pub record ImageDecl : Type 0 where
  pub dockerfile : Text
  pub devcontainer : Text
  pub context : Text

pub record Tier : Type 0 where
  pub name : Text
  pub scope : Text
  pub proves : List Text

pub record Manifest : Type 0 where
  pub profile : Text
  pub image : ImageDecl
  pub cache_home_envs : List Text
  pub resolve_cmd : List Text
  pub build_cmd : List Text
  pub test_cmd : List Text
  pub tiers : List Tier
  pub secret_refs : List Text

-- `if len(field) == 0 { missing = append(missing, name) }`
abbrev missing_field : List Text → Text → List Text
missing_field [] name = name ∷ []
missing_field (x ∷ xs) name = []

unfoldable pub missing_run_fields : Manifest → List Text
missing_run_fields m =
    missing_field m.resolve_cmd (codes "resolveCommand")
    ++ (missing_field m.build_cmd (codes "buildCommand")
        ++ (missing_field m.test_cmd (codes "testCommand")
            ++ missing_field m.cache_home_envs (codes "cacheHomeEnvs")))
