-- ===== src/Tests/Manifests.antt =====
-- Manifests that internal/harness resolves.
use semdev.Base.{
  has, ℕ, ◌≡◌, refl, List, [], ◌∷◌, Option, some, Text, codes, Result, ok, is_blank, same,
}
use semdev.Harness.{ImageDecl, Manifest, missing_run_fields}
use semdev.Harness.Resolution.{
  Customizations, go_manifest, resolve_manifest, declared, convention, read_customizations,
  invalid_cache_home_envs, valid_env_name, dedupe, dedupe_from,
}
use semdev.Harness.Resolved.{IsManifest, resolve_manifest-IsManifest}

abbrev custom : Customizations
custom = record {
  resolve_command = [];
  build_command = [];
  test_command = codes "make" ∷ [];
  tiers = [];
  secret_refs = [];
  cache_home_envs = codes "GOCACHE" ∷ codes "GOCACHE" ∷ [];
}

abbrev decode : List ℕ → Result Text (Option Customizations)
decode bytes = ok (some custom)

abbrev image : ImageDecl
image = record { dockerfile = codes "Dockerfile"; devcontainer = []; context = [] }

abbrev overlaid : Manifest
overlaid = record go_manifest {
  image = image;
  test_cmd = codes "make" ∷ [];
  cache_home_envs = codes "GOCACHE" ∷ [];
}

resolved : resolve_manifest decode (codes "go") image (codes "{}") ≡ ok overlaid
unfolding resolve_manifest declared convention read_customizations invalid_cache_home_envs
    valid_env_name dedupe dedupe_from missing_run_fields is_blank same has
resolved = refl

resolve_manifest-IsManifest_example : IsManifest decode (codes "go") image (codes "{}") overlaid
resolve_manifest-IsManifest_example =
    resolve_manifest-IsManifest decode (codes "go") image (codes "{}") resolved
