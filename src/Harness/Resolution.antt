-- ===== src/Harness/Resolution.antt =====
-- How the run manifest of a checkout is put together: `Convention` of internal/harness/manifest.go and
-- `ResolveManifest` of internal/harness/customizations.go. The JSON decoder of the devcontainer file is
-- a parameter. A nil list and an empty one are not told apart, as the code asks only for lengths.
use semdev.Base.{
  ℕ, Bool, true, false, not, ◌&&◌, ◌||◌, List, [], ◌∷◌, Option, none, some, if◌then◌else◌, leb,
  ◌==◌, Text, codes, same, has, is_empty, is_blank, all, keep, Result, ok, err, ◌>>=◌, ◌>>◌, guard,
}
use semdev.Harness.{ImageDecl, Manifest, Tier, missing_run_fields}

abbrev pub go_profile : Text
go_profile = codes "go"

-- `ImageDecl.Declared`
unfoldable pub declared : ImageDecl → Bool
declared d = not (is_blank d.dockerfile) || not (is_blank d.devcontainer)

abbrev pub unset : Manifest
unset = record {
  profile = [];
  image = record { dockerfile = []; devcontainer = []; context = [] };
  cache_home_envs = [];
  resolve_cmd = [];
  build_cmd = [];
  test_cmd = [];
  tiers = [];
  secret_refs = [];
}

-- `GoProfile`
abbrev pub go_manifest : Manifest
go_manifest = record unset {
  profile = go_profile;
  cache_home_envs = codes "GOMODCACHE" ∷ codes "GOCACHE" ∷ [];
  resolve_cmd = codes "go" ∷ codes "mod" ∷ codes "download" ∷ [];
  build_cmd = codes "go" ∷ codes "build" ∷ codes "./..." ∷ [];
  test_cmd = codes "go" ∷ codes "test" ∷ codes "./..." ∷ [];
  tiers = record { name = codes "unit"; scope = codes "sandbox"; proves = codes "unit" ∷ [] } ∷ [];
}

-- `Convention`: the manifest, and whether there is one.
unfoldable pub convention : Text → Manifest × Bool
convention profile = if same profile go_profile then (go_manifest, true) else (unset, false)

-- A command as the JSON has it; `null` decodes as an empty array.
pub data Json : Type 0 where
  strings : List Text → Json
  text : Text → Json
  other : Json

-- `Command.UnmarshalJSON`; an absent command is empty.
unfoldable pub unmarshal_command : Json → Option (List Text)
unmarshal_command (strings argv) = some argv
unmarshal_command (text s) = some (if is_blank s then [] else codes "sh" ∷ codes "-c" ∷ s ∷ [])
unmarshal_command other = none

pub record Customizations : Type 0 where
  pub resolve_command : List Text
  pub build_command : List Text
  pub test_command : List Text
  pub tiers : List Tier
  pub secret_refs : List Text
  pub cache_home_envs : List Text

pub data ManifestError : Type 0 where
  undeclared_image undeclared_profile : Text → ManifestError
  malformed : Text → ManifestError
  invalid_envs missing_fields : Text → List Text → ManifestError

-- `ReadCustomizations`; the decoder gives none where the file has no such block.
unfoldable pub read_customizations :
    (List ℕ → Result Text (Option Customizations))
    → List ℕ
    → Result ManifestError (Option Customizations)
read_customizations decode [] = ok none
read_customizations decode (b ∷ bytes) = elim (decode (b ∷ bytes)) [
  | ok c ↦ ok c
  | err e ↦ err (malformed e)
]

-- `if len(set) > 0 { field = set }`
abbrev pub override {ℓ} : {A : Type ℓ} → List A → List A → List A
override [] field = field
override (x ∷ xs) field = x ∷ xs

abbrev pub overlay : Option Customizations → Manifest → Manifest
overlay none m = m
overlay (some c) m = record m {
  resolve_cmd = override c.resolve_command m.resolve_cmd;
  build_cmd = override c.build_command m.build_cmd;
  test_cmd = override c.test_command m.test_cmd;
  tiers = override c.tiers m.tiers;
  secret_refs = override c.secret_refs m.secret_refs;
  cache_home_envs = override c.cache_home_envs m.cache_home_envs;
}

abbrev pub is_letter : ℕ → Bool
is_letter r = r == b'_' || ((leb b'A' r && leb r b'Z') || (leb b'a' r && leb r b'z'))

abbrev pub is_name_part : ℕ → Bool
is_name_part r = is_letter r || (leb b'0' r && leb r b'9')

-- `validEnvName`
unfoldable pub valid_env_name : Text → Bool
valid_env_name [] = false
valid_env_name (r ∷ rs) = is_letter r && all is_name_part rs

unfoldable pub invalid_cache_home_envs : List Text → List Text
unfolding valid_env_name
invalid_cache_home_envs names = keep (λ n. not (valid_env_name n)) names

-- The loop of `dedupe` with the names seen.
unfoldable pub dedupe_from : List Text → List Text → List Text
dedupe_from seen [] = []
dedupe_from seen (n ∷ ns) =
    let again = dedupe_from seen ns in
    let first = dedupe_from (n ∷ seen) ns in if has seen n then again else n ∷ first

unfoldable pub dedupe : List Text → List Text
unfolding dedupe_from
dedupe names = dedupe_from [] names

abbrev pub is_found : Option Customizations → Bool
is_found none = false
is_found (some c) = true

-- `ResolveManifest`
unfoldable pub resolve_manifest :
    (List ℕ → Result Text (Option Customizations))
    → Text
    → ImageDecl
    → List ℕ
    → Result ManifestError Manifest
unfolding declared convention read_customizations invalid_cache_home_envs dedupe
resolve_manifest decode profile image json = do
  let (base, known) = convention profile
  guard (declared image) (undeclared_image profile)
  custom ← read_customizations decode json
  let m = overlay custom (record base { profile = profile; image = image })
  guard (known || is_found custom) (undeclared_profile profile)
  let bad = invalid_cache_home_envs m.cache_home_envs
  guard (is_empty bad) (invalid_envs profile bad)
  let whole = record m { cache_home_envs = dedupe m.cache_home_envs }
  let missing = missing_run_fields whole
  guard (is_empty missing) (missing_fields profile missing)
  ok whole
