-- ===== src/Harness/Resolved.antt =====
-- What a manifest that `ResolveManifest` of internal/harness/customizations.go returns is.
use semdev.Base.{
  ℕ, ◌≡◌, refl, ap, subst, inl, inr, true, false, ◌||◌, List, [], ◌∷◌, Option, Text, same, same_iff,
  has, is_empty, All, Result, ok, guard-eq-ok, >>=-eq-ok, ok-injective, Bool-cases,
}
use semdev.Harness.{ImageDecl, Manifest, missing_run_fields}
use semdev.Harness.Resolution.{
  Customizations, declared, convention, read_customizations, overlay, valid_env_name,
  invalid_cache_home_envs, dedupe_from, dedupe, is_found, resolve_manifest,
}

-- No name occurs twice.
abbrev pub Unrepeated : List Text → Type 0
Unrepeated [] = Unit
Unrepeated (n ∷ ns) = (has ns n ≡ false) × Unrepeated ns

-- The manifest of a checkout: all that the cold proofs need, the operator's field where there is one.
pub record IsManifest (decode : List ℕ → Result Text (Option Customizations)) (profile : Text)
    (image : ImageDecl) (json : List ℕ) (m : Manifest) : Type 0 where
  pub custom : Option Customizations
  pub was_read : read_customizations decode json ≡ ok custom
  pub image_declared : declared image ≡ true
  pub some_source : ((convention profile).1 || is_found custom) ≡ true
  pub complete : is_empty (missing_run_fields m) ≡ true
  pub names_valid : All (λ n. valid_env_name n ≡ true) m.cache_home_envs
  pub unrepeated : Unrepeated m.cache_home_envs
  pub overlaid : m ≡ (
      let laid =
        overlay custom (record (convention profile).0 { profile = profile; image = image }) in
      record laid { cache_home_envs = dedupe laid.cache_home_envs })

has-dedupe_from :
    (seen ns : List Text) (x : Text) → has seen x ≡ true → has (dedupe_from seen ns) x ≡ false
unfolding has dedupe_from
has-dedupe_from seen [] x h = refl
has-dedupe_from seen (n ∷ ns) x h = elim (Bool-cases (has seen n)) [
  | inl again ↦ rw again (has-dedupe_from seen ns x h)
  | inr first ↦ rw first (elim (Bool-cases (same n x)) [
    | inl it ↦ cc (ap (has seen) ((same_iff n x).0 it), first, h)
    | inr other ↦ rw other (has-dedupe_from (n ∷ seen) ns x (unfold has in rw other h))
  ])
]

Unrepeated-dedupe_from : (seen ns : List Text) → Unrepeated (dedupe_from seen ns)
unfolding dedupe_from
Unrepeated-dedupe_from seen [] = tt
Unrepeated-dedupe_from seen (n ∷ ns) = elim (Bool-cases (has seen n)) [
  | inl again ↦ rw again (Unrepeated-dedupe_from seen ns)
  | inr first ↦ rw first (
    has-dedupe_from (n ∷ seen) ns n (unfold has in rw ((same_iff n n).1 refl) refl),
    Unrepeated-dedupe_from (n ∷ seen) ns,
  )
]

All-dedupe_from {κ} :
    (P : Text → Type κ) (seen ns : List Text) → All P ns → All P (dedupe_from seen ns)
unfolding dedupe_from
All-dedupe_from P seen [] h = tt
All-dedupe_from P seen (n ∷ ns) (this, h) = elim (Bool-cases (has seen n)) [
  | inl again ↦ rw again (All-dedupe_from P seen ns h)
  | inr first ↦ rw first (this, All-dedupe_from P (n ∷ seen) ns h)
]

valid-All :
    (ns : List Text)
    → is_empty (invalid_cache_home_envs ns) ≡ true
    → All (λ n. valid_env_name n ≡ true) ns
unfolding invalid_cache_home_envs
valid-All [] h = tt
valid-All (n ∷ ns) h = elim (Bool-cases (valid_env_name n)) [
  | inl valid ↦ (valid, valid-All ns (rw valid at h))
  | inr invalid ↦ cc (rw invalid at h)
]

-- A manifest that ResolveManifest returns has a declared image, comes of a convention or of the
-- operator's customizations as read from the devcontainer file, misses no run field, names only
-- valid and no repeated cache homes, and is the convention overlaid with each customization that
-- is set, its cache homes without their repetitions.
pub resolve_manifest-IsManifest :
    (decode : List ℕ → Result Text (Option Customizations)) (profile : Text) (image : ImageDecl)
    (json : List ℕ) {m : Manifest}
    → resolve_manifest decode profile image json ≡ ok m
    → IsManifest decode profile image json m
unfolding resolve_manifest dedupe
resolve_manifest-IsManifest decode profile image json {m} h =
    let (image_declared, h₁) = guard-eq-ok (declared image) _ _ h in
    let (custom, was_read, h₂) = >>=-eq-ok (read_customizations decode json) _ h₁ in
    let (source, h₃) = guard-eq-ok ((convention profile).1 || is_found custom) _ _ h₂ in
    let laid =
      overlay custom (record (convention profile).0 { profile = profile; image = image }) in
    let (valid, h₄) =
      guard-eq-ok (is_empty (invalid_cache_home_envs laid.cache_home_envs)) _ _ h₃ in
    let (complete, h₅) = guard-eq-ok _ _ _ h₄ in
    subst (IsManifest decode profile image json) (ok-injective h₅) (record {
      custom = custom;
      was_read = was_read;
      image_declared = image_declared;
      some_source = source;
      complete = complete;
      names_valid =
          All-dedupe_from _ [] laid.cache_home_envs (valid-All laid.cache_home_envs valid);
      unrepeated = Unrepeated-dedupe_from [] laid.cache_home_envs;
      overlaid = refl;
    })
