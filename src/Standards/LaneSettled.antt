-- ===== src/Standards/LaneSettled.antt =====
-- What the checks lane of internal/standards/checks.go has established when it returns findings: the
-- whole of `Checks.Run`.
use semdev.Base.{
  ◌≡◌, refl, true, false, List, [], ◌∷◌, Option, none, some, ◌⊎◌, inl, inr, All, Text, is_empty,
  Result, ok, err, Bool-cases, sym, ok-injective,
}
use semdev.Runner.{Sandbox}
use semdev.Findings.{Finding, any_rejected}
use semdev.Standards.Decl.{Check}
use semdev.Standards.Parse.{Yaml, File, parse, ParseError}
use semdev.Standards.Snapshots.{Snapshot, Snapshots, lookup}
use semdev.Standards.Lane.{Detail, Lane, in_sandbox, run_file, run_captured, run_wired, run_lane}
use semdev.Standards.LaneJudged.{AllJudged, run_checks-AllJudged}
use semdev.Standards.LaneGate.{floor_names, floors_of, Proved, run_checks-ok}

is_empty-nil {ℓ} : {A : Type ℓ} (l : List A) → is_empty l ≡ true → l ≡ []
is_empty-nil [] h = refl
is_empty-nil (x ∷ xs) h = cc

module _ {World : Type 0} (yaml : Yaml) (lane : Lane World) (run : Text) (w : World) where
  -- The run's sandbox was resolved, the checks ran in it one after the other from there on, each
  -- finding is what its check's runs say, and with no rejecting finding the required ones are proved.
  pub record InSandbox (resolve : World → Text → Result Text Sandbox × World) (cs : List Check)
      (fs : List (Finding Detail)) : Type 0 where
    pub sb : Sandbox
    pub started : World
    pub resolved : resolve w run ≡ (ok sb, started)
    pub found : AllJudged lane.runner sb lane.ctx_err started cs fs
    pub named : floors_of fs ≡ floor_names cs
    pub proved :
        (any_rejected fs ≡ true) ⊎ All (λ c. (c.required ≡ false) ⊎ Proved lane.runner sb c) cs

  -- What the findings say of the captured file: it is not declared and there are none, or it parses,
  -- and it has no checks and there are none, or they come of the checks in the run's sandbox.
  abbrev pub Outcome :
      (World → Text → Result Text Sandbox × World) → Snapshot → List (Finding Detail) → Type 0
  Outcome resolve snap fs =
      ((snap.declared ≡ false) × (fs ≡ []))
      ⊎ ((snap.declared ≡ true)
          × (file : File) × (parse yaml snap.raw ≡ ok file)
          × (((file.checks ≡ []) × (fs ≡ [])) ⊎ InSandbox resolve file.checks fs))

  -- What a lane that does not fault has established: the run's snapshot was captured, and the
  -- findings are those of its file.
  pub record Settled (fs : List (Finding Detail)) : Type 0 where
    pub snaps : Snapshots
    pub snap : Snapshot
    pub resolve : World → Text → Result Text Sandbox × World
    pub provisioned : lane.provisioned ≡ some snaps
    pub wired : lane.resolve ≡ some resolve
    pub captured : lookup run snaps ≡ some snap
    pub outcome : Outcome resolve snap fs

  in_sandbox-ok :
      (resolve : World → Text → Result Text Sandbox × World) (cs : List Check)
      {fs : List (Finding Detail)} (r : Result Text Sandbox × World)
      → resolve w run ≡ r
      → (in_sandbox yaml lane cs r).0 ≡ ok fs
      → InSandbox resolve cs fs
  in_sandbox-ok resolve cs (err e, w') is k = cc
  in_sandbox-ok resolve cs {fs} (ok sb, w') is k =
      let (named, proved) = run_checks-ok lane.runner sb lane.ctx_err cs w' k in
      record {
        sb = sb;
        started = w';
        resolved = is;
        found = run_checks-AllJudged lane.runner sb lane.ctx_err cs w' k;
        named = named;
        proved = elim (Bool-cases (any_rejected fs)) [ inl e ↦ inl e | inr e ↦ inr (proved e) ];
      }

  run_file-ok :
      (resolve : World → Text → Result Text Sandbox × World) (snap : Snapshot)
      (r : Result ParseError File) {fs : List (Finding Detail)}
      → snap.declared ≡ true
      → parse yaml snap.raw ≡ r
      → (run_file yaml lane resolve run r w).0 ≡ ok fs
      → Outcome resolve snap fs
  run_file-ok resolve snap (err e) declared is h = cc
  run_file-ok resolve snap (ok file) declared is h = elim (Bool-cases (is_empty file.checks)) [
    | inl none_declared ↦
        let nil = is_empty-nil file.checks none_declared in
        let none_found = ok-injective (rw none_declared at h) in
        inr (declared, file, is, inl (nil, sym none_found))
    | inr some_declared ↦
        let ran = rw some_declared at h in
        inr (declared, file, is, inr (in_sandbox-ok resolve file.checks (resolve w run) refl ran))
  ]

  run_captured-ok :
      (resolve : World → Text → Result Text Sandbox × World) (snap : Snapshot)
      {fs : List (Finding Detail)}
      → (run_captured yaml lane resolve run (some snap) w).0 ≡ ok fs
      → Outcome resolve snap fs
  run_captured-ok resolve snap h = elim (Bool-cases snap.declared) [
    | inl declared ↦ run_file-ok resolve snap (parse yaml snap.raw) declared refl (rw declared at h)
    | inr undeclared ↦ inl (undeclared, sym (ok-injective (rw undeclared at h)))
  ]

  -- When the repo-check lane returns findings it was wired and held a snapshot of the run. Either
  -- the snapshot is not declared or its file has no checks, and there are no findings; or the file
  -- parses, the run's sandbox was resolved, and the checks ran in it in order: each has one
  -- finding, under its name and advisory unless it is required, which passes exactly when its
  -- control, if it has one, ran first and exited nonzero and then its command exited zero; and if
  -- no finding rejects, the required checks are proved.
  pub run_lane-Settled :
      {fs : List (Finding Detail)} → (run_lane yaml lane run w).0 ≡ ok fs → Settled fs
  unfolding run_lane
  run_lane-Settled {fs} h = wired lane.provisioned lane.resolve refl refl h
    where
      captured :
          (snaps : Snapshots) (resolve : World → Text → Result Text Sandbox × World)
          (found : Option Snapshot)
          → lane.provisioned ≡ some snaps
          → lane.resolve ≡ some resolve
          → lookup run snaps ≡ found
          → (run_captured yaml lane resolve run found w).0 ≡ ok fs
          → Settled fs
      captured snaps resolve none p q e k = cc
      captured snaps resolve (some snap) p q e k = record {
        snaps = snaps;
        snap = snap;
        resolve = resolve;
        provisioned = p;
        wired = q;
        captured = e;
        outcome = run_captured-ok resolve snap k;
      }

      wired :
          (provisioned : Option Snapshots)
          (resolve : Option (World → Text → Result Text Sandbox × World))
          → lane.provisioned ≡ provisioned
          → lane.resolve ≡ resolve
          → (run_wired yaml lane provisioned resolve run w).0 ≡ ok fs
          → Settled fs
      wired none r p q k = cc
      wired (some snaps) none p q k = cc
      wired (some snaps) (some resolve) p q k = captured snaps resolve (lookup run snaps) p q refl k
