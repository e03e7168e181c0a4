-- ===== src/Cleanroom/Coldproof.antt =====
-- The shared cold-build core: internal/coldproof/coldproof.go. `shown` is `strconv.Itoa`, which the
-- code reaches through `fmt.Sprintf`; `lower` is `unicode.ToLower`. An output is valid UTF-8.
use semdev.Base.{
  ℕ, ◌-◌, Bool, true, false, not, List, [], ◌∷◌, ◌++◌, ltb, if◌then◌else◌, length, Text, codes,
  is_empty, trim_space, join, byte_len, drop_bytes, is_nat, Result, ok, err,
}
use semdev.Runner.{Sandbox, Output, Runner}
use semdev.Secrets.Scrub.{scrub}
use semdev.Cleanroom.Verify.{Input}
use semdev.Cleanroom.Classify.{
  ResolveClass, resolve_ok, resolve_failed, resolve_transport, classify_resolve,
}

pub record Evidence : Type 0 where
  pub completed : Bool
  pub transport : Text
  pub fresh_cache_homes : List Text
  pub cache_detail : Text
  pub resolved : Bool
  pub resolve_detail : Text
  pub prove_passed : Bool
  pub prove_detail : Text

-- The zero value of `Evidence`.
abbrev pub no_evidence : Evidence
no_evidence = record {
  completed = false;
  transport = [];
  fresh_cache_homes = [];
  cache_detail = [];
  resolved = false;
  resolve_detail = [];
  prove_passed = false;
  prove_detail = [];
}

abbrev pub max_excerpt : ℕ
max_excerpt = 400

-- A step's output, trimmed: the error stream, or the other one if that is blank.
abbrev pub output_text : Output → Text
output_text r = let out = trim_space r.stderr in if is_empty out then trim_space r.stdout else out

-- `excerpt` without its leading ": ", empty when there is no output.
unfoldable pub excerpt_text : Output → Text
excerpt_text r =
    let out = output_text r in
    if ltb max_excerpt (byte_len out) then drop_bytes [] (byte_len out - max_excerpt) out else out

unfoldable pub excerpt : Output → Text
unfolding excerpt_text
excerpt r = if is_empty (output_text r) then [] else codes ": " ++ excerpt_text r

-- `TrimPrefix` takes off the ": " that `excerpt` has put in front.
unfoldable pub excerpt_or : Output → Text → Text
unfolding excerpt_text
excerpt_or r fallback = if is_empty (output_text r) then fallback else excerpt_text r

unfoldable pub cache_detail_of : (ℕ → Text) → List Text → List Text → Text
cache_detail_of shown envs homes =
    shown (length homes)
    ++ (codes " fresh cache home(s) for "
        ++ (join (codes ", ") envs ++ (codes ": " ++ join (codes ", ") homes)))

-- What the proof is run with, apart from the world.
pub record Plan : Type 0 where
  pub root : Text
  pub cache_envs : List Text
  pub resolve_cmd : List Text
  pub prove_cmd : List Text
  pub scrubbed : List Text

module _ {World : Type 0} (runner : Runner World) (shown : ℕ → Text) (lower : ℕ → ℕ) where
  unfoldable pub exec_step : World → Sandbox → List Text → Result Text Output × World
  exec_step w sb [] = (err (codes "manifest declares an empty command"), w)
  exec_step w sb (a ∷ argv) = runner.exec w sb (a ∷ argv)

  unfoldable pub prove_result : Evidence → Result Text Output → Evidence
  prove_result ev (err e) = record ev {
    completed = false;
    transport = codes "prove step could not run: " ++ e;
  }
  prove_result ev (ok r) = record ev {
    completed = true;
    prove_passed = is_nat r.exit_code 0;
    prove_detail = excerpt_or r (codes "the prove step ran in fresh isolation");
  }

  -- What follows a resolve step that ran: the `switch` on its class, and the prove step.
  unfoldable pub after_resolve :
      Plan → Evidence → Sandbox → Output → ResolveClass × Text → World → Evidence × World
  unfolding exec_step prove_result
  after_resolve plan ev sb r (resolve_transport, detail) w =
      (record ev { completed = false; transport = detail }, w)
  after_resolve plan ev sb r (resolve_failed, detail) w =
      (record ev { completed = true; resolved = false; resolve_detail = detail ++ excerpt r }, w)
  after_resolve plan ev sb r (resolve_ok, detail) w =
      let (proved, w') = exec_step w sb plan.prove_cmd in
      (prove_result (record ev { resolved = true; resolve_detail = detail }) proved, w')

  unfoldable pub resolve_result :
      Plan → Evidence → Sandbox → Result Text Output → World → Evidence × World
  unfolding after_resolve
  resolve_result plan ev sb (err e) w =
      (record ev { completed = false; transport = codes "resolve step could not run: " ++ e }, w)
  resolve_result plan ev sb (ok r) w = after_resolve plan ev sb r (classify_resolve lower r) w

  abbrev pub fresh_evidence : Plan → Sandbox → Evidence
  fresh_evidence plan sb = record no_evidence {
    fresh_cache_homes = sb.cache_homes;
    cache_detail = cache_detail_of shown plan.cache_envs sb.cache_homes;
  }

  -- The two steps in the sandbox, before the deferred `Down`.
  unfoldable pub run_steps : Plan → Sandbox → World → Evidence × World
  unfolding resolve_result exec_step
  run_steps plan sb w =
      let (resolved, w') = exec_step w sb plan.resolve_cmd in
      resolve_result plan (fresh_evidence plan sb) sb resolved w'

  abbrev pub provisioned : Plan → Result Text Sandbox × World → Evidence × World
  provisioned plan (err e, w) =
      (record no_evidence { transport = codes "could not provision cold isolation: " ++ e }, w)
  provisioned plan (ok sb, w) = let (ev, w') = run_steps plan sb w in (ev, (runner.down w' sb).1)

  unfoldable pub gather_raw : Plan → World → Evidence × World
  unfolding run_steps
  gather_raw plan w = provisioned plan (runner.up w plan.root plan.cache_envs)

  abbrev pub scrub_evidence : List Text → Evidence → Evidence
  scrub_evidence values ev = record ev {
    transport = scrub values ev.transport;
    resolve_detail = scrub values ev.resolve_detail;
    prove_detail = scrub values ev.prove_detail;
  }

  unfoldable pub gather : Plan → World → Evidence × World
  unfolding gather_raw
  gather plan w = let (ev, w') = gather_raw plan w in (scrub_evidence plan.scrubbed ev, w')

unfoldable pub to_verify_input : Evidence → Input
to_verify_input ev = record {
  completed = ev.completed;
  transport_error = ev.transport;
  fresh_cache_home = not (is_empty ev.fresh_cache_homes);
  cache_home_detail = ev.cache_detail;
  resolved = ev.resolved;
  resolve_detail = ev.resolve_detail;
  tests_passed = ev.prove_passed;
  tests_detail = ev.prove_detail;
}
