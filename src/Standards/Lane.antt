-- ===== src/Standards/Lane.antt =====
-- The repo-declared checks lane: `Checks.Run` and `runOne` of internal/standards/checks.go, with the
-- commands run through the `Runner` interface. A finding's sentence is a constructor of `Detail`
-- with what it quotes. Logging changes no state and is left out; command output is valid UTF-8.
use semdev.Base.{
  ℕ, ◌-◌, Bool, true, false, not, List, [], ◌∷◌, ◌++◌, Option, none, some, ltb, if◌then◌else◌, Text,
  codes, is_empty, trim_space, byte_len, drop_bytes, ℤ, is_nat, Result, ok, err, map,
}
use semdev.Runner.{Sandbox, Output, Runner}
use semdev.Findings.{Finding}
use semdev.Standards.Decl.{Check, is_control}
use semdev.Standards.Parse.{Yaml, ParseError, File, parse}
use semdev.Standards.Snapshots.{Snapshot, Snapshots, lookup}

pub data Status : Type 0 where
  unproven proven : Status

pub data Detail : Type 0 where
  control_not_run command_not_run : Text → Detail
  exited_zero : Status → Text → Detail
  failed : Status → Text → ℤ → Text → Detail

pub data LaneError : Type 0 where
  partially_wired uncaptured : LaneError
  unparsed : ParseError → LaneError
  no_sandbox : Text → LaneError
  interrupted : Text → Text → LaneError
  passing_control : Text → Text → LaneError

abbrev pub tail_bytes : ℕ
tail_bytes = 400

abbrev pub flatten_rune : ℕ → ℕ
flatten_rune r = if is_control r then b' ' else r

unfoldable pub flatten_control : Text → Text
flatten_control = map flatten_rune

unfoldable pub snippet : Output → Text
unfolding flatten_control
snippet res =
    let out = trim_space (res.stderr ++ (b'\n' ∷ res.stdout)) in
    let tail =
      if ltb tail_bytes (byte_len out)
      then drop_bytes (0xfffd ∷ []) (byte_len out - tail_bytes) out
      else out in
    if is_empty out then [] else codes ": " ++ flatten_control tail

unfoldable pub finding : Check → Bool → Detail → Finding Detail
finding chk passed detail = record {
  floor = codes "repo-check:" ++ chk.name;
  passed = passed;
  detail = detail;
  advisory = not chk.required;
}

abbrev pub shell : Text → List Text
shell command = codes "sh" ∷ codes "-c" ∷ command ∷ []

-- What the exit of the check's own command makes of it.
unfoldable pub command_finding : Check → Status → Result Text Output → Finding Detail
unfolding finding snippet
command_finding chk status (err e) = finding chk false (command_not_run e)
command_finding chk status (ok res) =
    if is_nat res.exit_code 0
    then finding chk true (exited_zero status chk.command)
    else finding chk false (failed status chk.command res.exit_code (snippet res))

-- What the run of the negative control says: it could not run, it passed, or it failed as it must.
pub data Control : Type 0 where
  not_run : Text → Control
  passes fails : Control

abbrev pub control_of : Result Text Output → Control
control_of (err e) = not_run e
control_of (ok res) = if is_nat res.exit_code 0 then passes else fails

module _ {World : Type 0} where
  abbrev pub keep_finding :
      Finding Detail
      → Result LaneError (List (Finding Detail)) × World
      → Result LaneError (List (Finding Detail)) × World
  keep_finding f (ok fs, w) = (ok (f ∷ fs), w)
  keep_finding f (err e, w) = (err e, w)

  -- One check, and the loop over the others.
  abbrev pub and_then :
      Result LaneError (Finding Detail) × World
      → (World → Result LaneError (List (Finding Detail)) × World)
      → Result LaneError (List (Finding Detail)) × World
  and_then (err e, w) others = (err e, w)
  and_then (ok f, w) others = keep_finding f (others w)

module _ {World : Type 0} (runner : Runner World) (sb : Sandbox) where
  unfoldable pub run_command : Check → Status → World → Result LaneError (Finding Detail) × World
  unfolding command_finding
  run_command chk status w =
      let (r, w') = runner.exec w sb (shell chk.command) in (ok (command_finding chk status r), w')

  abbrev pub after_control : Check → Control → World → Result LaneError (Finding Detail) × World
  after_control chk (not_run e) w = (ok (finding chk false (control_not_run e)), w)
  after_control chk passes w = (err (passing_control chk.name chk.proof), w)
  after_control chk fails w = run_command chk proven w

  unfoldable pub run_one : Check → World → Result LaneError (Finding Detail) × World
  unfolding run_command
  run_one chk w =
      let (r, w') = runner.exec w sb (shell chk.proof) in
      if is_empty chk.proof then run_command chk unproven w else after_control chk (control_of r) w'

  -- The loop over the checks. `ctx_err` is `ctx.Err()`.
  unfoldable pub run_checks :
      (World → Option Text) → List Check → World → Result LaneError (List (Finding Detail)) × World
  unfolding run_one
  run_checks ctx_err [] w = (ok [], w)
  run_checks ctx_err (chk ∷ chks) w = elim (ctx_err w) [
    | some e ↦ (err (interrupted chk.name e), w)
    | none ↦ and_then (run_one chk w) (run_checks ctx_err chks)
  ]

-- The lane's two collaborators, each of them possibly not wired; `Resolve` gives the run's sandbox.
pub record Lane (World : Type 0) : Type 0 where
  pub provisioned : Option Snapshots
  pub resolve : Option (World → Text → Result Text Sandbox × World)
  pub runner : Runner World
  pub ctx_err : World → Option Text

module _ {World : Type 0} (yaml : Yaml) (lane : Lane World) where
  abbrev pub in_sandbox :
      List Check → Result Text Sandbox × World → Result LaneError (List (Finding Detail)) × World
  in_sandbox chks (err e, w) = (err (no_sandbox e), w)
  in_sandbox chks (ok sb, w) = run_checks lane.runner sb lane.ctx_err chks w

  abbrev pub run_file :
      (World → Text → Result Text Sandbox × World)
      → Text
      → Result ParseError File
      → World
      → Result LaneError (List (Finding Detail)) × World
  run_file resolve run (err e) w = (err (unparsed e), w)
  run_file resolve run (ok file) w =
      let started = in_sandbox file.checks (resolve w run) in
      if is_empty file.checks then (ok [], w) else started

  abbrev pub run_captured :
      (World → Text → Result Text Sandbox × World)
      → Text
      → Option Snapshot
      → World
      → Result LaneError (List (Finding Detail)) × World
  run_captured resolve run none w = (err uncaptured, w)
  run_captured resolve run (some snap) w =
      let read = run_file resolve run (parse yaml snap.raw) w in
      if not snap.declared then (ok [], w) else read

  abbrev pub run_wired :
      Option Snapshots
      → Option (World → Text → Result Text Sandbox × World)
      → Text
      → World
      → Result LaneError (List (Finding Detail)) × World
  run_wired (some snaps) (some resolve) run w = run_captured resolve run (lookup run snaps) w
  run_wired _ _ run w = (err partially_wired, w)

  unfoldable pub run_lane : Text → World → Result LaneError (List (Finding Detail)) × World
  unfolding run_checks
  run_lane run w = run_wired lane.provisioned lane.resolve run w
