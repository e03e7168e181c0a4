-- ===== src/Runspace.antt =====
-- The registry of warm sandboxes of internal/runspace/sandboxes.go. The map is a list of its entries, one
-- for each run; Go closes them in any order, the model in that of the list. The lock makes each method
-- one step, but for the calls of the runner, which stand outside it.
pub mod Registry
pub mod Leaks
pub mod Table
pub mod Pathguard
pub mod Diffs
pub mod Named
pub mod Targets
pub mod Patcher
pub mod Permit
pub mod Landing
pub mod Contained
use semdev.Base.{
  Bool, true, false, List, [], ◌∷◌, Option, none, some, if◌then◌else◌, Text, same, is_empty, Result,
  ok, err,
}
use semdev.Runner.{Runner, Sandbox}

-- `warmSandbox`
pub record Warm (World : Type 0) : Type 0 where
  pub runner : Runner World
  pub sandbox : Sandbox

pub data RunspaceError : Type 0 where
  no_run_id : RunspaceError
  not_up : Text → Text → RunspaceError
  not_warm : Text → RunspaceError

abbrev pub Entries : Type 0 → Type 0
Entries World = List (Text × Warm World)

abbrev keep_error : Text → Option Text → List (Text × Text) → List (Text × Text)
keep_error run none errs = errs
keep_error run (some e) errs = (run, e) ∷ errs

module _ {World : Type 0} where
  unfoldable pub find : Text → Entries World → Option (Warm World)
  find run [] = none
  find run ((r, warm) ∷ es) = let later = find run es in if same r run then some warm else later

  unfoldable pub drop : Text → Entries World → Entries World
  drop run [] = []
  drop run ((r, warm) ∷ es) =
      let later = drop run es in if same r run then later else (r, warm) ∷ later

  abbrev pub tear_down : Option (Warm World) → World → Option Text × World
  tear_down none w = (none, w)
  tear_down (some warm) w = warm.runner.down w warm.sandbox

  -- What follows `Up`: the new entry takes the place of a prior one, which is torn down.
  abbrev pub record_warm :
      Text
      → Runner World
      → Entries World
      → Result Text Sandbox × World
      → (Result RunspaceError Sandbox × Entries World) × World
  record_warm run runner es (err e, w) = ((err (not_up run e), es), w)
  record_warm run runner es (ok sb, w) = (
    (ok sb, (run, record { runner = runner; sandbox = sb }) ∷ drop run es),
    (tear_down (find run es) w).1,
  )

  -- `Provision`; the runner is that of the image.
  unfoldable pub provision :
      (Text → Runner World)
      → Text
      → Text
      → Text
      → List Text
      → Entries World
      → World
      → (Result RunspaceError Sandbox × Entries World) × World
  unfolding find drop
  provision new_runner run image dir envs es w =
      if is_empty run
      then ((err no_run_id, es), w)
      else record_warm run (new_runner image) es ((new_runner image).up w dir envs)

  -- `Resolve`
  unfoldable pub resolve : Text → Entries World → Result RunspaceError (Warm World)
  unfolding find
  resolve run es = elim (find run es) [ none ↦ err (not_warm run) | some warm ↦ ok warm ]

  -- `Down`
  unfoldable pub down : Text → Entries World → World → (Option Text × Entries World) × World
  unfolding find drop
  down run es w = let (e, w') = tear_down (find run es) w in ((e, drop run es), w')

  -- The loop of `CloseAll` and its errors.
  unfoldable pub close : Entries World → World → List (Text × Text) × World
  close [] w = ([], w)
  close ((run, warm) ∷ es) w =
      let (e, w') = warm.runner.down w warm.sandbox in
      let (errs, w'') = close es w' in (keep_error run e errs, w'')

  -- `CloseAll`: the registry is empty from then on.
  unfoldable pub close_all : Entries World → World → (List (Text × Text) × Entries World) × World
  unfolding close
  close_all es w = let (errs, w') = close es w in ((errs, []), w')
