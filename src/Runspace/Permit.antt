-- ===== src/Runspace/Permit.antt =====
-- What `Patcher.Apply` of internal/runspace/patcher.go leaves in a log, and what it must know before a
-- patch is applied.
use semdev.Base.{
  ◌≡◌, refl, inl, inr, Bool, true, false, is_nat, List, [], ◌∷◌, Text, All, has, is_empty, Result,
  ok, err, Bool-cases,
}
use semdev.Runspace.Pathguard.{PathError, safe_join}
use semdev.Runspace.Diffs.{parse_diff_targets}
use semdev.Runspace.Patcher.{
  CommandResult, Patcher, reset_args, clean_args, apply_args, add_args, commit_args, rev_parse_args,
  guarded, within_contract,
}

-- A git command, with where it ran and its arguments, or a write of a text to a file, and whether it
-- succeeded.
pub data Effect : Type 0 where
  git_run : (dir args : List Text) (zero : Bool) → Effect
  written : (file text : Text) (done : Bool) → Effect

abbrev pub passed : List Text → List Text → Effect
passed dir args = git_run dir args true

-- The log of a checkout that was made clean.
abbrev pub cleaned : List Effect → List Text → List Effect
cleaned before root = passed root clean_args ∷ passed root reset_args ∷ before

-- The log of a diff that was applied to it from a file.
abbrev pub applied : List Effect → List Text → Text → Text → List Effect
applied before root diff file =
    passed root (apply_args file) ∷ written file diff true ∷ cleaned before root

-- The log of a patch that landed.
abbrev pub landed : List Effect → List Text → Text → List Text → Text → List Effect
landed before root diff ts file =
    passed root rev_parse_args
    ∷ passed root commit_args
    ∷ passed root (add_args ts)
    ∷ applied before root diff file

abbrev pub was_done : Result Text (Unit {0}) → Bool
was_done (err e) = false
was_done (ok done) = true

-- One that could not be run did not.
abbrev pub exited_zero : Result Text CommandResult → Bool
exited_zero (err e) = false
exited_zero (ok res) = is_nat res.exit_code 0

module _ {World : Type 0} (p : Patcher World) (log : World → List Effect) where
  -- A world is observed by the git commands and the writes of a file, newest first; nothing else leaves
  -- anything.
  pub record Observed : Type 0 where
    pub root_log : (w : World) (id : Text) → log (p.root w id).1 ≡ log w
    pub read_log : (w : World) (id : Text) → log (p.read_target_files w id).1 ≡ log w
    pub git_log :
        (w : World) (root args : List Text)
        → log (p.git w root args).1 ≡ git_run root args (exited_zero (p.git w root args).0) ∷ log w
    pub create_log : (w : World) → log (p.create_temp w).1 ≡ log w
    pub write_log :
        (w : World) (file diff : Text)
        → log (p.write_temp w file diff).1
          ≡ written file diff (was_done (p.write_temp w file diff).0) ∷ log w
    pub remove_log : (w : World) (file : Text) → log (p.remove_temp w file) ≡ log w

  -- The checkout is the run's.
  pub record IsCheckout (run : Text) (root : List Text) : Type 0 where
    pub root_world : World
    pub root_read : (p.root root_world run).0 ≡ ok root

  -- The diff's targets are all of them in the checkout and among the approved files.
  pub record Permitted (run diff : Text) (root : List Text) (targets : List Text) : Type 0 where
    pub checkout : IsCheckout run root
    pub parsed : parse_diff_targets diff ≡ ok targets
    pub inside : All (λ t. (path : List Text) × (safe_join root t ≡ ok path)) targets
    pub allowed : List Text
    pub allowed_world : World
    pub allowed_read : (p.read_target_files allowed_world run).0 ≡ ok allowed
    pub approved : All (λ t. has allowed t ≡ true) targets
    pub filled : is_empty targets ≡ false

  -- How far a log has come. Of what a stage did only the last may have failed.
  pub data Stage (run diff : Text) (before : List Effect) : List Effect → Type 0 where
    untouched : Stage run diff before before
    was_reset :
        (root : List Text) (z : Bool)
        → IsCheckout run root
        → Stage run diff before (git_run root reset_args z ∷ before)
    was_cleaned :
        (root : List Text) (z : Bool)
        → IsCheckout run root
        → Stage run diff before (git_run root clean_args z ∷ passed root reset_args ∷ before)
    wrote :
        (root ts : List Text) (file : Text) (z : Bool) {l : List Effect}
        → Permitted run diff root ts
        → l ≡ cleaned before root
        → Stage run diff before (written file diff z ∷ l)
    patched :
        (root ts : List Text) (file : Text) (z : Bool) {l : List Effect}
        → Permitted run diff root ts
        → l ≡ written file diff true ∷ cleaned before root
        → Stage run diff before (git_run root (apply_args file) z ∷ l)
    staged :
        (root ts : List Text) (file : Text) (z : Bool) {l : List Effect}
        → Permitted run diff root ts
        → l ≡ applied before root diff file
        → Stage run diff before (git_run root (add_args ts) z ∷ l)
    committed :
        (root ts : List Text) (file : Text) (z : Bool) {l : List Effect}
        → Permitted run diff root ts
        → l ≡ passed root (add_args ts) ∷ applied before root diff file
        → Stage run diff before (git_run root commit_args z ∷ l)
    told_sha :
        (root ts : List Text) (file : Text) (z : Bool) {l : List Effect}
        → Permitted run diff root ts
        → l ≡ passed root commit_args ∷ passed root (add_args ts) ∷ applied before root diff file
        → Stage run diff before (git_run root rev_parse_args z ∷ l)

guarded-cons :
    (r : Result PathError (List Text)) (rest : Result PathError (Unit {0})) {done : Unit {0}}
    → ◌≡◌ {A = Result PathError (Unit {0})} (elim r [ err e ↦ err e | ok path ↦ rest ]) (ok done)
    → ((path : List Text) × (r ≡ ok path)) × (rest ≡ ok done)
guarded-cons (err e) rest h = cc
guarded-cons (ok path) rest h = ((path, refl), h)

pub guarded-All :
    (root targets : List Text) {done : Unit {0}}
    → guarded root targets ≡ ok done
    → All (λ t. (path : List Text) × (safe_join root t ≡ ok path)) targets
guarded-All root [] h = tt
guarded-All root (t ∷ ts) h =
    let (inside, rest) = guarded-cons (safe_join root t) (guarded root ts) h in
    (inside, guarded-All root ts rest)

pub within_contract-All :
    (allowed targets : List Text) {done : Unit {0}}
    → within_contract allowed targets ≡ ok done
    → All (λ t. has allowed t ≡ true) targets
within_contract-All allowed [] h = tt
within_contract-All allowed (t ∷ ts) h = elim (Bool-cases (has allowed t)) [
  | inl e ↦ (e, within_contract-All allowed ts (rw (e, within_contract) at h))
  | inr e ↦ cc (rw (e, within_contract) at h)
]
