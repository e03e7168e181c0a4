-- ===== src/Runspace/Patcher.antt =====
-- `Patcher.Apply` of internal/runspace/patcher.go, with the checkouts, the reader of the approved files, the
-- git command and the temporary file as calls of the world.
use semdev.Base.{
  ℤ, is_nat, true, false, not, List, [], ◌∷◌, ◌++◌, map, Text, codes, has, is_empty, is_blank,
  trim_space, Result, ok, err,
}
use semdev.Base.Stateful.{Action, ◌>>=◌, ◌>>◌, give, require}
use semdev.Runspace.Pathguard.{PathError, safe_join}
use semdev.Runspace.Diffs.{DiffError, parse_diff_targets}

-- `cliexec.Result`
pub record CommandResult : Type 0 where
  pub stdout : Text
  pub stderr : Text
  pub exit_code : ℤ

pub data PatchError : Type 0 where
  empty_diff : PatchError
  no_checkout : Text → PatchError
  git_not_run : List Text → Text → PatchError
  git_failed : List Text → CommandResult → PatchError
  bad_diff : DiffError → PatchError
  no_targets : PatchError
  bad_path : PathError → PatchError
  not_read : Text → PatchError
  no_target_files : PatchError
  out_of_contract : Text → PatchError
  no_patch_file : Text → PatchError
  empty_sha : PatchError

pub record Patcher (World : Type 0) : Type 0 where
  pub root : World → Text → Result Text (List Text) × World
  pub read_target_files : World → Text → Result Text (List Text) × World
  pub git : World → List Text → List Text → Result Text CommandResult × World
  pub create_temp : World → Result Text Text × World
  pub write_temp : World → Text → Text → Result Text (Unit {0}) × World
  pub remove_temp : World → Text → World

abbrev pub reset_args : List Text
reset_args = codes "reset" ∷ codes "--hard" ∷ codes "-q" ∷ []

abbrev pub clean_args : List Text
clean_args = codes "clean" ∷ codes "-ffdq" ∷ []

abbrev pub apply_args : Text → List Text
apply_args file = codes "apply" ∷ codes "-p1" ∷ file ∷ []

abbrev pub add_args : List Text → List Text
add_args targets = codes "add" ∷ codes "--" ∷ map (λ t. codes ":(literal)" ++ t) targets

abbrev pub commit_args : List Text
commit_args =
    codes "commit"
    ∷ codes "-q"
    ∷ codes "--no-gpg-sign"
    ∷ codes "-m"
    ∷ codes "attempt: apply_patch"
    ∷ []

abbrev pub rev_parse_args : List Text
rev_parse_args = codes "rev-parse" ∷ codes "HEAD" ∷ []

abbrev pub told : {W E A : Type 0} → (E → PatchError) → Result E A × W → Result PatchError A × W
told fault (err e, w) = (err (fault e), w)
told fault (ok a, w) = (ok a, w)

-- Every target lies in the checkout.
abbrev pub guarded : List Text → List Text → Result PathError (Unit {0})
guarded root [] = ok tt
guarded root (t ∷ ts) = elim (safe_join root t) [ err e ↦ err e | ok path ↦ guarded root ts ]

-- The first target that is not among the approved files.
abbrev pub within_contract : List Text → List Text → Result Text (Unit {0})
within_contract allowed [] = ok tt
within_contract allowed (t ∷ ts) = elim (has allowed t) [
  | true ↦ within_contract allowed ts
  | false ↦ err t
]

module _ {World : Type 0} where
  -- A call of the world, its error told as the patcher tells it.
  unfoldable pub call :
      {E A : Type 0} → (E → PatchError) → (World → Result E A × World) → Action World PatchError A
  call fault f w = told fault (f w)

  abbrev pub settle : {E A : Type 0} → (E → PatchError) → Result E A → Action World PatchError A
  settle fault (err e) w = (err (fault e), w)
  settle fault (ok a) w = (ok a, w)

  module _ (p : Patcher World) where
    -- A git command that must exit with 0.
    unfoldable pub run_git : List Text → List Text → Action World PatchError CommandResult
    unfolding call ◌>>=◌ require
    run_git root args = do
      res ← call (git_not_run args) (λ w. p.git w root args)
      require (is_nat res.exit_code 0) (git_failed args res)
      give res

    -- `Patcher.reset`
    unfoldable pub reset : List Text → Action World PatchError CommandResult
    unfolding run_git ◌>>=◌
    reset root = do reset_done ← run_git root reset_args; run_git root clean_args

    -- `Patcher.commit`
    unfoldable pub commit : List Text → List Text → Action World PatchError Text
    unfolding run_git trim_space ◌>>=◌ require
    commit root targets = do
      added ← run_git root (add_args targets)
      committed ← run_git root commit_args
      res ← run_git root rev_parse_args
      require (not (is_empty (trim_space res.stdout))) empty_sha
      give (trim_space res.stdout)

    -- The patch file, written and applied.
    unfoldable pub apply_file : List Text → Text → Text → Action World PatchError CommandResult
    unfolding run_git call ◌>>=◌
    apply_file root diff file = do
      call no_patch_file (λ w. p.write_temp w file diff)
      run_git root (apply_args file)

    unfoldable pub apply_and_commit :
        List Text → Text → List Text → Text → Action World PatchError (List Text × Text)
    unfolding apply_file commit ◌>>=◌
    apply_and_commit root diff targets file = do
      applied ← apply_file root diff file
      sha ← commit root targets
      give (targets, sha)

    -- The rest of the function, and the deferred removal of the file.
    abbrev pub removing :
        Text → {A : Type 0} → Result PatchError A × World → Result PatchError A × World
    removing file (r, w) = (r, p.remove_temp w file)

    unfoldable pub with_file :
        List Text → Text → List Text → Action World PatchError (List Text × Text)
    unfolding apply_and_commit call ◌>>=◌
    with_file root diff targets = do
      file ← call no_patch_file p.create_temp
      λ w. removing file (apply_and_commit root diff targets file w)

    -- `Patcher.Apply`
    unfoldable pub apply : Text → Text → Action World PatchError (List Text × Text)
    unfolding call require reset with_file is_blank parse_diff_targets safe_join has ◌>>=◌
    apply run diff = do
      require (not (is_blank diff)) empty_diff
      root ← call no_checkout (λ w. p.root w run)
      cleaned ← reset root
      targets ← settle bad_diff (parse_diff_targets diff)
      require (not (is_empty targets)) no_targets
      settle bad_path (guarded root targets)
      allowed ← call not_read (λ w. p.read_target_files w run)
      require (not (is_empty allowed)) no_target_files
      settle out_of_contract (within_contract allowed targets)
      with_file root diff targets
