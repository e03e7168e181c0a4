-- ===== src/Runspace/Landing.antt =====
-- The git commands of `Patcher.Apply` of internal/runspace/patcher.go, one after the other.
use semdev.Base.{
  ◌≡◌, refl, sym, ap, ◌∙◌, subst, Bool, true, false, not, List, ◌∷◌, Text, is_empty, trim_space,
  Result, ok, err, is_nat, not-true,
}
use semdev.Base.Stateful.{
  Action, ◌>>=◌, ◌>>◌, give, require, Ends, stopped, went_on, bind-Ends, require-Ends,
}
use semdev.Runspace.Patcher.{
  CommandResult, PatchError, Patcher, git_not_run, git_failed, empty_sha, no_patch_file, reset_args,
  clean_args, apply_args, add_args, commit_args, rev_parse_args, call, told, settle, run_git, reset,
  commit, apply_file, apply_and_commit, removing, with_file,
}
use semdev.Runspace.Permit.{
  Effect, git_run, written, was_done, cleaned, wrote, passed, exited_zero, applied, IsCheckout,
  Observed, Permitted, Stage, was_reset, was_cleaned, patched, staged, committed, told_sha, landed,
}

module _ {World : Type 0} {Stopped : World → Type 0} where
  pub told-Ends :
      {E A : Type 0} {Q : A → World → Type 0} (fault : E → PatchError) (r : Result E A × World)
      → Stopped r.1
      → ((a : A) → r.0 ≡ ok a → Q a r.1)
      → Ends Stopped Q (told fault r)
  told-Ends fault (err e, w) halt more = stopped halt
  told-Ends fault (ok a, w) halt more = went_on (more a refl)

  pub call-Ends :
      {E A : Type 0} {Q : A → World → Type 0} (fault : E → PatchError)
      (f : World → Result E A × World) (w : World)
      → Stopped (f w).1
      → ((a : A) → (f w).0 ≡ ok a → Q a (f w).1)
      → Ends Stopped Q (call fault f w)
  unfolding call
  call-Ends fault f w = told-Ends fault (f w)

  pub settle-Ends :
      {E A : Type 0} {Q : A → World → Type 0} (fault : E → PatchError) (r : Result E A) (w : World)
      → Stopped w
      → ((a : A) → r ≡ ok a → Q a w)
      → Ends Stopped Q (settle fault r w)
  settle-Ends fault (err e) w halt more = stopped halt
  settle-Ends fault (ok a) w halt more = went_on (more a refl)

module _ {World : Type 0} (p : Patcher World) (log : World → List Effect) (o : Observed p log) where
  run_git-Ends :
      (St : List Effect → Type 0) (root args : List Text) (w : World)
      → ((z : Bool) → St (git_run root args z ∷ log w))
      → Ends (λ u. St (log u)) (λ res u. log u ≡ passed root args ∷ log w) (run_git p root args w)
  unfolding run_git
  run_git-Ends St root args w h =
      let after = o.git_log w root args in
      let st : St (log (p.git w root args).1) = subst St (sym after) (h _) in
      bind-Ends (λ res u. (log u ≡ git_run root args (is_nat res.exit_code 0) ∷ log w) × St (log u))
        (call (git_not_run args) (λ w. p.git w root args))
        (λ res. require (is_nat res.exit_code 0) (git_failed args res) >> give res) w
        (call-Ends (git_not_run args) (λ w. p.git w root args) w st
          (λ res e. (after ∙ ap (λ r. git_run root args (exited_zero r) ∷ log w) e, st)))
        (λ res u k.
          bind-Ends (λ done v. log v ≡ passed root args ∷ log w)
            (require (is_nat res.exit_code 0) (git_failed args res)) (λ done. give res) u
            (require-Ends (is_nat res.exit_code 0) (git_failed args res) u k.1
              (λ zero. k.0 ∙ ap (λ z. git_run root args z ∷ log w) zero))
            (λ done v k. went_on k))

  -- A git command on a log that is known.
  git-Ends :
      (St : List Effect → Type 0) (root args : List Text) (w : World) (l : List Effect)
      → log w ≡ l
      → ((z : Bool) → St (git_run root args z ∷ l))
      → Ends (λ u. St (log u)) (λ res u. log u ≡ passed root args ∷ l) (run_git p root args w)
  git-Ends St root args w l e h =
      subst
        (λ l.
          Ends (λ u. St (log u)) (λ res u. log u ≡ passed root args ∷ l) (run_git p root args w))
        e
        (run_git-Ends St root args w (λ z. subst (λ l. St (git_run root args z ∷ l)) (sym e) (h z)))

  module _ (run diff : Text) (before : List Effect) where
    abbrev pub IsStage : List Effect → Type 0
    IsStage = Stage p log run diff before

    abbrev pub Halted : World → Type 0
    Halted u = IsStage (log u)

    pub reset-Ends :
        (root : List Text) (w : World)
        → IsCheckout p log run root
        → log w ≡ before
        → Ends Halted (λ res u. log u ≡ cleaned before root) (reset p root w)
    unfolding reset
    reset-Ends root w at h =
        bind-Ends (λ res u. log u ≡ passed root reset_args ∷ before) (run_git p root reset_args)
          (λ res. run_git p root clean_args) w
          (git-Ends IsStage root reset_args w before h (λ z. was_reset root z at))
          (λ res u k.
            git-Ends IsStage root clean_args u (passed root reset_args ∷ before) k
              (λ z. was_cleaned root z at))

    -- A patch has landed.
    abbrev pub HasLanded : List Text × Text → World → Type 0
    HasLanded (ts, sha) u =
        (root : List Text) × Permitted p log run diff root ts
        × (is_empty sha ≡ false)
        × (file : Text) × (log u ≡ landed before root diff ts file)

    module _ (ts : List Text) (root : List Text) (ok_ts : Permitted p log run diff root ts)
        (file : Text) where
      commit-Ends :
          (w : World)
          → log w ≡ applied before root diff file
          → Ends Halted
              (λ sha u. (is_empty sha ≡ false) × (log u ≡ landed before root diff ts file))
              (commit p root ts w)
      unfolding commit
      commit-Ends w h =
          bind-Ends (λ res u. log u ≡ passed root (add_args ts) ∷ applied before root diff file)
            (run_git p root (add_args ts)) (λ added. committing) w
            (git-Ends IsStage root (add_args ts) w _ h (λ z. staged root ts file z ok_ts refl))
            (λ res u k.
              bind-Ends
                (λ res v.
                  log v
                  ≡ passed root commit_args
                    ∷ passed root (add_args ts)
                    ∷ applied before root diff file)
                (run_git p root commit_args) (λ committed. reading) u
                (git-Ends IsStage root commit_args u _ k (λ z. committed root ts file z ok_ts refl))
                (λ res v k.
                  bind-Ends (λ res x. log x ≡ landed before root diff ts file)
                    (run_git p root rev_parse_args) sha_of v
                    (git-Ends IsStage root rev_parse_args v _ k
                      (λ z. told_sha root ts file z ok_ts refl))
                    (λ res x k.
                      bind-Ends
                        (λ done y.
                          (is_empty (trim_space res.stdout) ≡ false)
                          × (log y ≡ landed before root diff ts file))
                        (require (not (is_empty (trim_space res.stdout))) empty_sha)
                        (λ done. give (trim_space res.stdout)) x
                        (require-Ends (not (is_empty (trim_space res.stdout))) empty_sha x
                          (subst IsStage (sym k) (told_sha root ts file true ok_ts refl))
                          (λ t. (not-true (is_empty (trim_space res.stdout)) t, k)))
                        (λ done y k. went_on k))))
        where
          sha_of : CommandResult → Action World PatchError Text
          sha_of res =
              require (not (is_empty (trim_space res.stdout))) empty_sha
              >> give (trim_space res.stdout)

          reading : Action World PatchError Text
          reading = run_git p root rev_parse_args >>= sha_of

          committing : Action World PatchError Text
          committing = run_git p root commit_args >>= λ committed. reading

      write-Ends :
          (w : World)
          → log w ≡ cleaned before root
          → Ends Halted
              (λ done u. log u ≡ written file diff true ∷ cleaned before root)
              (call no_patch_file (λ w. p.write_temp w file diff) w)
      write-Ends w h =
          let logged = o.write_log w file diff in
          call-Ends no_patch_file (λ w. p.write_temp w file diff) w
            (subst IsStage (sym logged) (wrote root ts file _ ok_ts h))
            (λ done e.
              logged
              ∙ ap (λ r. written file diff (was_done r) ∷ log w) e
              ∙ ap (λ l. written file diff true ∷ l) h)

      apply_and_commit-Ends :
          (w : World)
          → log w ≡ cleaned before root
          → Ends Halted HasLanded (apply_and_commit p root diff ts file w)
      unfolding apply_and_commit apply_file
      apply_and_commit-Ends w h =
          bind-Ends (λ res u. log u ≡ applied before root diff file) (apply_file p root diff file)
            (λ applied. committing) w
            (bind-Ends (λ done u. log u ≡ written file diff true ∷ cleaned before root)
              (call no_patch_file (λ w. p.write_temp w file diff))
              (λ done. run_git p root (apply_args file)) w (write-Ends w h)
              (λ done u k.
                git-Ends IsStage root (apply_args file) u _ k
                  (λ z. patched root ts file z ok_ts refl)))
            (λ res u k.
              bind-Ends
                (λ sha v. (is_empty sha ≡ false) × (log v ≡ landed before root diff ts file))
                (commit p root ts) (λ sha. give (ts, sha)) u (commit-Ends u k)
                (λ sha v k. went_on (root, ok_ts, k.0, file, k.1)))
        where
          committing : Action World PatchError (List Text × Text)
          committing = commit p root ts >>= λ sha. give (ts, sha)

      removing-Ends :
          {A : Type 0} {Q : A → World → Type 0} (r : Result PatchError A × World)
          → ((a : A) (u : World) → Q a u → Q a (p.remove_temp u file))
          → Ends Halted Q r
          → Ends Halted Q (removing p file r)
      removing-Ends (err e, w) keep (stopped h) =
          stopped (subst IsStage (sym (o.remove_log w file)) h)
      removing-Ends (ok a, w) keep (went_on h) = went_on (keep a w h)

    pub with_file-Ends :
        (ts : List Text) (root : List Text) (w : World)
        → Permitted p log run diff root ts
        → log w ≡ cleaned before root
        → Ends Halted HasLanded (with_file p root diff ts w)
    unfolding with_file
    with_file-Ends ts root w ok_ts h =
        bind-Ends (λ file u. log u ≡ cleaned before root) (call no_patch_file p.create_temp)
          (λ file w. removing p file (apply_and_commit p root diff ts file w)) w
          (call-Ends no_patch_file p.create_temp w
            (subst IsStage (sym (o.create_log w ∙ h)) (was_cleaned root true ok_ts.checkout))
            (λ file e. o.create_log w ∙ h))
          (λ file u k.
            removing-Ends ts root ok_ts file {Q = HasLanded}
              (apply_and_commit p root diff ts file u)
              (λ r v k. (k.0, k.1, k.2, k.3, o.remove_log v file ∙ k.4))
              (apply_and_commit-Ends ts root ok_ts file u k))
