-- ===== src/Runspace/Contained.antt =====
-- What `Patcher.Apply` of internal/runspace/patcher.go lets git do.
use semdev.Base.{
  ◌≡◌, refl, sym, ◌∙◌, subst, true, not, List, Text, All, has, is_empty, is_blank, ok, not-true,
}
use semdev.Base.Stateful.{Action, ◌>>=◌, ◌>>◌, require, Ends, bind-Ends, require-Ends}
use semdev.Runspace.Pathguard.{safe_join}
use semdev.Runspace.Diffs.{parse_diff_targets}
use semdev.Runspace.Patcher.{
  PatchError, Patcher, empty_diff, no_checkout, bad_diff, no_targets, bad_path, not_read,
  no_target_files, out_of_contract, call, settle, guarded, within_contract, reset, with_file, apply,
}
use semdev.Runspace.Permit.{
  Effect, cleaned, IsCheckout, Observed, Stage, untouched, was_cleaned, guarded-All,
  within_contract-All,
}
use semdev.Runspace.Landing.{
  call-Ends, settle-Ends, IsStage, Halted, reset-Ends, HasLanded, with_file-Ends,
}

module _ {World : Type 0} (p : Patcher World) (log : World → List Effect) (o : Observed p log) where
  -- With collaborators of which only a write of the patch file and a git command leave something
  -- in a log, with what was written, and where and with which arguments git ran, and whether it
  -- succeeded, Patcher.Apply does in one order: git reset and clean in the run's checkout, the
  -- write of the diff to a file, git apply of that file, add of the targets, commit and rev-parse,
  -- and stops at the first that fails, as only the last of the log may have failed. The patch is
  -- applied only where the diff's targets parse, there is one, each lies in the checkout by
  -- SafeJoin and each is among the files read as approved; added are those targets, literally.
  -- Where Apply succeeds it gives those targets and a commit that is not empty, and each of these
  -- steps was done and succeeded.
  pub apply-Ends :
      (run diff : Text) (w : World)
      → Ends
          (λ u. Stage p log run diff (log w) (log u))
          (HasLanded p log o run diff (log w))
          (apply p run diff w)
  unfolding apply
  apply-Ends run diff w =
      bind-Ends (λ done u. log u ≡ log w) (require (not (is_blank diff)) empty_diff)
        (λ done. rooted) w (require-Ends (not (is_blank diff)) empty_diff w untouched (λ t. refl))
        (λ done u k.
          bind-Ends (λ root v. (log v ≡ log w) × IsCheckout p log run root)
            (call no_checkout (λ w. p.root w run)) clean_first u
            (call-Ends no_checkout (λ w. p.root w run) u
              (subst (IsStage p log o run diff (log w)) (sym (o.root_log u run ∙ k)) untouched)
              (λ root e. (o.root_log u run ∙ k, record { root_world = u; root_read = e })))
            (λ root v k'.
              bind-Ends (λ res x. log x ≡ cleaned (log w) root) (reset p root)
                (λ res. targeted root) v (reset-Ends p log o run diff (log w) root v k'.1 k'.0)
                (λ res x h. targeted-Ends root x k'.1 h)))
    where
      permitted : List Text → List Text → List Text → Action World PatchError (List Text × Text)
      permitted root ts allowed =
          require (not (is_empty allowed)) no_target_files
          >> (settle out_of_contract (within_contract allowed ts) >> with_file p root diff ts)

      inside : List Text → List Text → Action World PatchError (List Text × Text)
      inside root ts =
          settle bad_path (guarded root ts)
          >> (call not_read (λ w. p.read_target_files w run) >>= permitted root ts)

      targeted : List Text → Action World PatchError (List Text × Text)
      targeted root = settle bad_diff (parse_diff_targets diff) >>= λ ts.
          require (not (is_empty ts)) no_targets >> inside root ts

      clean_first : List Text → Action World PatchError (List Text × Text)
      clean_first root = reset p root >>= λ res. targeted root

      rooted : Action World PatchError (List Text × Text)
      rooted = call no_checkout (λ w. p.root w run) >>= clean_first

      at_rest :
          (root : List Text) (x : World)
          → IsCheckout p log run root
          → log x ≡ cleaned (log w) root
          → IsStage p log o run diff (log w) (log x)
      at_rest root x at h =
          subst (IsStage p log o run diff (log w)) (sym h) (was_cleaned root true at)

      permitted-Ends :
          (root ts allowed : List Text) (x y : World)
          → IsCheckout p log run root
          → parse_diff_targets diff ≡ ok ts
          → not (is_empty ts) ≡ true
          → All (λ t. (path : List Text) × (safe_join root t ≡ ok path)) ts
          → (p.read_target_files y run).0 ≡ ok allowed
          → log x ≡ cleaned (log w) root
          → Ends
              (Halted p log o run diff (log w))
              (HasLanded p log o run diff (log w))
              (permitted root ts allowed x)
      permitted-Ends root ts allowed x y at parsed filled inside read h =
          bind-Ends (λ done z. log z ≡ cleaned (log w) root)
            (require (not (is_empty allowed)) no_target_files)
            (λ done.
              settle out_of_contract (within_contract allowed ts) >> with_file p root diff ts)
            x
            (require-Ends (not (is_empty allowed)) no_target_files x (at_rest root x at h) (λ t. h))
            (λ done z h.
              bind-Ends
                (λ done z. (log z ≡ cleaned (log w) root) × All (λ t. has allowed t ≡ true) ts)
                (settle out_of_contract (within_contract allowed ts))
                (λ done. with_file p root diff ts) z
                (settle-Ends out_of_contract (within_contract allowed ts) z (at_rest root z at h)
                  (λ done e. (h, within_contract-All allowed ts e)))
                (λ done z h.
                  with_file-Ends p log o run diff (log w) ts root z
                    (record {
                      checkout = at;
                      parsed = parsed;
                      inside = inside;
                      allowed = allowed;
                      allowed_world = y;
                      allowed_read = read;
                      approved = h.1;
                      filled = not-true (is_empty ts) filled;
                    })
                    h.0))

      targeted-Ends :
          (root : List Text) (x : World)
          → IsCheckout p log run root
          → log x ≡ cleaned (log w) root
          → Ends
              (Halted p log o run diff (log w))
              (HasLanded p log o run diff (log w))
              (targeted root x)
      targeted-Ends root x at h =
          bind-Ends (λ ts z. (log z ≡ cleaned (log w) root) × (parse_diff_targets diff ≡ ok ts))
            (settle bad_diff (parse_diff_targets diff))
            (λ ts. require (not (is_empty ts)) no_targets >> inside root ts) x
            (settle-Ends bad_diff (parse_diff_targets diff) x (at_rest root x at h)
              (λ ts is. (h, is)))
            (λ ts z k.
              bind-Ends (λ done z. (log z ≡ cleaned (log w) root) × (not (is_empty ts) ≡ true))
                (require (not (is_empty ts)) no_targets) (λ done. inside root ts) z
                (require-Ends (not (is_empty ts)) no_targets z (at_rest root z at k.0)
                  (λ t. (k.0, t)))
                (λ done z f.
                  bind-Ends
                    (λ done z.
                      (log z ≡ cleaned (log w) root)
                      × All (λ t. (path : List Text) × (safe_join root t ≡ ok path)) ts)
                    (settle bad_path (guarded root ts))
                    (λ done. call not_read (λ w. p.read_target_files w run) >>= permitted root ts) z
                    (settle-Ends bad_path (guarded root ts) z (at_rest root z at f.0)
                      (λ done is. (f.0, guarded-All root ts is)))
                    (λ done z g.
                      bind-Ends
                        (λ allowed y.
                          (log y ≡ cleaned (log w) root)
                          × ((p.read_target_files z run).0 ≡ ok allowed))
                        (call not_read (λ w. p.read_target_files w run)) (permitted root ts) z
                        (call-Ends not_read (λ w. p.read_target_files w run) z
                          (at_rest root (p.read_target_files z run).1 at (o.read_log z run ∙ g.0))
                          (λ allowed is. (o.read_log z run ∙ g.0, is)))
                        (λ allowed y r.
                          permitted-Ends root ts allowed y z at k.1 f.1 g.1 r.1 r.0))))
