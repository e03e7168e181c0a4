-- ===== src/Tests/Patches.antt =====
-- The patcher of internal/runspace/patcher.go and the guard of internal/pathguard on small diffs.
use semdev.Base.{
  pos, Bool, true, false, not, if◌then◌else◌, ◌≡◌, refl, List, [], ◌∷◌, Text, codes, join, same, ok,
  err,
}
use semdev.Base.Stateful.{Ends}
use semdev.Runspace.Pathguard.{Inside, escapes, safe_join, safe_join-Inside}
use semdev.Runspace.Diffs.{no_content, parse_diff_targets, unsupported}
use semdev.Runspace.Targets.{AllNamed, parse_diff_targets-AllNamed}
use semdev.Runspace.Patcher.{Patcher, apply_args, out_of_contract, apply, clean_args, reset_args}
use semdev.Runspace.Permit.{Effect, git_run, written, passed, Observed, Stage, landed}
use semdev.Runspace.Contained.{apply-Ends}
use semdev.Runspace.Landing.{HasLanded}

abbrev root : List Text
root = codes "srv" ∷ codes "co" ∷ []

joined :
    safe_join root (codes "a/../b/./c") ≡ ok (codes "srv" ∷ codes "co" ∷ codes "b" ∷ codes "c" ∷ [])
unfolding safe_join
joined = refl

escaped : safe_join root (codes "a/../../x") ≡ err (escapes (codes "a/../../x"))
unfolding safe_join
escaped = refl

safe_join-Inside_example : Inside root (codes "srv" ∷ codes "co" ∷ codes "b" ∷ codes "c" ∷ [])
unfolding same
safe_join-Inside_example =
    safe_join-Inside root (codes "a/../b/./c") ((refl, refl, refl), ((refl, refl, refl), tt)) joined

abbrev diff : Text
diff = join (10 ∷ []) (
    codes "diff --git a/x.go b/x.go"
    ∷ codes "--- a/x.go"
    ∷ codes "+++ b/x.go"
    ∷ codes "@@ -1 +1 @@"
    ∷ codes "-old"
    ∷ codes "+new"
    ∷ codes "--- /dev/null"
    ∷ codes "+++ b/dir/y.go"
    ∷ [])

targets : parse_diff_targets diff ≡ ok (codes "x.go" ∷ codes "dir/y.go" ∷ [])
unfolding parse_diff_targets join
targets = refl

mode_only : parse_diff_targets (codes "diff --git a/run.sh b/run.sh") ≡ err no_content
unfolding parse_diff_targets
mode_only = refl

renamed : parse_diff_targets (codes "rename to b") ≡ err (unsupported (codes "rename to b"))
unfolding parse_diff_targets
renamed = refl

parse_diff_targets-AllNamed_example : AllNamed diff (codes "x.go" ∷ codes "dir/y.go" ∷ [])
parse_diff_targets-AllNamed_example = parse_diff_targets-AllNamed diff targets

-- A world that is the log of its git commands; the contract allows these files.
abbrev patcher : List Text → Patcher (List Effect)
patcher allowed = record {
  root = λ w id. (ok root, w);
  read_target_files = λ w id. (ok allowed, w);
  git = λ w dir args.
      (ok (record { stdout = codes "abc"; stderr = []; exit_code = pos 0 }), passed dir args ∷ w);
  create_temp = λ w. (ok (codes "/tmp/p"), w);
  write_temp = λ w file text. (ok tt, written file text true ∷ w);
  remove_temp = λ w file. w;
}

abbrev allowed : List Text
allowed = codes "dir/y.go" ∷ codes "x.go" ∷ []

applied : apply (patcher allowed) (codes "run") diff [] ≡ (
  ok (codes "x.go" ∷ codes "dir/y.go" ∷ [], codes "abc"),
  landed [] root diff (codes "x.go" ∷ codes "dir/y.go" ∷ []) (codes "/tmp/p"),
)
unfolding apply join
applied = refl

-- A file that was not approved keeps git from applying anything.
refused : apply (patcher (codes "x.go" ∷ [])) (codes "run") diff [] ≡ (
  err (out_of_contract (codes "dir/y.go")),
  passed root clean_args ∷ passed root reset_args ∷ [],
)
unfolding apply join
refused = refl

abbrev is_apply : List Text → Bool
is_apply [] = false
is_apply (verb ∷ args) = same verb (codes "apply")

-- A patch that git refuses is not committed.
abbrev refusing : Patcher (List Effect)
refusing = record (patcher allowed) {
  git = λ w dir args.
      let fails = is_apply args in
      (
        ok (record {
          stdout = codes "abc";
          stderr = [];
          exit_code = if fails then pos 1 else pos 0;
        }),
        git_run dir args (not fails) ∷ w,
      );
}

stops :
    (apply refusing (codes "run") diff []).1
    ≡ git_run root (apply_args (codes "/tmp/p")) false
      ∷ written (codes "/tmp/p") diff true
      ∷ passed root clean_args
      ∷ passed root reset_args
      ∷ []
unfolding apply join same
stops = refl

observed : Observed (patcher allowed) (λ w. w)
observed = record {
  root_log = λ w id. refl;
  read_log = λ w id. refl;
  git_log = λ w dir args. refl;
  create_log = λ w. refl;
  write_log = λ w file text. refl;
  remove_log = λ w file. refl;
}

apply-Ends_example :
    Ends
      (Stage (patcher allowed) (λ w. w) (codes "run") diff [])
      (HasLanded (patcher allowed) (λ w. w) observed (codes "run") diff [])
      (apply (patcher allowed) (codes "run") diff [])
apply-Ends_example = apply-Ends (patcher allowed) (λ w. w) observed (codes "run") diff []
