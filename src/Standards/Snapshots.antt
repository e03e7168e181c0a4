-- ===== src/Standards/Snapshots.antt =====
-- The store of the standards files that runs were provisioned with: internal/standards/snapshot.go. The
-- mutex makes each call one step. A nil store is `none`; Go's map is a list of its assignments, the
-- last one first.
use semdev.Base.{
  ◌≡◌, refl, Bool, true, false, List, [], ◌∷◌, Option, none, some, if◌then◌else◌, Text, same,
  same_iff, arith,
}
use semdev.Standards.Parse.{Bytes}

pub record Snapshot : Type 0 where
  pub raw : Bytes
  pub declared : Bool

abbrev pub Snapshots : Type 0
Snapshots = Option (List (Text × Snapshot))

abbrev pub new_snapshots : Snapshots
new_snapshots = some []

-- `raw` is `none` where Go passes nil.
abbrev pub snapshot_of : Option Bytes → Snapshot
snapshot_of none = record { raw = []; declared = false }
snapshot_of (some bytes) = record { raw = bytes; declared = true }

unfoldable pub capture : Text → Option Bytes → Snapshots → Snapshots
capture run raw none = none
capture run raw (some m) = some ((run, snapshot_of raw) ∷ m)

unfoldable pub find_run : Text → List (Text × Snapshot) → Option Snapshot
find_run run [] = none
find_run run ((r, s) ∷ m) = if same r run then some s else find_run run m

unfoldable pub lookup : Text → Snapshots → Option Snapshot
unfolding find_run
lookup run none = none
lookup run (some m) = find_run run m

unfoldable pub forget_run : Text → List (Text × Snapshot) → List (Text × Snapshot)
forget_run run [] = []
forget_run run ((r, s) ∷ m) = if same r run then forget_run run m else (r, s) ∷ forget_run run m

unfoldable pub forget : Text → Snapshots → Snapshots
unfolding forget_run
forget run none = none
forget run (some m) = some (forget_run run m)

find_run-forget_run :
    (run other : Text) (m : List (Text × Snapshot))
    → find_run other (forget_run run m) ≡ (if same run other then none else find_run other m)
unfolding find_run forget_run
find_run-forget_run run other [] = ground arith
find_run-forget_run run other ((r, s) ∷ m) =
    ground
      (arith, same_iff r run, same_iff r other, same_iff run other, find_run-forget_run run other m)

-- After a capture the run's lookup gives what was captured, after a forget it gives nothing, and
-- in both the lookups of other runs are as before.
lookup-capture-forget :
    (run other : Text) (raw : Option Bytes) (m : List (Text × Snapshot))
    → (lookup other (capture run raw (some m))
        ≡ (if same run other then some (snapshot_of raw) else lookup other (some m)))
      × (lookup other (forget run (some m))
          ≡ (if same run other then none else lookup other (some m)))
unfolding lookup capture forget
lookup-capture-forget run other raw m = (refl, find_run-forget_run run other m)
