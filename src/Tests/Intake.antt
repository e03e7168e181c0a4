-- ===== src/Tests/Intake.antt =====
-- The admission gate of internal/intake/admission at events of one actor.
use semdev.Base.{
  ℕ, ◌≡◌, ◌↔◌, refl, [], ◌∷◌, Text, codes, err, true, false, some, same, is_empty, trim_space,
}
use semdev.Admission.{
  is_opted_in, label_opts_in, Config, Event, Checker, lookup_failed, decide, authorize_actor,
  allowlisted,
}
use semdev.Admission.Gate.{trimmed, OptedIn, MayDrive, Unanswered}
use semdev.Admission.Decides.{decide-admitted_iff, decide_fails_closed}

abbrev plain : ℕ → ℕ
plain c = c

abbrev config : Config
config = record {
  allowlist = codes "alice" ∷ [];
  opt_in_label = codes "semdev";
  opt_in_command = codes "/semdev";
}

abbrev event : Text → Event
event actor = record {
  actor = actor;
  owner = codes "o";
  repo = codes "r";
  applied_labels = codes "semdev" ∷ [];
  authored_text = [];
}

abbrev refusing : Checker ℕ
refusing = some (λ w owner repo actor. (err (codes "timeout"), w))

decide-admitted_iff_example :
    ((decide plain plain config (event (codes "alice")) refusing 0).0.0.admitted ≡ true) ↔ (
      (is_empty (trim_space (codes "alice")) ≡ false)
      × MayDrive plain plain config (trimmed (event (codes "alice"))) refusing 0
      × OptedIn plain plain config (trimmed (event (codes "alice"))))
decide-admitted_iff_example =
    decide-admitted_iff plain plain config refusing 0 (event (codes "alice"))

decide_fails_closed_example :
    Unanswered plain plain config
      (trimmed (event (codes "bob")))
      refusing
      0
      (lookup_failed (codes "timeout"))
    × ((decide plain plain config (event (codes "bob")) refusing 0).0.0.admitted ≡ false)
unfolding decide authorize_actor allowlisted same trim_space
decide_fails_closed_example =
    decide_fails_closed plain plain config refusing 0 (event (codes "bob"))
      {e = lookup_failed (codes "timeout")} refl

alice_is_admitted :
    (decide plain plain config (event (codes " alice")) refusing 0).0.0.admitted ≡ true
unfolding decide authorize_actor allowlisted same trim_space is_opted_in label_opts_in
alice_is_admitted = refl
