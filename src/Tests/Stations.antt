-- ===== src/Tests/Stations.antt =====
-- A station of internal/station/station.go over small worlds.
use semdev.Base.{
  ℕ, zero, suc, ◌≡◌, refl, true, false, List, [], ◌∷◌, none, some, Text, codes, byte_len, ok,
}
use semdev.Station.{Request, failed, Station, Counters, truncate_err, handle_message}
use semdev.Station.Cut.{IsCut, truncate_err-IsCut}
use semdev.Station.Outcomes.{Effect, ran, parked, Observed}
use semdev.Station.Messages.{Handles, handle_message-Handles}

abbrev pipeline : Text
pipeline = codes "floors"

-- A world is its log. The handler fails, as a handler of the repository names itself in its errors.
abbrev failing : Station (List Effect)
failing = record {
  name = pipeline;
  decode = λ payload. ok (record {
    entity_id = payload;
    properties = (codes "slug", some (codes "a")) ∷ (codes "n", none) ∷ [];
  });
  handle =
      λ w req. (failed (codes "floors: no diff"), ran req (failed (codes "floors: no diff")) ∷ w);
  cancelled = λ w. false;
  wait = λ w ms. (true, w);
  stamp = λ w id object. (none, parked id object ∷ w);
}

abbrev failing-Observed : Observed failing (λ w. w)
failing-Observed = record {
  handle_log = λ w req. refl;
  wait_log = λ w ms. refl;
  stamp_log = λ w id object. refl;
}

abbrev counters : Counters
counters = record { messages_processed = 4; errors = 1 }

abbrev sent : Request
sent = record {
  entity_id = codes "run-1";
  properties = (codes "slug", codes "a") ∷ [];
  subject = codes "component.floors.dispatch";
}

abbrev run_failed : Effect
run_failed = ran sent (failed (codes "floors: no diff"))

parked_once :
    handle_message failing (codes "component.floors.dispatch") (codes "run-1") counters [] ≡ (
      record { messages_processed = 5; errors = 2 },
      parked (codes "run-1") (codes "floors: no diff") ∷ run_failed ∷ run_failed ∷ run_failed ∷ [],
    )
unfolding handle_message
parked_once = refl

handle_message-Handles_example :
    ((handle_message failing
        (codes "component.floors.dispatch")
        (codes "run-1")
        counters
        []).0.messages_processed
      ≡ 5)
    × Handles failing
        (λ w. w)
        (codes "component.floors.dispatch")
        (codes "run-1")
        1
        []
        (handle_message failing
          (codes "component.floors.dispatch")
          (codes "run-1")
          counters
          []).0.errors
        (handle_message failing (codes "component.floors.dispatch") (codes "run-1") counters []).1
handle_message-Handles_example =
    handle_message-Handles failing (λ w. w) failing-Observed (codes "component.floors.dispatch")
      (codes "run-1") counters []

-- A text of that many ellipses.
dots : ℕ → Text
dots zero = []
dots (suc n) = 0x2026 ∷ dots n

cut_at_limit : byte_len (truncate_err (dots 171)) ≡ 513
unfolding truncate_err byte_len dots
cut_at_limit = refl

truncate_err-IsCut_example : IsCut (dots 171) (truncate_err (dots 171))
truncate_err-IsCut_example = truncate_err-IsCut (dots 171)
