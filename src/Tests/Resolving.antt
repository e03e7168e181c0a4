-- ===== src/Tests/Resolving.antt =====
-- The resolver of internal/intake/admission/resolver.go on two pages of runs of one thread.
use semdev.Base.{
  ℕ, suc, ◌≡◌, refl, [], ◌∷◌, Text, Option, none, some, codes, same, text_le, ok, Result,
}
use semdev.Conversation.{Triple, issue_ref_predicate}
use semdev.Conversation.Approval.{RunState, awaiting_approval}
use semdev.Conversation.Resolver.{
  Found, Page, last_transition_predicate, max_run_pages, prefer_run, best_of, scan, candidates,
  resolve_pages, resolve_run_by_ref,
}
use semdev.Conversation.Preferred.{IsChoice, read_runs, resolve_run_by_ref-IsChoice}

abbrev phase_predicate : Text
phase_predicate = codes "agent.run.phase"

abbrev triple : Text → Text → Triple
triple predicate object = record { predicate = predicate; object = some object }

abbrev ended : Found
ended = record {
  id = codes "a";
  triples =
      triple issue_ref_predicate (codes "o/r#7")
      ∷ triple phase_predicate (codes "done")
      ∷ triple last_transition_predicate (codes "9")
      ∷ [];
}

abbrev waiting : Found
waiting = record {
  id = codes "b";
  triples =
      triple phase_predicate awaiting_approval
      ∷ triple issue_ref_predicate (codes "o/r#7")
      ∷ triple last_transition_predicate (codes "5")
      ∷ [];
}

abbrev parse_time : Text → Option ℕ
parse_time [] = none
parse_time (c ∷ cs) = some c

-- Each query counts; the first page leads to a second.
abbrev query : ℕ → Text → Result Text Page × ℕ
query w [] = (ok (record { entities = ended ∷ []; next_cursor = codes "2" }), suc w)
query w (c ∷ cs) = (ok (record { entities = waiting ∷ []; next_cursor = [] }), suc w)

abbrev at_the_gate : RunState
at_the_gate = record {
  entity_id = codes "b";
  decision = [];
  phase = awaiting_approval;
  gate_opened_at = 53;
}

-- The run at the gate wins over the one that came first.
the_waiting_run :
    resolve_run_by_ref phase_predicate parse_time query (codes "o/r#7") 0 ≡ (ok at_the_gate, 2)
unfolding resolve_run_by_ref resolve_pages candidates scan best_of prefer_run text_le same
the_waiting_run = refl

resolve_run_by_ref-IsChoice_example :
    IsChoice
      (read_runs phase_predicate parse_time query max_run_pages (codes "o/r#7") [] 0)
      at_the_gate
resolve_run_by_ref-IsChoice_example =
    resolve_run_by_ref-IsChoice phase_predicate parse_time query (codes "o/r#7") 0 at_the_gate
      (λ i. (the_waiting_run i).0)
