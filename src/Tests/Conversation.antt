-- ===== src/Tests/Conversation.antt =====
-- The lanes of internal/conversationchannel on a world that is its own log.
use semdev.Base.{
  ℕ, ◌≡◌, ◌↔◌, refl, inr, List, [], ◌∷◌, none, some, Text, codes, same, fields, trim_space, Result,
  ok, err,
}
use semdev.Base.Stateful.{◌>>=◌, present, require}
use semdev.Admission.{Config, Checker, authorize, authorize_actor, allowlisted}
use semdev.Admission.Refs.{split_ref, cut_first, cut_last, positive_int, digits_from}
use semdev.Admission.Splits.{Spells, split_ref_iff}
use semdev.Conversation.{
  Entity, Triple, Channel, approve, issue_ref_predicate, intent_value_predicate,
  intent_author_predicate, entity_triple, decided_gate,
}
use semdev.Conversation.Apply.{
  ApplyConsumer, handle_apply_dispatch, attempts, handle_dispatch, decode_run, apply_intent,
  release, thread_of, attribute, authorize_author, announce, correct, call, set_attempt,
}
use semdev.Conversation.Notes.{transparency_body, decision_for}
use semdev.Conversation.Log.{Effect, said, decided, Observed, Honest}
use semdev.Conversation.Visible.{handle_apply_dispatch-Honest}
use semdev.Conversation.Progress.{
  Applicable, Decisive, handle_apply_dispatch_applies, release_gate_decides,
}
use semdev.Conversation.Approval.{release_gate, fresh_for_gate, first_decision}
use semdev.Conversation.Commands.{has_command_verb}
use semdev.Conversation.Approval.{
  Adapter, Desk, Message, RunState, Write, decides, awaiting_approval, handle_message,
}
use semdev.Conversation.Justified.{Recorded, Wrote}
use semdev.Conversation.Decides.{handle_message-Wrote}

abbrev plain : ℕ → ℕ
plain c = c

abbrev config : Config
config = record {
  allowlist = codes "alice" ∷ [];
  opt_in_label = codes "semdev";
  opt_in_command = codes "/semdev";
}

abbrev refusing : {World : Type 0} → Checker World
refusing = some (λ w owner repo actor. (err (codes "timeout"), w))

abbrev fact : Text → Text → Triple
fact predicate object = record { predicate = predicate; object = some object }

abbrev run : Entity
run =
    fact issue_ref_predicate (codes "o/r#7")
    ∷ fact intent_value_predicate approve
    ∷ fact intent_author_predicate (codes "alice")
    ∷ []

abbrev thread_channel : Channel (List Effect)
thread_channel = record {
  resolve_thread = λ w ref. (ok ref, w);
  post = λ w thread body. (none, said thread body ∷ w);
}

abbrev consumer : ApplyConsumer (List Effect) Text
consumer = record {
  cfg = config;
  channel = some thread_channel;
  checker = refusing;
  entity = λ w id. (ok (some run), w);
  stamp = λ w id d. (ok d, decided id d ∷ w);
  backoff = 0;
  entity_id = λ payload. some payload;
  ctx_err = λ w. none;
  wait = λ w ms. (none, w);
}

channel_is : {ch : Channel (List Effect)} → some thread_channel ≡ some ch → thread_channel ≡ ch
channel_is h = cc

abbrev itself : List Effect → List Effect
itself w = w

observed : Observed consumer itself
observed = record {
  entity_log = λ w id. refl;
  thread_log = λ ch w ref is. rw (← channel_is is) refl;
  checker_log = λ check w o r u is. asked check w o r u is;
  wait_log = λ w ms. refl;
  post_log = λ ch w thread body is. rw (← channel_is is) (inr refl);
  stamp_log = λ w id d. inr refl;
}
  where
    checker_is :
        {check : List Effect → Text → Text → Text → Result Text Text × List Effect}
        → refusing ≡ some check
        → (λ w owner repo actor. (err (codes "timeout"), w)) ≡ check
    checker_is h = cc

    asked :
        (check : List Effect → Text → Text → Text → Result Text Text × List Effect)
        (w : List Effect) (o r u : Text)
        → refusing ≡ some check
        → (check w o r u).1 ≡ w
    asked check w o r u is = rw (← checker_is is) refl

-- The approval is announced, and then stamped.
handle_apply_dispatch_approves : handle_apply_dispatch plain plain consumer (codes "run-1") [] ≡ (
  none,
  decided (codes "run-1") approve
      ∷ said (codes "o/r#7") (transparency_body approve (codes "alice"))
      ∷ [],
)
unfolding handle_apply_dispatch attempts handle_dispatch decode_run apply_intent release thread_of
    attribute authorize_author announce correct call set_attempt present require ◌>>=◌ decision_for
    entity_triple decided_gate same split_ref cut_first cut_last positive_int digits_from authorize
    authorize_actor allowlisted trim_space transparency_body
handle_apply_dispatch_approves = refl

handle_apply_dispatch-Honest_example :
    Honest plain plain consumer (handle_apply_dispatch plain plain consumer (codes "run-1") []).1
handle_apply_dispatch-Honest_example =
    handle_apply_dispatch-Honest plain plain consumer itself observed (codes "run-1") [] tt

split_ref_iff_example :
    (split_ref (codes "o/r#7") ≡ some (record { owner = codes "o"; repo = codes "r"; number = 7 }))
    ↔ Spells (codes "o/r#7") (record { owner = codes "o"; repo = codes "r"; number = 7 })
split_ref_iff_example =
    split_ref_iff (codes "o/r#7") (record { owner = codes "o"; repo = codes "r"; number = 7 })

abbrev gated : RunState
gated = record {
  entity_id = codes "run-1";
  decision = [];
  phase = awaiting_approval;
  gate_opened_at = 5;
}

abbrev adapter : Adapter (List (Text × Write))
adapter = record {
  cfg = config;
  repo = codes "o/r";
  checker = none;
  resolve_run = λ w thread. (ok gated, w);
  read_facts = some (λ w id predicate. (ok [], w));
  write = λ w id x. (none, (id, x) ∷ w);
}

abbrev ledger : List (Text × Write) → List (Text × Write)
ledger w = w

recorded : Recorded adapter ledger
recorded = record {
  resolve_log = λ w thread. refl;
  read_log = λ read w id p is. asked read w id p is;
  checker_log = λ check w o r u is. cc;
  write_log = λ w id x. inr refl;
}
  where
    reader_is :
        {read : List (Text × Write) → Text → Text → Result Text (List Triple) × List (Text × Write)}
        → adapter.read_facts ≡ some read
        → (λ w id predicate. (ok [], w)) ≡ read
    reader_is h = cc

    asked :
        (read : List (Text × Write) → Text → Text → Result Text (List Triple) × List (Text × Write))
        (w : List (Text × Write)) (id p : Text)
        → adapter.read_facts ≡ some read
        → (read w id p).1 ≡ w
    asked read w id p is = rw (← reader_is is) refl

abbrev message : Message
message = record { id = codes "m"; author = codes "alice"; body = codes "/semdev approve"; at = 9 }

abbrev desk : Desk (List (Text × Write))
desk = record { world = []; ignored = 0; granted = 0; pending = 0 }

-- The exact command of an authorized author decides the open gate.
handle_message_approves :
    handle_message plain plain adapter message (codes "o/r#7") desk
    ≡ (ok tt, record desk { world = (codes "run-1", decides approve) ∷ []; granted = 1 })
unfolding handle_message ◌>>=◌ require same trim_space has_command_verb fields present split_ref
    authorize authorize_actor allowlisted
handle_message_approves = refl

handle_message-Wrote_example :
    Wrote plain plain adapter message
      (codes "o/r#7")
      []
      (handle_message plain plain adapter message (codes "o/r#7") desk).1.world
handle_message-Wrote_example =
    handle_message-Wrote plain plain adapter ledger recorded message (codes "o/r#7") desk

abbrev announced : Effect
announced = said (codes "o/r#7") (transparency_body approve (codes "alice"))

applicable :
    Applicable plain plain consumer
      (codes "run-1")
      (codes "run-1")
      approve
      []
      (decided (codes "run-1") approve ∷ announced ∷ [])
unfolding decode_run decision_for entity_triple decided_gate same split_ref cut_first cut_last
    positive_int digits_from authorize authorize_actor allowlisted trim_space
applicable = record {
  ch = thread_channel;
  run = run;
  at = record { owner = codes "o"; repo = codes "r"; number = 7 };
  thread = codes "o/r#7";
  read = [];
  authorizing = [];
  announcing = [];
  stamping = announced ∷ [];
  run_id = refl;
  wired = refl;
  run_read = refl;
  gate_open = refl;
  directive = refl;
  located = refl;
  resolved = refl;
  attributed = refl;
  authorized = refl;
  announced = refl;
  stamped = refl;
}

handle_apply_dispatch_applies_example :
    handle_apply_dispatch plain plain consumer (codes "run-1") []
    ≡ (none, decided (codes "run-1") approve ∷ announced ∷ [])
handle_apply_dispatch_applies_example =
    handle_apply_dispatch_applies plain plain consumer (codes "run-1") (codes "run-1") approve []
      (decided (codes "run-1") approve ∷ announced ∷ []) applicable

decisive :
    Decisive plain plain adapter message
      (codes "o/r#7")
      approve
      []
      ((codes "run-1", decides approve) ∷ [])
unfolding same split_ref cut_first cut_last positive_int digits_from authorize authorize_actor
    allowlisted trim_space fresh_for_gate first_decision
decisive = record {
  at = record { owner = codes "o"; repo = codes "r"; number = 7 };
  run = gated;
  read = λ w id predicate. (ok [], w);
  facts = [];
  resolving = [];
  reading = [];
  writing = [];
  located = refl;
  authorized = refl;
  resolved = refl;
  is_there = refl;
  gated = refl;
  fresh = refl;
  has_reader = refl;
  was_read = refl;
  undecided = refl;
  recorded = refl;
}

release_gate_decides_example :
    release_gate plain plain adapter message (codes "o/r#7") approve desk
    ≡ (ok tt, record desk { world = (codes "run-1", decides approve) ∷ []; granted = 1 })
release_gate_decides_example =
    release_gate_decides plain plain adapter message (codes "o/r#7") approve desk
      ((codes "run-1", decides approve) ∷ []) decisive
