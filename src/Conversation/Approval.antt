-- ===== src/Conversation/Approval.antt =====
-- The approval adapter of internal/conversationchannel/approval.go: the exact commands decide the gate
-- of a run, any other message of an authorized author is bridged to the classifier. A time is a number
-- of nanoseconds, the zero time is 0. A nil error is the stop `acked`.
use semdev.Base.{
  ℕ, suc, ◌+◌, Bool, true, false, not, ◌||◌, ◌&&◌, List, [], ◌∷◌, Option, none, some, if◌then◌else◌,
  ltb, ◌==◌, Text, codes, same, is_empty, trim_space, Result, ok, err, any,
}
use semdev.Base.Stateful.{Action, ◌>>=◌, ◌>>◌, give, present, require}
use semdev.Admission.{Config, Event, Checker, AuthError, authorize, equal_fold}
use semdev.Admission.Refs.{Coordinate, split_ref, cut_last}
use semdev.Conversation.{Triple, decision_predicate, approve, reject}
use semdev.Conversation.Commands.{has_command_verb}

abbrev pub awaiting_approval : Text
awaiting_approval = codes "awaiting_approval"

-- `admission.RunState`; no run has the empty id.
pub record RunState : Type 0 where
  pub entity_id : Text
  pub decision : Text
  pub phase : Text
  pub gate_opened_at : ℕ

-- `conversation.Message`
pub record Message : Type 0 where
  pub id : Text
  pub author : Text
  pub body : Text
  pub at : ℕ

pub data ApprovalError : Type 0 where
  undetermined : AuthError → ApprovalError
  unresolved : Text → ApprovalError
  no_run_yet : Text → ApprovalError
  -- The second is a call through a nil reader, which would panic.
  no_reader nil_reader : ApprovalError
  decision_unread unstamped ledger_unread unbridged : Text → ApprovalError

pub data Stop : Type 0 where
  acked : Stop
  transient : ApprovalError → Stop

-- What is written on a run: its decision, or the slot of the pending message.
pub data Write : Type 0 where
  decides : Text → Write
  bridges : Text → Text → Text → Write

-- `approvalAdapter` with what it calls: the resolver, the reader of a run's facts, if one is wired, and
-- the two writers.
pub record Adapter (World : Type 0) : Type 0 where
  pub cfg : Config
  pub repo : Text
  pub checker : Checker World
  pub resolve_run : World → Text → Result Text RunState × World
  pub read_facts : Option (World → Text → Text → Result Text (List Triple) × World)
  pub write : World → Text → Write → Option Text × World

-- The adapter's three counters and the world.
pub record Desk (World : Type 0) : Type 0 where
  pub world : World
  pub ignored : ℕ
  pub granted : ℕ
  pub pending : ℕ

abbrev pub watermark_skew : ℕ
watermark_skew = 30000000000

abbrev pub classified_predicate : Text
classified_predicate = codes "conversation.intent.classified"

-- `freshForGate`. A message later than the watermark is fresh; with no time on either side none is.
unfoldable pub fresh_for_gate : Message → RunState → Bool
fresh_for_gate msg run =
    not (run.gate_opened_at == 0)
    && (not (msg.at == 0) && ltb run.gate_opened_at (msg.at + watermark_skew))

abbrev or_shown : Option Text → Text → Text
or_shown none rest = rest
or_shown (some []) rest = rest
or_shown (some (c ∷ cs)) rest = c ∷ cs

-- The first object of the decision predicate that is a string and not empty.
unfoldable pub first_decision : List Triple → Text
first_decision [] = []
first_decision (tr ∷ trs) =
    let rest = first_decision trs in
    if same tr.predicate decision_predicate then or_shown tr.object rest else rest

abbrev is_object : Text → Option Text → Bool
is_object want none = false
is_object want (some s) = same s want

unfoldable pub contains_object : List Triple → Text → Text → Bool
contains_object triples pred want =
    any (λ (tr : Triple). same tr.predicate pred && is_object want tr.object) triples

-- `refRepo`: the text in front of the last `#`, unless that is the first byte or missing.
unfoldable pub ref_repo : Text → Text
unfolding cut_last
ref_repo ref = part (cut_last b'#' ref)
  where
    part : Option (Text × Text) → Text
    part none = ref
    part (some ([], after)) = ref
    part (some (c ∷ before, after)) = c ∷ before

module _ {World : Type 0} (folded lower : ℕ → ℕ) (a : Adapter World) where
  abbrev pub Step : Type 0 → Type 0
  Step A = Action (Desk World) Stop A

  abbrev pub put_world :
      {A : Type 0} → Desk World → Result Stop A × World → Result Stop A × Desk World
  put_world s (r, w) =
      (r, record { world = w; ignored = s.ignored; granted = s.granted; pending = s.pending })

  abbrev pub as_stop :
      {E A : Type 0} → (E → ApprovalError) → Result E A × World → Result Stop A × World
  as_stop wrap (ok x, w) = (ok x, w)
  as_stop wrap (err e, w) = (err (transient (wrap e)), w)

  -- A call whose error is transient.
  unfoldable pub call : {E A : Type 0} → (E → ApprovalError) → (World → Result E A × World) → Step A
  call wrap port s = put_world s (as_stop wrap (port s.world))

  abbrev pub written : Option Text × World → Result Text (Unit {0}) × World
  written (none, w) = (ok tt, w)
  written (some e, w) = (err e, w)

  -- Stop with the message counted as ignored, unless `test` holds.
  unfoldable pub or_ignore : Bool → Step (Unit {0})
  or_ignore true s = (ok tt, s)
  or_ignore false s = (err acked, record s { ignored = suc s.ignored })

  unfoldable pub count_granted : Step (Unit {0})
  count_granted s = (ok tt, record s { granted = suc s.granted })

  unfoldable pub count_pending : Step (Unit {0})
  count_pending s = (ok tt, record s { pending = suc s.pending })

  unfoldable pub read_facts :
      ApprovalError → (Text → ApprovalError) → Text → Text → Step (List Triple)
  unfolding call
  read_facts absent wrap id pred = do
    read ← present (transient absent) a.read_facts
    call wrap (λ w. read w id pred)

  -- `currentDecision`; with no reader the state of the gate cannot be known.
  unfoldable pub current_decision : Text → Step Text
  unfolding read_facts first_decision
  current_decision id = do
    facts ← read_facts no_reader decision_unread id decision_predicate
    give (first_decision facts)

  abbrev pub stands_or_write : Text → Text → Text → Step Text
  stands_or_write id decision [] =
      call unstamped (λ w. written (a.write w id (decides decision))) >> give decision
  stands_or_write id decision (c ∷ cs) = give (c ∷ cs)

  -- `stampDecision`: the decision that stands.
  unfoldable pub stamp_decision : Text → Text → Step Text
  unfolding current_decision call
  stamp_decision id decision = do current ← current_decision id; stands_or_write id decision current

  abbrev pub event_of : Message → Coordinate → Event
  event_of msg at = record {
    actor = msg.author;
    owner = at.owner;
    repo = at.repo;
    applied_labels = [];
    authored_text = msg.body;
  }

  -- `releaseGate`
  unfoldable pub release_gate : Message → Text → Text → Step (Unit {0})
  unfolding or_ignore count_granted fresh_for_gate stamp_decision call
  release_gate msg thread decision = do
    at ← present acked (split_ref thread)
    authorized ← call undetermined (authorize folded lower a.cfg (event_of msg at) a.checker)
    or_ignore authorized
    run ← call unresolved (λ w. a.resolve_run w thread)
    require (not (is_empty run.entity_id)) (transient (no_run_yet thread))
    or_ignore (same run.phase awaiting_approval)
    or_ignore (fresh_for_gate msg run)
    landed ← stamp_decision run.entity_id decision
    or_ignore (same landed decision)
    count_granted

  -- The part of `bridgeNonCommand` behind the read of the run.
  unfoldable pub bridge_to : Message → Text → RunState → Step (Unit {0})
  unfolding or_ignore count_pending fresh_for_gate contains_object read_facts call
  bridge_to msg thread run = do
    require (not (is_empty run.entity_id) && same run.phase awaiting_approval) acked
    require (is_empty run.decision) acked
    or_ignore (fresh_for_gate msg run)
    at ← present acked (split_ref thread)
    authorized ← call undetermined (authorize folded lower a.cfg (event_of msg at) a.checker)
    or_ignore authorized
    classified ← read_facts nil_reader ledger_unread run.entity_id classified_predicate
    require (not (contains_object classified classified_predicate msg.id)) acked
    call unbridged (λ w. written (a.write w run.entity_id (bridges msg.id msg.author msg.body)))
    count_pending

  -- `bridgeNonCommand`
  unfoldable pub bridge_non_command : Message → Text → Step (Unit {0})
  unfolding bridge_to call
  bridge_non_command msg thread = do
    require (not (is_empty msg.id)) acked
    run ← call unresolved (λ w. a.resolve_run w thread)
    bridge_to msg thread run

  unfoldable pub in_scope : Text → Bool
  unfolding ref_repo
  in_scope thread = is_empty a.repo || equal_fold folded lower (trim_space a.repo) (ref_repo thread)

  abbrev pub commands : Text → Text → Bool
  commands verb body = has_command_verb folded lower a.cfg.opt_in_command verb body

  -- `handleMessage`
  unfoldable pub handle_message : Message → Text → Step (Unit {0})
  unfolding release_gate bridge_non_command in_scope
  handle_message msg thread =
      require (in_scope thread) acked
      >> (if commands approve msg.body
          then release_gate msg thread approve
          else if commands reject msg.body
          then release_gate msg thread reject
          else bridge_non_command msg thread)
