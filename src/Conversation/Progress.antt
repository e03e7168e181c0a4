-- ===== src/Conversation/Progress.antt =====
-- That the lanes of internal/conversationchannel do decide the gate, where nothing stands in the way.
use semdev.Base.{
  ℕ, suc, ◌≡◌, refl, inl, inr, true, false, List, [], ◌∷◌, none, some, Text, is_empty, same,
  same_refl, Result, ok,
}
use semdev.Base.Stateful.{◌>>=◌, present, require}
use semdev.Admission.{authorize}
use semdev.Admission.Refs.{Coordinate, split_ref}
use semdev.Conversation.{
  Entity, Triple, Channel, entity_triple, decided_gate, decision_predicate, issue_ref_predicate,
  intent_value_predicate, intent_author_predicate,
}
use semdev.Conversation.Notes.{transparency_body, decision_for}
use semdev.Conversation.Apply.{
  ApplyConsumer, decode_run, thread_of, attribute, authorize_author, announce, correct, call,
  set_attempt, release, apply_intent, handle_dispatch, attempts, handle_apply_dispatch,
  announcement,
}
use semdev.Conversation.Log.{decision_for-IsDecision, IsDecision}
use semdev.Conversation.Approval
use semdev.Conversation.Approval.{
  Adapter, Desk, Message, RunState, decides, awaiting_approval, first_decision, fresh_for_gate,
  release_gate, stamp_decision, current_decision, read_facts, or_ignore, count_granted, in_scope,
  commands, handle_message,
}

module _ {World Payload : Type 0} (folded lower : ℕ → ℕ) (a : ApplyConsumer World Payload) where
  -- Every call that the apply lane makes for this dispatch succeeds, and every guard lets it pass.
  pub record Applicable (payload : Payload) (id d : Text) (w after : World) : Type 0 where
    pub ch : Channel World
    pub run : Entity
    pub at : Coordinate
    pub thread : Text
    pub read : World
    pub authorizing : World
    pub announcing : World
    pub stamping : World
    pub run_id : decode_run folded lower a payload ≡ some id
    pub wired : a.channel ≡ some ch
    pub run_read : a.entity w id ≡ (ok (some run), read)
    pub gate_open : is_empty (decided_gate run) ≡ true
    pub directive : decision_for (entity_triple run intent_value_predicate) ≡ some d
    pub located : split_ref (entity_triple run issue_ref_predicate) ≡ some at
    pub resolved :
        ch.resolve_thread read (entity_triple run issue_ref_predicate) ≡ (ok thread, authorizing)
    pub attributed : is_empty (entity_triple run intent_author_predicate) ≡ false
    pub authorized :
        authorize folded lower a.cfg
          (record {
            actor = entity_triple run intent_author_predicate;
            owner = at.owner;
            repo = at.repo;
            applied_labels = [];
            authored_text = [];
          })
          a.checker
          authorizing
        ≡ (ok true, announcing)
    pub announced :
        ch.post announcing thread (transparency_body d (entity_triple run intent_author_predicate))
        ≡ (none, stamping)
    pub stamped : a.stamp stamping id d ≡ (ok d, after)

  unposted : {d : Text} (author : Text) → IsDecision d → same [] (announcement d author) ≡ false
  unfolding same
  unposted author (inl e) = rw e refl
  unposted author (inr e) = rw e refl

  unknown : (author : Text) → is_empty author ≡ false → same [] author ≡ false
  unfolding same
  unknown [] h = cc
  unknown (c ∷ cs) h = refl

  -- Where every call that the apply lane makes for a dispatch succeeds, the run is read with its
  -- gate open, a directive intent, a parseable reference and an author, the author is authorized,
  -- the announcement is posted and the stamp lands the decision, handleApplyDispatch acknowledges
  -- the dispatch in the world that the stamp left: the decision is applied at the first attempt.
  pub handle_apply_dispatch_applies :
      (payload : Payload) (id d : Text) (w after : World)
      → Applicable payload id d w after
      → handle_apply_dispatch folded lower a payload w ≡ (none, after)
  unfolding handle_apply_dispatch attempts handle_dispatch apply_intent release thread_of attribute
      authorize_author announce correct call set_attempt present require ◌>>=◌
  handle_apply_dispatch_applies payload id d w after p = rw (
    p.run_id,
    p.wired,
    p.run_read,
    p.gate_open,
    p.directive,
    p.located,
    p.resolved,
    p.attributed,
    unknown _ p.attributed,
    p.authorized,
    unposted (entity_triple p.run intent_author_predicate) (decision_for-IsDecision _ p.directive),
    p.announced,
    p.stamped,
    same_refl d,
  )

module _ {World : Type 0} (folded lower : ℕ → ℕ) (a : Adapter World) where
  -- Every call that an exact command makes succeeds, and every guard lets it pass.
  pub record Decisive (msg : Message) (thread d : Text) (w after : World) : Type 0 where
    pub at : Coordinate
    pub run : RunState
    pub read : World → Text → Text → Result Text (List Triple) × World
    pub facts : List Triple
    pub resolving : World
    pub reading : World
    pub writing : World
    pub located : split_ref thread ≡ some at
    pub authorized :
        authorize folded lower a.cfg
          (record {
            actor = msg.author;
            owner = at.owner;
            repo = at.repo;
            applied_labels = [];
            authored_text = msg.body;
          })
          a.checker
          w
        ≡ (ok true, resolving)
    pub resolved : a.resolve_run resolving thread ≡ (ok run, reading)
    pub is_there : is_empty run.entity_id ≡ false
    pub gated : run.phase ≡ awaiting_approval
    pub fresh : fresh_for_gate msg run ≡ true
    pub has_reader : a.read_facts ≡ some read
    pub was_read : read reading run.entity_id decision_predicate ≡ (ok facts, writing)
    pub undecided : first_decision facts ≡ []
    pub recorded : a.write writing run.entity_id (decides d) ≡ (none, after)

  -- Where the thread parses, the author is authorized, the thread's run is there, at the gate,
  -- with the message fresh for it, the run's facts are read with no decision and the write
  -- succeeds, releaseGate succeeds in the world that the write left, and counts one granted and
  -- nothing ignored.
  pub release_gate_decides :
      (msg : Message) (thread d : Text) (s : Desk World) (after : World)
      → Decisive msg thread d s.world after
      → release_gate folded lower a msg thread d s ≡ (
        ok tt,
        record { world = after; ignored = s.ignored; granted = suc s.granted; pending = s.pending },
      )
  unfolding release_gate stamp_decision current_decision read_facts Approval.call or_ignore
      count_granted present require ◌>>=◌
  release_gate_decides msg thread d s after p = rw (
    p.located,
    p.authorized,
    p.resolved,
    p.is_there,
    p.gated,
    same_refl awaiting_approval,
    p.fresh,
    p.has_reader,
    p.was_read,
    p.undecided,
    p.recorded,
    same_refl d,
  )
