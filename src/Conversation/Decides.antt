-- ===== src/Conversation/Decides.antt =====
-- The approval adapter of internal/conversationchannel/approval.go as a whole.
use semdev.Base.{
  ℕ, ◌≡◌, refl, inl, inr, true, false, not, ◌&&◌, List, some, Text, is_empty, same, Result, ok, err,
  Bool-cases, and-true, not-true,
}
use semdev.Base.Stateful.{stopped, went_on, bind-Ends, present-Ends}
use semdev.Admission.Refs.{split_ref}
use semdev.Conversation.{approve, reject}
use semdev.Conversation.Approval.{
  Adapter, ledger_unread, unbridged, Desk, Message, RunState, Stop, Write, bridges,
  awaiting_approval, contains_object, nil_reader, classified_predicate, fresh_for_gate,
  count_granted, count_pending, release_gate, bridge_to, bridge_non_command, in_scope, commands,
  handle_message,
}
use semdev.Conversation.Justified.{
  Recorded, Permitted, Facts, by_command, by_message, Wrote, write-Ends,
}
use semdev.Conversation.Desks.{
  fit, read_facts-Ends, authorize-Ends, stamp_decision-Ends, or_ignore-Fit, ignore, guarded,
  resolve, at_gate, Same, Told, Fit, Resolved,
}

module _ {World : Type 0} (folded lower : ℕ → ℕ) (a : Adapter World) (msg : Message) (thread : Text)
    (log : World → List (Text × Write)) (recorded : Recorded a log)
    (before : List (Text × Write)) where
  release_gate-Ends :
      (d : Text) (s : Desk World)
      → commands folded lower a d msg.body ≡ true
      → Same folded lower a msg thread log recorded before s
      → Told folded lower a msg thread log recorded before
          (λ _ t. Fit folded lower a msg thread log recorded before t)
          (release_gate folded lower a msg thread d s)
  unfolding release_gate count_granted
  release_gate-Ends d s commanded u =
      bind-Ends
        (λ at t.
          Same folded lower a msg thread log recorded before t × (split_ref thread ≡ some at))
        _ _ _
        (present-Ends _ _ _ (fit folded lower a msg thread log recorded before s u)
          (λ at is. (u, is)))
        (λ at s₁ (u₁, is).
          bind-Ends
            (λ granted t.
              Same folded lower a msg thread log recorded before t
              × (granted ≡ true → Permitted folded lower a msg thread))
            _ _ _ (authorize-Ends folded lower a msg thread log recorded before at s₁ is u₁)
            (λ granted s₂ (u₂, may).
              bind-Ends
                (λ _ t. Same folded lower a msg thread log recorded before t × (granted ≡ true)) _ _
                _ (ignore folded lower a msg thread log recorded before granted s₂ u₂)
                (λ _ s₃ (u₃, yes_granted).
                  bind-Ends
                    (λ run t.
                      Same folded lower a msg thread log recorded before t
                      × Resolved folded lower a msg thread log recorded before run)
                    _ _ _ (resolve folded lower a msg thread log recorded before s₃ u₃)
                    (λ run s₄ (u₄, (w, resolved)).
                      bind-Ends
                        (λ _ t.
                          Same folded lower a msg thread log recorded before t
                          × (not (is_empty run.entity_id) ≡ true))
                        _ _ _ (guarded folded lower a msg thread log recorded before _ _ s₄ u₄)
                        (λ _ s₅ (u₅, there).
                          bind-Ends
                            (λ _ t.
                              Same folded lower a msg thread log recorded before t
                              × (same run.phase awaiting_approval ≡ true))
                            _ _ _ (ignore folded lower a msg thread log recorded before _ s₅ u₅)
                            (λ _ s₆ (u₆, gated).
                              bind-Ends
                                (λ _ t.
                                  Same folded lower a msg thread log recorded before t
                                  × (fresh_for_gate msg run ≡ true))
                                _ _ _ (ignore folded lower a msg thread log recorded before _ s₆ u₆)
                                (λ _ s₇ (u₇, fresh).
                                  bind-Ends
                                    (λ _ t. Fit folded lower a msg thread log recorded before t) _ _
                                    _
                                    (stamp_decision-Ends folded lower a msg thread log recorded
                                      before run.entity_id d s₇ u₇
                                      (λ facts read undecided.
                                        by_command commanded (may yes_granted)
                                          (at_gate folded lower a msg thread log recorded before run
                                            (w, resolved) there gated fresh)
                                          read undecided))
                                    (λ landed s₈ sound.
                                      bind-Ends
                                        (λ _ t. Fit folded lower a msg thread log recorded before t)
                                        _ _ _
                                        (or_ignore-Fit folded lower a msg thread log recorded before
                                          _ s₈ sound)
                                        (λ _ s₉ sound'. went_on sound')))))))))

  bridge_to-Ends :
      (run : RunState) (s : Desk World)
      → commands folded lower a approve msg.body ≡ false
      → commands folded lower a reject msg.body ≡ false
      → is_empty msg.id ≡ false
      → Resolved folded lower a msg thread log recorded before run
      → Same folded lower a msg thread log recorded before s
      → Told folded lower a msg thread log recorded before
          (λ _ t. Fit folded lower a msg thread log recorded before t)
          (bridge_to folded lower a msg thread run s)
  unfolding bridge_to count_pending
  bridge_to-Ends run s not_approve not_reject has_id resolved u =
      bind-Ends
        (λ _ t.
          Same folded lower a msg thread log recorded before t
          × (not (is_empty run.entity_id) && same run.phase awaiting_approval ≡ true))
        _ _ _ (guarded folded lower a msg thread log recorded before _ _ s u)
        (λ _ s₁ (u₁, gated).
          bind-Ends
            (λ _ t.
              Same folded lower a msg thread log recorded before t × (is_empty run.decision ≡ true))
            _ _ _ (guarded folded lower a msg thread log recorded before _ _ s₁ u₁)
            (λ _ s₂ (u₂, undecided).
              bind-Ends
                (λ _ t.
                  Same folded lower a msg thread log recorded before t
                  × (fresh_for_gate msg run ≡ true))
                _ _ _ (ignore folded lower a msg thread log recorded before _ s₂ u₂)
                (λ _ s₃ (u₃, fresh).
                  bind-Ends
                    (λ at t.
                      Same folded lower a msg thread log recorded before t
                      × (split_ref thread ≡ some at))
                    _ _ _
                    (present-Ends _ _ _ (fit folded lower a msg thread log recorded before s₃ u₃)
                      (λ at is. (u₃, is)))
                    (λ at s₄ (u₄, is).
                      bind-Ends
                        (λ granted t.
                          Same folded lower a msg thread log recorded before t
                          × (granted ≡ true → Permitted folded lower a msg thread))
                        _ _ _
                        (authorize-Ends folded lower a msg thread log recorded before at s₄ is u₄)
                        (λ granted s₅ (u₅, may).
                          bind-Ends
                            (λ _ t.
                              Same folded lower a msg thread log recorded before t
                              × (granted ≡ true))
                            _ _ _
                            (ignore folded lower a msg thread log recorded before granted s₅ u₅)
                            (λ _ s₆ (u₆, yes_granted).
                              bind-Ends
                                (λ facts t.
                                  Same folded lower a msg thread log recorded before t
                                  × Facts folded lower a msg thread run.entity_id
                                      classified_predicate facts)
                                _ _ _
                                (read_facts-Ends folded lower a msg thread log recorded before
                                  nil_reader ledger_unread run.entity_id classified_predicate s₆ u₆)
                                (λ facts s₇ (u₇, read).
                                  bind-Ends
                                    (λ _ t.
                                      Same folded lower a msg thread log recorded before t
                                      × (not (contains_object facts classified_predicate msg.id)
                                          ≡ true))
                                    _ _ _
                                    (guarded folded lower a msg thread log recorded before _ _ s₇
                                      u₇)
                                    (λ _ s₈ (u₈, new).
                                      bind-Ends
                                        (λ _ t. Fit folded lower a msg thread log recorded before t)
                                        _ _ _
                                        (write-Ends folded lower a msg thread log recorded before
                                          unbridged run.entity_id
                                          (bridges msg.id msg.author msg.body) s₈
                                          (by_message not_approve not_reject has_id
                                            (may yes_granted)
                                            (let (there, phase) = and-true _ _ gated in
                                              at_gate folded lower a msg thread log recorded before
                                                run resolved there phase fresh)
                                            undecided read (not-true _ new))
                                          u₈)
                                        (λ _ s₉ sound. went_on sound)))))))))

  bridge_non_command-Ends :
      (s : Desk World)
      → commands folded lower a approve msg.body ≡ false
      → commands folded lower a reject msg.body ≡ false
      → Same folded lower a msg thread log recorded before s
      → Told folded lower a msg thread log recorded before
          (λ _ t. Fit folded lower a msg thread log recorded before t)
          (bridge_non_command folded lower a msg thread s)
  unfolding bridge_non_command
  bridge_non_command-Ends s not_approve not_reject u =
      bind-Ends
        (λ _ t.
          Same folded lower a msg thread log recorded before t × (not (is_empty msg.id) ≡ true))
        _ _ _ (guarded folded lower a msg thread log recorded before _ _ s u)
        (λ _ s₁ (u₁, has_id).
          bind-Ends
            (λ run t.
              Same folded lower a msg thread log recorded before t
              × Resolved folded lower a msg thread log recorded before run)
            _ _ _ (resolve folded lower a msg thread log recorded before s₁ u₁)
            (λ run s₂ (u₂, resolved).
              bridge_to-Ends run s₂ not_approve not_reject (not-true _ has_id) resolved u₂))

  handle_message-Ends :
      (s : Desk World)
      → Same folded lower a msg thread log recorded before s
      → Told folded lower a msg thread log recorded before
          (λ _ t. Fit folded lower a msg thread log recorded before t)
          (handle_message folded lower a msg thread s)
  unfolding handle_message
  handle_message-Ends s u =
      bind-Ends
        (λ _ t.
          Same folded lower a msg thread log recorded before t
          × (in_scope folded lower a thread ≡ true))
        _ _ _ (guarded folded lower a msg thread log recorded before _ _ s u)
        (λ _ t (v, scoped). elim (Bool-cases (commands folded lower a approve msg.body)) [
          | inl approves ↦ rw approves (release_gate-Ends approve t approves v)
          | inr not_approve ↦
              rw not_approve (elim (Bool-cases (commands folded lower a reject msg.body)) [
                | inl rejects ↦ rw rejects (release_gate-Ends reject t rejects v)
                | inr not_reject ↦
                    rw not_reject (bridge_non_command-Ends t not_approve not_reject v)
              ])
        ])

module _ {World : Type 0} (folded lower : ℕ → ℕ) (a : Adapter World)
    (log : World → List (Text × Write)) (recorded : Recorded a log) where
  -- With collaborators of which only a write leaves something in a log, and only what it was
  -- given, handleMessage writes nothing or one thing. A decision is written only on an exact
  -- command of that decision, an NL message to the classifier's slot only with an id and where no
  -- exact command is there; either only for an author that is authorized on the thread's
  -- repository, on the run the thread resolves to, at the gate and with the message written for
  -- it; a decision only where the run's facts were read with none, a bridged message only where
  -- the run was undecided and its ledger was read without it.
  pub handle_message-Wrote :
      (msg : Message) (thread : Text) (s : Desk World)
      → Wrote folded lower a msg thread
          (log s.world)
          (log (handle_message folded lower a msg thread s).1.world)
  handle_message-Wrote msg thread s =
      sound (handle_message folded lower a msg thread s)
        (handle_message-Ends folded lower a msg thread log recorded (log s.world) s refl)
    where
      sound :
          (r : Result Stop (Unit {0}) × Desk World)
          → Told folded lower a msg thread log recorded
              (log s.world)
              (λ _ t. Fit folded lower a msg thread log recorded (log s.world) t)
              r
          → Wrote folded lower a msg thread (log s.world) (log r.1.world)
      sound (ok x, t) (went_on h) = h
      sound (err e, t) (stopped h) = h
