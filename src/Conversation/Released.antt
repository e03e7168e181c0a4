-- ===== src/Conversation/Released.antt =====
-- One attempt of the apply lane of internal/conversationchannel/apply.go: what it says and decides.
use mathlib.Core.List.{Memᴰ}
use semdev.Base.{
  ℕ, ◌≡◌, ap, ◌∙◌, ◌⊎◌, inl, inr, true, false, List, ◌∷◌, some, Text, is_empty, Result, ok,
}
use semdev.Base.Stateful.{bind-Ends, present-Ends, require-Ends}
use semdev.Admission.Refs.{Coordinate}
use semdev.Conversation.{
  Entity, entity_triple, Channel, decided_gate, issue_ref_predicate, intent_value_predicate,
  intent_author_predicate,
}
use semdev.Conversation.Apply.{ApplyConsumer, Flight, Stop, release, apply_intent, handle_dispatch}
use semdev.Conversation.Notes.{transparency_body, decision_for}
use semdev.Conversation.Log.{
  Effect, said, decided, Observed, decision_for-IsDecision, Authorized, Sanctioned, Fine,
  Fine-later,
}
use semdev.Conversation.Honest.{
  Good, EndsWell, moved, call-Ends, thread_of-Ends, attribute-Ends, authorize_author-Ends,
}
use semdev.Conversation.Announced.{announce-Ends, correct-Ends, Told}

module _ {World Payload : Type 0} (folded lower : ℕ → ℕ) (a : ApplyConsumer World Payload)
    (log : World → List Effect) (observed : Observed a log) where
  stamp-Fine :
      (id d : Text) (s : Flight World)
      → Sanctioned folded lower a id d (log s.world)
      → Good folded lower a log observed s
      → Fine folded lower a s.attempt (log (a.stamp s.world id d).1)
  stamp-Fine id d s sanctioned good = stamped (observed.stamp_log s.world id d)
    where
      stamped :
          {l : List Effect}
          → (l ≡ log s.world) ⊎ (l ≡ decided id d ∷ log s.world)
          → Fine folded lower a s.attempt l
      stamped (inl e) = moved folded lower a log observed e good
      stamped (inr e) =
          moved folded lower a log observed e
            (Fine-later folded lower a _ (sanctioned, good.honest) good)

  abbrev pub GoodAt : Flight World → Type 0
  GoodAt t = Good folded lower a log observed t

  abbrev pub Well : Result Stop (Unit {0}) × Flight World → Type 0
  Well r = EndsWell folded lower a log observed (λ _ t. GoodAt t) r

  release-Ends :
      (id : Text) (ch : Channel World) (at : World) (run : Entity) (d ref : Text)
      (where_to : Coordinate) (s : Flight World)
      → a.channel ≡ some ch
      → (a.entity at id).0 ≡ ok (some run)
      → is_empty (decided_gate run) ≡ true
      → decision_for (entity_triple run intent_value_predicate) ≡ some d
      → GoodAt s
      → Well (
          release folded lower a id ch d ref where_to (entity_triple run intent_author_predicate) s)
  unfolding release
  release-Ends id ch at run d ref where_to s wired was_read gate_open intended good =
      bind-Ends (λ _ t. GoodAt t) _ _ _
        (thread_of-Ends folded lower a log observed ch ref s wired good)
        (λ _ s₁ good₁.
          bind-Ends (λ _ t. GoodAt t × (is_empty author ≡ false)) _ _ _
            (attribute-Ends folded lower a log observed ch ref author s₁ wired good₁)
            (λ _ s₂ (good₂, named).
              bind-Ends (λ _ t. GoodAt t × Authorized folded lower a author) _ _ _
                (authorize_author-Ends folded lower a log observed ref where_to author s₂ named
                  good₂)
                (λ _ s₃ (good₃, drives).
                  bind-Ends (λ _ t. GoodAt t × Told folded lower a log observed d author t) _ _ _
                    (announce-Ends folded lower a log observed ch ref d author s₃ wired
                      (decision_for-IsDecision _ intended) drives good₃)
                    (λ _ s₄ (good₄, (thread, told)).
                      bind-Ends (λ _ t. GoodAt t) _ _ _
                        (call-Ends folded lower a log observed _ _ s₄
                          (stamped s₄ good₄ drives thread told)
                          (λ landed _. stamped s₄ good₄ drives thread told))
                        (λ landed s₅ good₅.
                          correct-Ends folded lower a log observed ch d landed s₅ wired good₅)))))
    where
      author : Text
      author = entity_triple run intent_author_predicate

      stamped :
          (t : Flight World)
          → GoodAt t
          → Authorized folded lower a author
          → (thread : Text) → Memᴰ (said thread (transparency_body d author)) (log t.world)
          → Fine folded lower a t.attempt (log (a.stamp t.world id d).1)
      stamped t fine drives thread told =
          stamp-Fine id d t
            (record {
              at = at;
              run = run;
              run_read = was_read;
              gate_open = gate_open;
              intended = intended;
              authorized = drives;
              thread = thread;
              announced = told;
            })
            fine

  apply_intent-Ends :
      (id : Text) (ch : Channel World) (at : World) (run : Entity) (s : Flight World)
      → a.channel ≡ some ch
      → (a.entity at id).0 ≡ ok (some run)
      → GoodAt s
      → Well (apply_intent folded lower a id ch run s)
  unfolding apply_intent
  apply_intent-Ends id ch at run s wired was_read good =
      bind-Ends (λ _ t. GoodAt t × (is_empty (decided_gate run) ≡ true)) _ _ _
        (require-Ends _ _ _ good (λ open_gate. (good, open_gate)))
        (λ _ s₁ (good₁, open_gate).
          bind-Ends
            (λ d t. GoodAt t × (decision_for (entity_triple run intent_value_predicate) ≡ some d)) _
            _ _ (present-Ends _ _ _ good₁ (λ d is. (good₁, is)))
            (λ d s₂ (good₂, intended).
              bind-Ends (λ _ t. GoodAt t) _ _ _ (present-Ends _ _ _ good₂ (λ at _. good₂))
                (λ where_to s₃ good₃.
                  release-Ends id ch at run d (entity_triple run issue_ref_predicate) where_to s₃
                    wired was_read open_gate intended good₃)))

  pub handle_dispatch-Ends :
      (payload : Payload) (s : Flight World)
      → GoodAt s
      → Well (handle_dispatch folded lower a payload s)
  unfolding handle_dispatch
  handle_dispatch-Ends payload s good =
      bind-Ends (λ _ t. GoodAt t) _ _ _ (present-Ends _ _ _ good (λ id _. good))
        (λ id s₁ good₁.
          bind-Ends (λ ch t. (a.channel ≡ some ch) × GoodAt t) _ _ _
            (present-Ends _ _ _ good₁ (λ ch wired. (wired, good₁)))
            (λ ch s₂ (wired, good₂).
              bind-Ends (λ found t. ((w : World) × ((a.entity w id).0 ≡ ok found)) × GoodAt t) _ _ _
                (call-Ends folded lower a log observed _ _ s₂ (kept s₂ id good₂)
                  (λ found is. ((s₂.world, is), kept s₂ id good₂)))
                (λ found s₃ ((at, was_read), good₃).
                  bind-Ends (λ run t. (found ≡ some run) × GoodAt t) _ _ _
                    (present-Ends _ _ _ good₃ (λ run is. (is, good₃)))
                    (λ run s₄ (is, good₄).
                      apply_intent-Ends id ch at run s₄ wired (was_read ∙ ap ok is) good₄))))
    where
      kept :
          (t : Flight World) (id : Text)
          → GoodAt t
          → Fine folded lower a t.attempt (log (a.entity t.world id).1)
      kept t id fine = moved folded lower a log observed (observed.entity_log t.world id) fine
