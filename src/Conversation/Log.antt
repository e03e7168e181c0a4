-- ===== src/Conversation/Log.antt =====
-- What the lanes of internal/conversationchannel leave behind, newest first: the comments of a thread and
-- the decisions written on runs, as a log that the world is observed by.
use mathlib.Core.List.{Memᴰ}
use semdev.Base.{
  ℕ, ◌≡◌, sym, ◌∙◌, ◌⊎◌, inl, inr, true, List, [], ◌∷◌, Option, none, some, Text, is_empty, same,
  ◌≢◌, Result, ok, Bool-cases,
}
use semdev.Admission.{Event, authorize}
use semdev.Conversation.{
  Entity, entity_triple, Channel, approve, reject, decided_gate, intent_value_predicate,
  intent_author_predicate,
}
use semdev.Conversation.Apply.{ApplyConsumer, Attempt, announcement}
use semdev.Conversation.Notes.{
  transparency_body, correction_body, exhausted_note, unattributable_note, decision_for,
}

pub data Effect : Type 0 where
  said : Text → Text → Effect
  decided : Text → Text → Effect

module _ {World Payload : Type 0} (a : ApplyConsumer World Payload)
    (log : World → List Effect) where
  -- What the consumer calls documents: only posts and stamps leave something behind, a post that
  -- succeeds its comment, and a stamp nothing but the decision it was asked for.
  pub record Observed : Type 0 where
    pub entity_log : (w : World) (id : Text) → log (a.entity w id).1 ≡ log w
    pub thread_log :
        (ch : Channel World) (w : World) (ref : Text)
        → a.channel ≡ some ch
        → log (ch.resolve_thread w ref).1 ≡ log w
    pub checker_log :
        (check : World → Text → Text → Text → Result Text Text × World) (w : World) (o r u : Text)
        → a.checker ≡ some check
        → log (check w o r u).1 ≡ log w
    pub wait_log : (w : World) (ms : ℕ) → log (a.wait w ms).1 ≡ log w
    pub post_log :
        (ch : Channel World) (w : World) (thread body : Text)
        → a.channel ≡ some ch
        → (((ch.post w thread body).0 ≢ none) × (log (ch.post w thread body).1 ≡ log w))
          ⊎ (log (ch.post w thread body).1 ≡ said thread body ∷ log w)
    pub stamp_log :
        (w : World) (id d : Text)
        → (log (a.stamp w id d).1 ≡ log w) ⊎ (log (a.stamp w id d).1 ≡ decided id d ∷ log w)

abbrev pub IsDecision : Text → Type 0
IsDecision d = (d ≡ approve) ⊎ (d ≡ reject)

pub decision_for-IsDecision :
    (intent : Text) {d : Text} → decision_for intent ≡ some d → IsDecision d
unfolding decision_for
decision_for-IsDecision intent h = elim (Bool-cases (same intent approve)) [
  | inl agreed ↦ inl (sym (some-injective (rw agreed at h)))
  | inr other ↦ elim (Bool-cases (same intent reject)) [
    | inl agreed ↦ inr (sym (some-injective (rw (other, agreed) at h)))
    | inr neither ↦ cc (rw (other, neither) at h)
  ]
]
  where
    some-injective : {a b : Text} → ◌≡◌ {A = Option Text} (some a) (some b) → a ≡ b
    some-injective h = cc

-- An announcement says one decision and one author.
pub announcement-injective :
    {d e x y : Text}
    → IsDecision d
    → IsDecision e
    → announcement d x ≡ announcement e y
    → (d ≡ e) × (x ≡ y)
announcement-injective (inl p) (inl q) h = let k = rw (p, q) at h in (p ∙ sym q, cc)
announcement-injective (inl p) (inr q) h = let k = rw (p, q) at h in cc
announcement-injective (inr p) (inl q) h = let k = rw (p, q) at h in cc
announcement-injective (inr p) (inr q) h = let k = rw (p, q) at h in (p ∙ sym q, cc)

module _ {World Payload : Type 0} (folded lower : ℕ → ℕ) (a : ApplyConsumer World Payload) where
  -- The code host or the allowlist answered that the author may drive a run.
  pub record Authorized (author : Text) : Type 0 where
    pub event : Event
    pub is_author : event.actor ≡ author
    pub at : World
    pub granted : (authorize folded lower a.cfg event a.checker at).0 ≡ ok true

  -- What a comment of the lane may say.
  pub data Warrant (body : Text) : Type 0 where
    announces :
        (d author : Text)
        → IsDecision d
        → Authorized author
        → body ≡ transparency_body d author
        → Warrant body
    gives_up : body ≡ exhausted_note → Warrant body
    asks_for_author : body ≡ unattributable_note → Warrant body
    corrects : (d stands : Text) → body ≡ correction_body d stands → Warrant body

  -- The gate of the run was read open, its intent is the decision, the author the harness bound to it
  -- is authorized, and that very decision of that very author was announced before.
  pub record Sanctioned (id d : Text) (before : List Effect) : Type 0 where
    pub at : World
    pub run : Entity
    pub run_read : (a.entity at id).0 ≡ ok (some run)
    pub gate_open : is_empty (decided_gate run) ≡ true
    pub intended : decision_for (entity_triple run intent_value_predicate) ≡ some d
    pub authorized : Authorized (entity_triple run intent_author_predicate)
    pub thread : Text
    pub announced :
        Memᴰ (said thread (transparency_body d (entity_triple run intent_author_predicate))) before

  abbrev pub Honest : List Effect → Type 0
  Honest [] = Unit
  Honest (said thread body ∷ before) = Warrant body × Honest before
  Honest (decided id d ∷ before) = Sanctioned id d before × Honest before

  -- The announcement that the attempt remembers was made.
  pub record Announced (posted_for : Text) (l : List Effect) : Type 0 where
    pub decision : Text
    pub author : Text
    pub thread : Text
    pub is_decision : IsDecision decision
    pub is_it : posted_for ≡ announcement decision author
    pub made : Memᴰ (said thread (transparency_body decision author)) l

  Announced-later : {p : Text} {l : List Effect} (e : Effect) → Announced p l → Announced p (e ∷ l)
  Announced-later e n = record {
    decision = n.decision;
    author = n.author;
    thread = n.thread;
    is_decision = n.is_decision;
    is_it = n.is_it;
    made = Memᴰ.tail n.made;
  }

  pub record Fine (st : Attempt) (l : List Effect) : Type 0 where
    pub honest : Honest l
    pub remembers : (st.posted_for ≡ []) ⊎ Announced st.posted_for l
    pub trusts : (st.authorized ≡ []) ⊎ Authorized st.authorized

  pub Fine-later :
      {st : Attempt} {l : List Effect} (e : Effect) → Honest (e ∷ l) → Fine st l → Fine st (e ∷ l)
  Fine-later e h fine = record {
    honest = h;
    remembers = later fine.remembers;
    trusts = fine.trusts;
  }
    where
      later :
          {A : Type 0} {p : Text} {l : List Effect} → A ⊎ Announced p l → A ⊎ Announced p (e ∷ l)
      later (inl none_yet) = inl none_yet
      later (inr n) = inr (Announced-later e n)
