-- ===== src/Conversation/Justified.antt =====
-- What the approval adapter of internal/conversationchannel/approval.go writes, and on what conditions.
use semdev.Base.{
  ℕ, ◌≡◌, refl, sym, ap, ◌∙◌, subst, ◌⊎◌, inl, inr, Bool, true, false, List, [], ◌∷◌, Option, none,
  some, Text, is_empty, ◌≢◌, Result, ok, err,
}
use semdev.Base.Stateful.{Ends, stopped, went_on, require-Ends, require}
use semdev.Admission.{authorize}
use semdev.Admission.Refs.{Coordinate, split_ref}
use semdev.Conversation.{Triple, decision_predicate, approve, reject}
use semdev.Conversation.Approval.{
  Adapter, ApprovalError, Desk, Message, RunState, Stop, Write, decides, bridges, awaiting_approval,
  first_decision, contains_object, classified_predicate, fresh_for_gate, call, written, or_ignore,
  event_of, commands, put_world, as_stop,
}

module _ {World : Type 0} (a : Adapter World) (log : World → List (Text × Write)) where
  -- What the calls document: only a write leaves something behind, and nothing but what it was given.
  pub record Recorded : Type 0 where
    pub resolve_log : (w : World) (thread : Text) → log (a.resolve_run w thread).1 ≡ log w
    pub read_log :
        (read : World → Text → Text → Result Text (List Triple) × World) (w : World) (id p : Text)
        → a.read_facts ≡ some read
        → log (read w id p).1 ≡ log w
    pub checker_log :
        (check : World → Text → Text → Text → Result Text Text × World) (w : World) (o r u : Text)
        → a.checker ≡ some check
        → log (check w o r u).1 ≡ log w
    pub write_log :
        (w : World) (id : Text) (x : Write)
        → (((a.write w id x).0 ≢ none) × (log (a.write w id x).1 ≡ log w))
          ⊎ (log (a.write w id x).1 ≡ (id, x) ∷ log w)

module _ {World : Type 0} (folded lower : ℕ → ℕ) (a : Adapter World) (msg : Message)
    (thread : Text) where
  -- The author may drive a run of the thread's repository.
  pub record Permitted : Type 0 where
    pub coordinate : Coordinate
    pub coordinate_is : split_ref thread ≡ some coordinate
    pub at : World
    pub granted :
        (authorize folded lower a.cfg (event_of folded lower a msg coordinate) a.checker at).0
        ≡ ok true

  -- The thread's run is the one with this id, it stands at the gate, and the message was written for
  -- that gate.
  pub record AtGate (id : Text) (run : RunState) : Type 0 where
    pub at : World
    pub resolved : (a.resolve_run at thread).0 ≡ ok run
    pub is_run : run.entity_id ≡ id
    pub is_there : is_empty run.entity_id ≡ false
    pub gated : run.phase ≡ awaiting_approval
    pub fresh : fresh_for_gate msg run ≡ true

  -- The facts of the run, read from the graph.
  pub record Facts (id pred : Text) (facts : List Triple) : Type 0 where
    pub read : World → Text → Text → Result Text (List Triple) × World
    pub is_reader : a.read_facts ≡ some read
    pub at : World
    pub were_read : (read at id pred).0 ≡ ok facts

  -- Why something is written on a run.
  pub data Justified (id : Text) : Write → Type 0 where
    by_command :
        {d : Text} {run : RunState} {facts : List Triple}
        → commands folded lower a d msg.body ≡ true
        → Permitted
        → AtGate id run
        → Facts id decision_predicate facts
        → first_decision facts ≡ []
        → Justified id (decides d)
    by_message :
        {run : RunState} {facts : List Triple}
        → commands folded lower a approve msg.body ≡ false
        → commands folded lower a reject msg.body ≡ false
        → is_empty msg.id ≡ false
        → Permitted
        → AtGate id run
        → is_empty run.decision ≡ true
        → Facts id classified_predicate facts
        → contains_object facts classified_predicate msg.id ≡ false
        → Justified id (bridges msg.id msg.author msg.body)

  -- Nothing was written, or one thing that is justified for this message.
  pub data Wrote (before : List (Text × Write)) : List (Text × Write) → Type 0 where
    nothing : Wrote before before
    once : {id : Text} {x : Write} → Justified id x → Wrote before ((id, x) ∷ before)

module _ {World : Type 0} (folded lower : ℕ → ℕ) (a : Adapter World) (msg : Message) (thread : Text)
    (log : World → List (Text × Write)) (recorded : Recorded a log)
    (before : List (Text × Write)) where
  -- A state in which nothing was written, and one in which what was written is justified.
  abbrev pub Untouched : Desk World → Type 0
  Untouched s = log s.world ≡ before

  abbrev pub Sound : Desk World → Type 0
  Sound s = Wrote folded lower a msg thread before (log s.world)

  abbrev pub EndsSound :
      {A : Type 0} → (A → Desk World → Type 0) → Result Stop A × Desk World → Type 0
  EndsSound Q r = Ends Sound Q r

  pub untouched : {l : List (Text × Write)} → l ≡ before → Wrote folded lower a msg thread before l
  untouched e = subst (Wrote folded lower a msg thread before) (sym e) nothing

  pub call-Ends :
      {E A : Type 0} {Q : A → Desk World → Type 0} (wrap : E → ApprovalError)
      (port : World → Result E A × World) (s : Desk World)
      → Wrote folded lower a msg thread before (log (port s.world).1)
      → ((x : A)
          → (port s.world).0 ≡ ok x
          → Q x (record {
            world = (port s.world).1;
            ignored = s.ignored;
            granted = s.granted;
            pending = s.pending;
          }))
      → EndsSound Q (call folded lower a wrap port s)
  unfolding call
  call-Ends {E = E} {A = A} {Q} wrap port s sound found = ended (port s.world) sound found
    where
      desk : World → Desk World
      desk w = record { world = w; ignored = s.ignored; granted = s.granted; pending = s.pending }

      ended :
          (r : Result E A × World)
          → Wrote folded lower a msg thread before (log r.1)
          → ((x : A) → r.0 ≡ ok x → Q x (desk r.1))
          → EndsSound Q (put_world folded lower a s (as_stop folded lower a wrap r))
      ended (ok x, w) sound found = went_on (found x refl)
      ended (err e, w) sound found = stopped sound

  pub or_ignore-Ends :
      (test : Bool) (s : Desk World)
      → Untouched s
      → EndsSound (λ _ t. Untouched t × (test ≡ true)) (or_ignore folded lower a test s)
  unfolding or_ignore
  or_ignore-Ends true s u = went_on (u, refl)
  or_ignore-Ends false s u = stopped (untouched u)

  pub guard-Ends :
      (test : Bool) (e : Stop) (s : Desk World)
      → Untouched s
      → EndsSound (λ _ t. Untouched t × (test ≡ true)) (require test e s)
  guard-Ends test e s u = require-Ends test e s (untouched u) (λ passed. (u, passed))

  -- The one write of the lane.
  pub write-Ends :
      (wrap : Text → ApprovalError) (id : Text) (x : Write) (s : Desk World)
      → Justified folded lower a msg thread id x
      → Untouched s
      → EndsSound
          (λ _ t. Sound t)
          (call folded lower a wrap (λ w. written folded lower a (a.write w id x)) s)
  write-Ends wrap id x s justified u =
      call-Ends wrap _ s (sound (a.write s.world id x) (recorded.write_log s.world id x))
        (λ _ _. sound (a.write s.world id x) (recorded.write_log s.world id x))
    where
      one :
          {l : List (Text × Write)}
          → l ≡ (id, x) ∷ log s.world
          → Wrote folded lower a msg thread before l
      one e =
          subst (Wrote folded lower a msg thread before) (sym (e ∙ ap (λ l. (id, x) ∷ l) u))
            (once justified)

      sound :
          (r : Option Text × World)
          → ((r.0 ≢ none) × (log r.1 ≡ log s.world)) ⊎ (log r.1 ≡ (id, x) ∷ log s.world)
          → Wrote folded lower a msg thread before (log (written folded lower a r).1)
      sound (none, w) (inl (_, e)) = untouched (e ∙ u)
      sound (none, w) (inr e) = one e
      sound (some c, w) (inl (_, e)) = untouched (e ∙ u)
      sound (some c, w) (inr e) = one e
