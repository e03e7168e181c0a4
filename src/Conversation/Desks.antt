-- ===== src/Conversation/Desks.antt =====
-- The steps of the approval adapter of internal/conversationchannel/approval.go.
use semdev.Base.{
  ℕ, ◌≡◌, refl, ap, ◌∙◌, Bool, true, false, not, List, [], ◌∷◌, some, Text, is_empty, same,
  same_iff, Result, ok, not-true,
}
use semdev.Base.Stateful.{stopped, went_on, bind-Ends, present-Ends, require}
use semdev.Admission.{authorize}
use semdev.Admission.Asked.{authorize-log}
use semdev.Admission.Refs.{Coordinate, split_ref}
use semdev.Conversation.{Triple, decision_predicate}
use semdev.Conversation.Approval.{
  Adapter, ApprovalError, undetermined, unresolved, decision_unread, unstamped, Desk, Message,
  RunState, Stop, Write, decides, awaiting_approval, first_decision, read_facts, no_reader,
  fresh_for_gate, call, or_ignore, current_decision, stands_or_write, stamp_decision, event_of,
}
use semdev.Conversation.Justified.{
  Recorded, Permitted, AtGate, Facts, Justified, Untouched, Sound, EndsSound, untouched, call-Ends,
  or_ignore-Ends, guard-Ends, write-Ends,
}

module _ {World : Type 0} (folded lower : ℕ → ℕ) (a : Adapter World) (msg : Message) (thread : Text)
    (log : World → List (Text × Write)) (recorded : Recorded a log)
    (before : List (Text × Write)) where
  abbrev pub Same : Desk World → Type 0
  Same s = Untouched folded lower a msg thread log recorded before s

  abbrev pub Told : {A : Type 0} → (A → Desk World → Type 0) → Result Stop A × Desk World → Type 0
  Told Q r = EndsSound folded lower a msg thread log recorded before Q r

  abbrev pub Fit : Desk World → Type 0
  Fit s = Sound folded lower a msg thread log recorded before s

  pub fit : (s : Desk World) → Same s → Fit s
  fit s u = untouched folded lower a msg thread log recorded before u

  pub read_facts-Ends :
      (absent : ApprovalError) (wrap : Text → ApprovalError) (id pred : Text) (s : Desk World)
      → Same s
      → Told
          (λ facts t. Same t × Facts folded lower a msg thread id pred facts)
          (read_facts folded lower a absent wrap id pred s)
  unfolding read_facts
  read_facts-Ends absent wrap id pred s u =
      bind-Ends (λ read t. Same t × (a.read_facts ≡ some read)) _ _ _
        (present-Ends _ _ _ (fit s u) (λ read is. (u, is))) (λ read t (v, is). looked read is t v)
    where
      looked :
          (read : World → Text → Text → Result Text (List Triple) × World)
          → a.read_facts ≡ some read
          → (t : Desk World) → Same t
          → Told
              (λ facts t. Same t × Facts folded lower a msg thread id pred facts)
              (call folded lower a wrap (λ w. read w id pred) t)
      looked read is t v =
          call-Ends folded lower a msg thread log recorded before wrap (λ w. read w id pred) t
            (untouched folded lower a msg thread log recorded before (kept ∙ v))
            (λ facts were.
              (kept ∙ v, record { read = read; is_reader = is; at = t.world; were_read = were }))
        where
          kept : log (read t.world id pred).1 ≡ log t.world
          kept = recorded.read_log read t.world id pred is

  pub authorize-Ends :
      (at : Coordinate) (s : Desk World)
      → split_ref thread ≡ some at
      → Same s
      → Told
          (λ granted t. Same t × (granted ≡ true → Permitted folded lower a msg thread))
          (call folded lower a undetermined
            (authorize folded lower a.cfg (event_of folded lower a msg at) a.checker)
            s)
  authorize-Ends at s is u =
      call-Ends folded lower a msg thread log recorded before undetermined _ s
        (untouched folded lower a msg thread log recorded before (kept ∙ u))
        (λ granted answer. (
          kept ∙ u,
          λ yes_granted. record {
            coordinate = at;
            coordinate_is = is;
            at = s.world;
            granted = answer ∙ ap ok yes_granted;
          },
        ))
    where
      kept :
          log (authorize folded lower a.cfg (event_of folded lower a msg at) a.checker s.world).1
          ≡ log s.world
      kept = authorize-log folded lower log a.checker recorded.checker_log a.cfg _ s.world

  pub stamp_decision-Ends :
      (id d : Text) (s : Desk World)
      → Same s
      → ((facts : List Triple)
          → Facts folded lower a msg thread id decision_predicate facts
          → first_decision facts ≡ []
          → Justified folded lower a msg thread id (decides d))
      → Told (λ _ t. Fit t) (stamp_decision folded lower a id d s)
  unfolding stamp_decision current_decision
  stamp_decision-Ends id d s u why =
      bind-Ends
        (λ current t. Same t × (current ≡ [] → Justified folded lower a msg thread id (decides d)))
        _ _ _
        (bind-Ends (λ facts t. Same t × Facts folded lower a msg thread id decision_predicate facts)
          _ _ _ (read_facts-Ends no_reader decision_unread id decision_predicate s u)
          (λ facts t (v, read). went_on (v, why facts read)))
        settled
    where
      settled :
          (current : Text) (t : Desk World)
          → Same t × (current ≡ [] → Justified folded lower a msg thread id (decides d))
          → Told (λ _ v. Fit v) (stands_or_write folded lower a id d current t)
      settled [] t (v, j) =
          bind-Ends (λ _ v. Fit v) _ _ _
            (write-Ends folded lower a msg thread log recorded before unstamped id (decides d) t
              (j refl) v)
            (λ _ u sound. went_on sound)
      settled (c ∷ cs) t (v, j) = went_on (fit t v)

  pub or_ignore-Fit :
      (test : Bool) (s : Desk World) → Fit s → Told (λ _ t. Fit t) (or_ignore folded lower a test s)
  unfolding or_ignore
  or_ignore-Fit true s sound = went_on sound
  or_ignore-Fit false s sound = stopped sound

  -- The run that the thread resolved to.
  abbrev pub Resolved : RunState → Type 0
  Resolved run = (w : World) × ((a.resolve_run w thread).0 ≡ ok run)

  pub ignore :
      (test : Bool) (s : Desk World)
      → Same s
      → Told (λ _ t. Same t × (test ≡ true)) (or_ignore folded lower a test s)
  ignore test s u = or_ignore-Ends folded lower a msg thread log recorded before test s u

  pub guarded :
      (test : Bool) (e : Stop) (s : Desk World)
      → Same s
      → Told (λ _ t. Same t × (test ≡ true)) (require test e s)
  guarded test e s u = guard-Ends folded lower a msg thread log recorded before test e s u

  pub resolve :
      (s : Desk World)
      → Same s
      → Told
          (λ run t. Same t × Resolved run)
          (call folded lower a unresolved (λ w. a.resolve_run w thread) s)
  resolve s u =
      call-Ends folded lower a msg thread log recorded before unresolved _ s
        (untouched folded lower a msg thread log recorded before
          (recorded.resolve_log s.world thread ∙ u))
        (λ run is. (recorded.resolve_log s.world thread ∙ u, (s.world, is)))

  pub at_gate :
      (run : RunState)
      → Resolved run
      → not (is_empty run.entity_id) ≡ true
      → same run.phase awaiting_approval ≡ true
      → fresh_for_gate msg run ≡ true
      → AtGate folded lower a msg thread run.entity_id run
  at_gate run (w, resolved) there gated fresh = record {
    at = w;
    resolved = resolved;
    is_run = refl;
    is_there = not-true _ there;
    gated = (same_iff run.phase awaiting_approval).0 gated;
    fresh = fresh;
  }
