-- ===== src/Conversation/Honest.antt =====
-- The steps of the apply lane of internal/conversationchannel/apply.go up to the authorization.
use semdev.Base.{
  ℕ, ◌≡◌, refl, sym, ap, ◌∙◌, subst, ◌⊎◌, inl, inr, Bool, true, false, List, [], ◌∷◌, Option, none,
  some, Text, is_empty, same, same_iff, ◌≢◌, Result, ok, err, Bool-cases,
}
use semdev.Base.Stateful.{Ends, stopped, went_on, bind-Ends, require-Ends}
use semdev.Admission.{Event, authorize}
use semdev.Admission.Refs.{Coordinate}
use semdev.Conversation.{Channel}
use semdev.Conversation.Apply.{
  ApplyConsumer, ApplyError, Attempt, Flight, Stop, call, as_stop, put_world, posted, post_note,
  set_attempt, thread_of, attribute, authorize_author,
}
use semdev.Conversation.Notes.{unattributable_note}
use semdev.Conversation.Log.{
  Effect, said, Observed, Authorized, Warrant, asks_for_author, Fine, Fine-later,
}
use semdev.Admission.Asked.{authorize-log}

module _ {World Payload : Type 0} (folded lower : ℕ → ℕ) (a : ApplyConsumer World Payload)
    (log : World → List Effect) (observed : Observed a log) where
  abbrev pub Good : Flight World → Type 0
  Good s = Fine folded lower a s.attempt (log s.world)

  -- The step stopped or came to its end with nothing false said or done, and with `Q`.
  abbrev pub EndsWell :
      {A : Type 0} → (A → Flight World → Type 0) → Result Stop A × Flight World → Type 0
  EndsWell Q r = Ends Good Q r

  pub moved :
      {st : Attempt} {l m : List Effect}
      → m ≡ l
      → Fine folded lower a st l
      → Fine folded lower a st m
  moved e fine = subst (Fine folded lower a _) (sym e) fine

  pub call-Ends :
      {E A : Type 0} {Q : A → Flight World → Type 0} (wrap : E → ApplyError)
      (port : World → Result E A × World) (s : Flight World)
      → Fine folded lower a s.attempt (log (port s.world).1)
      → ((x : A)
          → (port s.world).0 ≡ ok x
          → Q x (record { world = (port s.world).1; attempt = s.attempt }))
      → EndsWell Q (call folded lower a wrap port s)
  unfolding call
  call-Ends {E = E} {A = A} {Q} wrap port s fine found = ended (port s.world) fine found
    where
      ended :
          (r : Result E A × World)
          → Fine folded lower a s.attempt (log r.1)
          → ((x : A) → r.0 ≡ ok x → Q x (record { world = r.1; attempt = s.attempt }))
          → EndsWell Q (put_world folded lower a s.attempt (as_stop folded lower a wrap r))
      ended (ok x, w) fine found = went_on (found x refl)
      ended (err e, w) fine found = stopped fine

  -- A comment that has a warrant leaves the log honest, and is made if the post succeeds.
  pub post-Fine :
      (ch : Channel World) (st : Attempt) (thread body : Text) (w : World)
      → a.channel ≡ some ch
      → Warrant folded lower a body
      → Fine folded lower a st (log w)
      → Fine folded lower a st (log (post_note folded lower a (some ch) thread body w).1)
        × ((post_note folded lower a (some ch) thread body w).0 ≡ ok tt
            → log (post_note folded lower a (some ch) thread body w).1 ≡ said thread body ∷ log w)
  post-Fine ch st thread body w wired warrant fine =
      ended (ch.post w thread body) (observed.post_log ch w thread body wired)
    where
      ended :
          (r : Option Text × World)
          → ((r.0 ≢ none) × (log r.1 ≡ log w)) ⊎ (log r.1 ≡ said thread body ∷ log w)
          → Fine folded lower a st (log (posted folded lower a r).1)
            × ((posted folded lower a r).0 ≡ ok tt
                → log (posted folded lower a r).1 ≡ said thread body ∷ log w)
      ended (none, u) (inl (failed, e)) = absurd (failed refl)
      ended (some cause, u) (inl (failed, e)) = (moved e fine, λ h. cc)
      ended (none, u) (inr e) =
          (moved e (Fine-later folded lower a _ (warrant, fine.honest) fine), λ h. e)
      ended (some cause, u) (inr e) =
          (moved e (Fine-later folded lower a _ (warrant, fine.honest) fine), λ h. cc)

  pub thread_of-Ends :
      (ch : Channel World) (ref : Text) (s : Flight World)
      → a.channel ≡ some ch
      → Good s
      → EndsWell (λ _ t. Good t) (thread_of folded lower a ch ref s)
  unfolding thread_of set_attempt
  thread_of-Ends ch ref s wired good = elim (Bool-cases (is_empty s.attempt.thread)) [
    | inl unresolved_yet ↦ rw unresolved_yet (
        bind-Ends (λ _ t. Good t) _ _ _ (call-Ends _ _ _ kept (λ x _. kept))
          (λ thread t fine.
            went_on
              (record { honest = fine.honest; remembers = fine.remembers; trusts = fine.trusts })))
    | inr known ↦ rw known (went_on good)
  ]
    where
      kept : Fine folded lower a s.attempt (log (ch.resolve_thread s.world ref).1)
      kept = moved (observed.thread_log ch s.world ref wired) good

  pub attribute-Ends :
      (ch : Channel World) (ref author : Text) (s : Flight World)
      → a.channel ≡ some ch
      → Good s
      → EndsWell
          (λ _ t. Good t × (is_empty author ≡ false))
          (attribute folded lower a ch ref author s)
  unfolding attribute
  attribute-Ends ch ref author s wired good = elim (Bool-cases (is_empty author)) [
    | inl anonymous ↦ rw anonymous (
        bind-Ends (λ _ t. Good t) _ _ _ (call-Ends _ _ _ told (λ x _. told))
          (λ done t fine. require-Ends false _ _ fine (λ never. cc)))
    | inr named ↦ rw named (went_on (good, refl))
  ]
    where
      told :
          Fine folded lower a s.attempt (
            log (post_note folded lower a (some ch) s.attempt.thread unattributable_note s.world).1)
      told =
          (post-Fine ch s.attempt s.attempt.thread unattributable_note s.world wired
            (asks_for_author refl) good).0

  pub authorize_author-Ends :
      (ref : Text) (at : Coordinate) (author : Text) (s : Flight World)
      → is_empty author ≡ false
      → Good s
      → EndsWell
          (λ _ t. Good t × Authorized folded lower a author)
          (authorize_author folded lower a ref at author s)
  unfolding authorize_author set_attempt
  authorize_author-Ends ref at author s named good =
      elim (Bool-cases (same s.attempt.authorized author)) [
        | inl known ↦
            rw known
              (went_on (good, trusted ((same_iff s.attempt.authorized author).0 known) good.trusts))
        | inr unknown ↦ rw unknown (
            bind-Ends (λ granted t. Good t × (granted ≡ true → Authorized folded lower a author)) _
              _ _ (call-Ends _ _ _ kept (λ granted answer. (kept, drives granted answer)))
              (λ granted t (fine, may).
                bind-Ends (λ _ u. Good u × Authorized folded lower a author) _ _ _
                  (require-Ends granted _ _ fine (λ yes_granted. (fine, may yes_granted)))
                  (λ done u (fine', may'). went_on (
                    record {
                      honest = fine'.honest;
                      remembers = fine'.remembers;
                      trusts = inr may';
                    },
                    may',
                  ))))
      ]
    where
      event : Event
      event = record {
        actor = author;
        owner = at.owner;
        repo = at.repo;
        applied_labels = [];
        authored_text = [];
      }

      kept :
          Fine folded lower a s.attempt
            (log (authorize folded lower a.cfg event a.checker s.world).1)
      kept =
          moved (authorize-log folded lower log a.checker observed.checker_log a.cfg event s.world)
            good

      drives :
          (granted : Bool)
          → (authorize folded lower a.cfg event a.checker s.world).0 ≡ ok granted
          → granted ≡ true
          → Authorized folded lower a author
      drives granted answer yes_granted = record {
        event = event;
        is_author = refl;
        at = s.world;
        granted = answer ∙ ap ok yes_granted;
      }

      trusted :
          {known : Text}
          → known ≡ author
          → (known ≡ []) ⊎ Authorized folded lower a known
          → Authorized folded lower a author
      trusted e (inl nobody) = cc (ap is_empty (sym e ∙ nobody), named)
      trusted e (inr may) = subst (Authorized folded lower a) e may
