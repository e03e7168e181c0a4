-- ===== src/Conversation/Visible.antt =====
-- The apply lane of internal/conversationchannel/apply.go as a whole: its retries, and what it says to the
-- thread and decides on the run.
use semdev.Base.{
  ℕ, zero, suc, ◌≡◌, refl, inl, inr, List, Option, none, some, Text, is_empty, ◌-◌, ◌*◌, Result, ok,
  err, Bool-cases,
}
use semdev.Base.Stateful.{stopped, went_on}
use semdev.Conversation.{Channel}
use semdev.Conversation.Apply.{
  ApplyConsumer, ApplyError, Attempt, Flight, Stop, acked, transient, first_attempt, post_note,
  exhausted, attempts, after_attempt, after_failure, resume, after_note, handle_apply_dispatch,
  max_attempts, retry_backoff,
}
use semdev.Conversation.Notes.{exhausted_note}
use semdev.Conversation.Log.{Effect, Observed, gives_up, Honest, Fine}
use semdev.Conversation.Honest.{moved, post-Fine}
use semdev.Conversation.Released.{GoodAt, Well, handle_dispatch-Ends}

module _ {World Payload : Type 0} (folded lower : ℕ → ℕ) (a : ApplyConsumer World Payload)
    (log : World → List Effect) (observed : Observed a log) where
  told-Fine :
      (e : ApplyError) (s : Flight World) (ch : Option (Channel World))
      → a.channel ≡ ch
      → GoodAt folded lower a log observed s
      → Honest folded lower a (
          log
            (after_note folded lower a e
              (post_note folded lower a ch s.attempt.thread exhausted_note s.world)).1)
  told-Fine e s none wired good = good.honest
  told-Fine e s (some ch) wired good =
      noted (post_note folded lower a (some ch) s.attempt.thread exhausted_note s.world)
        (post-Fine folded lower a log observed ch s.attempt s.attempt.thread exhausted_note s.world
          wired (gives_up refl) good).0
    where
      noted :
          (r : Result Text (Unit {0}) × World)
          → Fine folded lower a s.attempt (log r.1)
          → Honest folded lower a (log (after_note folded lower a e r).1)
      noted (ok x, w) fine = fine.honest
      noted (err e, w) fine = fine.honest

  exhausted-Honest :
      (e : ApplyError) (s : Flight World)
      → GoodAt folded lower a log observed s
      → Honest folded lower a (log (exhausted folded lower a e s).1)
  unfolding exhausted
  exhausted-Honest e s good = elim (Bool-cases (is_empty s.attempt.thread)) [
    | inl nowhere ↦ rw nowhere good.honest
    | inr somewhere ↦ rw somewhere (told-Fine e s a.channel refl good)
  ]

  after_attempt-Honest :
      (next : ApplyError → Flight World → Option ApplyError × World)
      → ((e : ApplyError) (s : Flight World)
          → GoodAt folded lower a log observed s
          → Honest folded lower a (log (next e s).1))
      → (r : Result Stop (Unit {0}) × Flight World) → Well folded lower a log observed r
      → Honest folded lower a (log (after_attempt folded lower a next r).1)
  after_attempt-Honest next goes_on (ok x, s) (went_on good) = good.honest
  after_attempt-Honest next goes_on (err acked, s) (stopped good) = good.honest
  after_attempt-Honest next goes_on (err (transient e), s) (stopped good) =
      asked (a.ctx_err s.world)
    where
      asked :
          (c : Option Text)
          → Honest folded lower a (log (after_failure folded lower a next e s c).1)
      asked none = goes_on e s good
      asked (some cause) = good.honest

  resume-Honest :
      (next : Flight World → Option ApplyError × World)
      → ((s : Flight World)
          → GoodAt folded lower a log observed s
          → Honest folded lower a (log (next s).1))
      → (e : ApplyError) (st : Attempt) (r : Option Text × World) → Fine folded lower a st (log r.1)
      → Honest folded lower a (log (resume folded lower a next e st r).1)
  resume-Honest next goes_on e st (none, w) fine = goes_on (record { world = w; attempt = st }) fine
  resume-Honest next goes_on e st (some cause, w) fine = fine.honest

  attempts-Honest :
      (left n : ℕ) (payload : Payload) (s : Flight World)
      → GoodAt folded lower a log observed s
      → Honest folded lower a (log (attempts folded lower a left n payload s).1)
  unfolding attempts
  attempts-Honest zero n payload s good =
      after_attempt-Honest (exhausted folded lower a) exhausted-Honest _
        (handle_dispatch-Ends folded lower a log observed payload s good)
  attempts-Honest (suc left) n payload s good =
      after_attempt-Honest _
        (λ e t fine.
          resume-Honest (attempts folded lower a left (suc n) payload)
            (attempts-Honest left (suc n) payload) e t.attempt
            (a.wait t.world (n * retry_backoff folded lower a))
            (moved folded lower a log observed
              (observed.wait_log t.world (n * retry_backoff folded lower a)) fine))
        _ (handle_dispatch-Ends folded lower a log observed payload s good)

  -- With collaborators of which only a post and a stamp leave something in a log, the post its
  -- comment and the stamp the decision it was asked for, handleApplyDispatch keeps the log honest
  -- through all its retries: a decision is stamped on a run only after the run's gate was read
  -- open with that intent and an author, the author was authorized, and that very decision of that
  -- very author was announced on a thread; and a comment is such an announcement for an authorized
  -- author, or the note of exhaustion, of a missing author or of a correction.
  pub handle_apply_dispatch-Honest :
      (payload : Payload) (w : World)
      → Honest folded lower a (log w)
      → Honest folded lower a (log (handle_apply_dispatch folded lower a payload w).1)
  unfolding handle_apply_dispatch
  handle_apply_dispatch-Honest payload w honest =
      attempts-Honest (max_attempts - 1) 1 payload (record { world = w; attempt = first_attempt })
        (record { honest = honest; remembers = inl refl; trusts = inl refl })
