-- ===== src/Station/Messages.antt =====
-- What handleMessage of internal/station/station.go does, by how the runs of the handler end.
use semdev.Base.{
  ℕ, suc, ◌≡◌, ◌⊎◌, refl, sym, ap, subst, inl, inr, true, false, List, ◌∷◌, Option, none, some,
  Text, is_empty, Result, ok, err, Bool-cases,
}
use semdev.Station.{
  Envelope, Station, Counters, failed_object, Ran, done, aborted, exhausted, crashed, run_handler,
  after_stamp, one_error, stamp_dispatch_failed, after_run, request, after_decode, handle_message,
}
use semdev.Station.Outcomes.{Effect, parked, Observed, Outcome, run_handler-Ends}

module _ {World : Type 0} (s : Station World) (log : World → List Effect) where
  -- What handling one message does: to the errors counted, and to the log.
  pub data Handles (subject payload : Text) (errors : ℕ) (before : List Effect)
      : ℕ → List Effect → Type 0 where
    unread :
        (e : Text)
        → s.decode payload ≡ err e
        → Handles subject payload errors before (suc errors) before
    unnamed :
        (env : Envelope)
        → s.decode payload ≡ ok env
        → is_empty env.entity_id ≡ true
        → Handles subject payload errors before (suc errors) before
    handled :
        (env : Envelope) {v : World}
        → s.decode payload ≡ ok env
        → is_empty env.entity_id ≡ false
        → Outcome s log (request s subject env) before (done, v)
        → Handles subject payload errors before errors (log v)
    dropped :
        (env : Envelope) {r : Ran} {v : World}
        → s.decode payload ≡ ok env
        → is_empty env.entity_id ≡ false
        → (r ≡ crashed) ⊎ ((e : Text) × (r ≡ aborted e))
        → Outcome s log (request s subject env) before (r, v)
        → Handles subject payload errors before (suc errors) (log v)
    stamped :
        (env : Envelope) {e : Text} {v : World}
        → s.decode payload ≡ ok env
        → is_empty env.entity_id ≡ false
        → Outcome s log (request s subject env) before (exhausted e, v)
        → (s.stamp v env.entity_id (failed_object s.name e)).0 ≡ none
        → Handles subject payload errors before
            (suc errors)
            (parked env.entity_id (failed_object s.name e) ∷ log v)
    unstamped :
        (env : Envelope) (fault : Text) {e : Text} {v : World}
        → s.decode payload ≡ ok env
        → is_empty env.entity_id ≡ false
        → Outcome s log (request s subject env) before (exhausted e, v)
        → (s.stamp v env.entity_id (failed_object s.name e)).0 ≡ some fault
        → Handles subject payload errors before (suc (suc errors)) (log v)

  module _ (o : Observed s log) (subject payload : Text) (c : Counters) (before : List Effect) where
    abbrev Done : Counters × World → Type 0
    Done (c', w) =
        (c'.messages_processed ≡ c.messages_processed)
        × Handles subject payload c.errors before c'.errors (log w)

    stamped-Done :
        (env : Envelope) (e : Text) (w : World)
        → s.decode payload ≡ ok env
        → is_empty env.entity_id ≡ false
        → Outcome s log (request s subject env) before (exhausted e, w)
        → (res : Option Text × World) → s.stamp w env.entity_id (failed_object s.name e) ≡ res
        → Done (after_stamp s (one_error s c) res)
    stamped-Done env e w d n out (none, u) eq =
        let logged = o.stamp_log w env.entity_id (failed_object s.name e) in
        (
          refl,
          subst (λ l. Handles subject payload c.errors before (suc c.errors) l)
              (sym (rw eq at logged)) (stamped env d n out (ap (λ x. x.0) eq)),
        )
    stamped-Done env e w d n out (some x, u) eq =
        let logged = o.stamp_log w env.entity_id (failed_object s.name e) in
        (
          refl,
          subst (λ l. Handles subject payload c.errors before (suc (suc c.errors)) l)
              (sym (rw eq at logged)) (unstamped env x d n out (ap (λ y. y.0) eq)),
        )

    after_run-Done :
        (env : Envelope) (r : Ran) (w : World)
        → s.decode payload ≡ ok env
        → is_empty env.entity_id ≡ false
        → Outcome s log (request s subject env) before (r, w)
        → Done (after_run s env.entity_id c (r, w))
    unfolding stamp_dispatch_failed
    after_run-Done env done w d n out = (refl, handled env d n out)
    after_run-Done env crashed w d n out = (refl, dropped env d n (inl refl) out)
    after_run-Done env (aborted e) w d n out = (refl, dropped env d n (inr (e, refl)) out)
    after_run-Done env (exhausted e) w d n out =
        stamped-Done env e w d n out (s.stamp w env.entity_id (failed_object s.name e)) refl

  after_decode-Done :
      (o : Observed s log) (subject payload : Text) (c : Counters) (w : World)
      (read : Result Text Envelope)
      → s.decode payload ≡ read
      → Done o subject payload c (log w) (after_decode s subject c read w)
  after_decode-Done o subject payload c w (err e) d = (refl, unread e d)
  after_decode-Done o subject payload c w (ok env) d = elim (Bool-cases (is_empty env.entity_id)) [
    | inl n ↦ rw n (refl, unnamed env d n)
    | inr n ↦ rw n (
        after_run-Done o subject payload c (log w) env (run_handler s (request s subject env) w).0
          (run_handler s (request s subject env) w).1 d n
          (run_handler-Ends s log o (request s subject env) w))
  ]

  -- With collaborators of which only a run of the handler and a fact that is written leave
  -- something in a log, handleMessage counts one message. One that does not decode or names no
  -- entity counts one error and does nothing. Else the handler is run at most three times: a run
  -- that succeeds ends it with no error; one that panics, or that fails while the station stops,
  -- ends it with one error and no fact; a third failure while it is not stopping parks the
  -- dispatched entity with the fact of that failure and counts one error, or counts two and parks
  -- nothing where the fact is not written.
  pub handle_message-Handles :
      (o : Observed s log) (subject payload : Text) (c : Counters) (w : World)
      → ((handle_message s subject payload c w).0.messages_processed ≡ suc c.messages_processed)
        × Handles subject payload c.errors
            (log w)
            (handle_message s subject payload c w).0.errors
            (log (handle_message s subject payload c w).1)
  unfolding handle_message
  handle_message-Handles o subject payload c w =
      after_decode-Done o subject payload
        (record c { messages_processed = suc c.messages_processed }) w (s.decode payload) refl
