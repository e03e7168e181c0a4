-- ===== src/Station/Outcomes.antt =====
-- How a dispatch of internal/station/station.go can end.
use semdev.Base.{
  ℕ, zero, suc, ◌+◌, ◌*◌, ◌≤◌, ◌≡◌, ◌⊎◌, refl, sym, ap, ◌∙◌, inl, inr, true, false, List, [], ◌∷◌,
  ◌++◌, none, some, Text, Bool-cases, arith, length, length-append,
}
use semdev.Station.{
  Request, Handled, succeeded, failed, panicked, Station, handle_retry_backoff, Ran, done, aborted,
  exhausted, crashed, after_handle, attempts, run_handler,
}

-- What a world is observed by, newest first.
pub data Effect : Type 0 where
  ran : Request → Handled → Effect
  parked : Text → Text → Effect

module _ {World : Type 0} (s : Station World) (log : World → List Effect) where
  -- A run of the handler leaves itself, a stamp that succeeds its fact, one that fails nothing.
  pub record Observed : Type 0 where
    pub handle_log :
        (w : World) (req : Request) → log (s.handle w req).1 ≡ ran req (s.handle w req).0 ∷ log w
    pub wait_log : (w : World) (ms : ℕ) → log (s.wait w ms).1 ≡ log w
    pub stamp_log :
        (w : World) (id object : Text)
        → log (s.stamp w id object).1
          ≡ (elim (s.stamp w id object).0 [ none ↦ parked id object ∷ log w | some e ↦ log w ])

  -- The log after failed runs, the first one first.
  abbrev pub after_failed : Request → List Text → List Effect → List Effect
  after_failed req [] l = l
  after_failed req (e ∷ es) l = after_failed req es (ran req (failed e) ∷ l)

  -- The station is stopping, by its context or as a wait ended early.
  abbrev pub Stopping : World → Type 0
  Stopping w = (s.cancelled w ≡ true) ⊎ ((v : World) × (ms : ℕ) × (s.wait v ms ≡ (false, w)))

  -- How the runs of a handler end, of which at most two failed before.
  pub data Outcome (req : Request) (before : List Effect) : Ran × World → Type 0 where
    was_done :
        (es : List Text) {w : World}
        → length es ≤ 2
        → log w ≡ ran req succeeded ∷ after_failed req es before
        → Outcome req before (done, w)
    was_crashed :
        (es : List Text) {w : World}
        → length es ≤ 2
        → log w ≡ ran req panicked ∷ after_failed req es before
        → Outcome req before (crashed, w)
    was_aborted :
        (es : List Text) {e : Text} {w : World}
        → length es ≤ 2
        → Stopping w
        → log w ≡ ran req (failed e) ∷ after_failed req es before
        → Outcome req before (aborted e, w)
    was_exhausted :
        (es : List Text) {e : Text} {w : World}
        → length es ≡ 2
        → s.cancelled w ≡ false
        → log w ≡ ran req (failed e) ∷ after_failed req es before
        → Outcome req before (exhausted e, w)

  after_failed-append :
      (req : Request) (es : List Text) (e : Text) (l : List Effect)
      → after_failed req (es ++ e ∷ []) l ≡ ran req (failed e) ∷ after_failed req es l
  after_failed-append req [] e l = refl
  after_failed-append req (x ∷ es) e l = after_failed-append req es e (ran req (failed x) ∷ l)

  module _ (o : Observed) (req : Request) (before : List Effect) where
    abbrev Ends : Ran × World → Type 0
    Ends r = Outcome req before r

    last-Ends :
        (attempt : ℕ) (es : List Text) (h : Handled) (w : World)
        → length es ≡ 2
        → log w ≡ ran req h ∷ after_failed req es before
        → Ends (after_handle s none attempt (h, w))
    last-Ends attempt es succeeded w n e = was_done es (omega arith) e
    last-Ends attempt es panicked w n e = was_crashed es (omega arith) e
    last-Ends attempt es (failed x) w n e = elim (Bool-cases (s.cancelled w)) [
      | inl k ↦ rw k (was_aborted es (omega arith) (inl k) e)
      | inr k ↦ rw k (was_exhausted es n k e)
    ]

    -- An attempt that is not the last, where the next one ends so.
    retried-Ends :
        (more : World → Ran × World) (attempt : ℕ) (es : List Text) (h : Handled) (w : World)
        → length es ≤ 1
        → log w ≡ ran req h ∷ after_failed req es before
        → ((x : Text) (u : World) → log u ≡ after_failed req (es ++ x ∷ []) before → Ends (more u))
        → Ends (after_handle s (some more) attempt (h, w))
    retried-Ends more attempt es succeeded w n e next = was_done es (omega arith) e
    retried-Ends more attempt es panicked w n e next = was_crashed es (omega arith) e
    retried-Ends more attempt es (failed x) w n e next =
        let ms = handle_retry_backoff * attempt in
        elim (Bool-cases (s.cancelled w)) [
          | inl k ↦ rw k (was_aborted es (omega arith) (inl k) e)
          | inr k ↦ elim (Bool-cases (s.wait w ms).0) [
            | inl f ↦ rw k (
                rw f (
                  next x (s.wait w ms).1
                    (o.wait_log w ms ∙ e ∙ sym (after_failed-append req es x before))))
            | inr f ↦ rw k (
                rw f (
                  was_aborted es (omega arith) (inr (w, ms, ap (λ b. (b, (s.wait w ms).1)) f))
                    (o.wait_log w ms ∙ e)))
          ]
        ]

    attempts-Ends :
        (left attempt : ℕ) (es : List Text) (w : World)
        → length es + left ≡ 2
        → log w ≡ after_failed req es before
        → Ends (attempts s left attempt req w)
    unfolding attempts
    attempts-Ends zero attempt es w n e =
        last-Ends attempt es (s.handle w req).0 (s.handle w req).1 (omega (arith, n))
          (o.handle_log w req ∙ ap (λ l. ran req (s.handle w req).0 ∷ l) e)
    attempts-Ends (suc left) attempt es w n e =
        retried-Ends (attempts s left (suc attempt) req) attempt es (s.handle w req).0
          (s.handle w req).1 (omega (arith, n))
          (o.handle_log w req ∙ ap (λ l. ran req (s.handle w req).0 ∷ l) e)
          (λ x u eq.
            attempts-Ends left (suc attempt) (es ++ x ∷ []) u
              (omega (arith, n, length-append es (x ∷ []))) eq)

  pub run_handler-Ends :
      (o : Observed) (req : Request) (w : World) → Ends o req (log w) (run_handler s req w)
  unfolding run_handler
  run_handler-Ends o req w = attempts-Ends o req (log w) 2 1 [] w refl refl
