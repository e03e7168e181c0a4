-- ===== src/Admission/Decides.antt =====
-- The decisions of `Decide` in internal/intake/admission/admission.go against their description.
use semdev.Base.{
  ℕ, ◌≡◌, refl, ap, ◌∙◌, ◌↔◌, inl, inr, Bool, true, false, none, some, Text, is_empty, trim_space,
  Result, ok, err, Bool-cases, ok-injective,
}
use semdev.Admission.{
  Config, Event, AuthError, lookup_failed, Checker, allowlisted, has_level, judge_level, ask,
  authorize_actor, is_opted_in, verdict, conclude, decide,
}
use semdev.Admission.Gate.{
  trimmed, OptedIn, Listed, is_opted_in-OptedIn, OptedIn-is_opted_in, allowlisted-Listed,
  Listed-allowlisted, MayDrive, listed, collaborator, Unanswered, unwired, lookup,
}

module _ (folded lower : ℕ → ℕ) {World : Type 0} (cfg : Config) (checker : Checker World)
    (w : World) where
  judged :
      (r : Result Text Text × World)
      → (judge_level folded lower r).0 ≡ ok true
      → (level : Text) × (r.0 ≡ ok level) × (has_level folded lower level ≡ true)
  judged (ok level, u) h = (level, refl, ok-injective h)
  judged (err e, u) h = cc

  judged_err :
      (r : Result Text Text × World) {e : AuthError}
      → (judge_level folded lower r).0 ≡ err e
      → (message : Text) × (r.0 ≡ err message) × (e ≡ lookup_failed message)
  judged_err (ok level, u) h = cc
  judged_err (err m, u) h = (m, refl, cc)

  ask-MayDrive :
      (ev : Event) (c : Checker World)
      → checker ≡ c
      → (ask folded lower ev c w).0 ≡ ok true
      → MayDrive folded lower cfg ev checker w
  ask-MayDrive ev none is h = cc
  ask-MayDrive ev (some check) is h =
      let (level, answered, can_push) = judged (check w ev.owner ev.repo ev.actor) h in
      collaborator check level is answered can_push

  ask-Unanswered :
      (ev : Event) (c : Checker World) {e : AuthError}
      → ¬ Listed folded lower cfg ev
      → checker ≡ c
      → (ask folded lower ev c w).0 ≡ err e
      → Unanswered folded lower cfg ev checker w e
  ask-Unanswered ev none out is h = unwired out is cc
  ask-Unanswered ev (some check) out is h =
      let (message, failed, e) = judged_err (check w ev.owner ev.repo ev.actor) h in
      lookup check message out is failed e

  authorize-MayDrive :
      (ev : Event)
      → (authorize_actor folded lower cfg ev checker w).0 ≡ ok true
      → MayDrive folded lower cfg ev checker w
  unfolding authorize_actor
  authorize-MayDrive ev h = elim (Bool-cases (allowlisted folded lower cfg.allowlist ev.actor)) [
    | inl on ↦ listed (allowlisted-Listed folded lower cfg ev on)
    | inr off ↦ ask-MayDrive ev checker refl (rw off at h)
  ]

  MayDrive-authorize :
      (ev : Event)
      → MayDrive folded lower cfg ev checker w
      → (authorize_actor folded lower cfg ev checker w).0 ≡ ok true
  unfolding authorize_actor
  MayDrive-authorize ev (listed l) = rw (Listed-allowlisted folded lower cfg ev l)
  MayDrive-authorize ev (collaborator check level is answered can_push) =
      elim (Bool-cases (allowlisted folded lower cfg.allowlist ev.actor)) [
        | inl on ↦ rw on
        | inr off ↦ rw (off, is) (answer (check w ev.owner ev.repo ev.actor) answered)
      ]
    where
      answer :
          (r : Result Text Text × World) → r.0 ≡ ok level → (judge_level folded lower r).0 ≡ ok true
      answer (ok l, u) e = ap ok (ap (has_level folded lower) (ok-injective e) ∙ can_push)
      answer (err m, u) e = cc

  authorize-Unanswered :
      (ev : Event) {e : AuthError}
      → (authorize_actor folded lower cfg ev checker w).0 ≡ err e
      → Unanswered folded lower cfg ev checker w e
  unfolding authorize_actor
  authorize-Unanswered ev h = elim (Bool-cases (allowlisted folded lower cfg.allowlist ev.actor)) [
    | inl on ↦ cc (rw on at h)
    | inr off ↦
        ask-Unanswered ev checker (λ l. cc (off, Listed-allowlisted folded lower cfg ev l)) refl
          (rw off at h)
  ]

  verdict-admitted :
      (actor : Text) (authorized opted : Bool)
      → (verdict folded lower cfg actor authorized opted).admitted ≡ true
      → (authorized ≡ true) × (opted ≡ true)
  verdict-admitted actor true true h = (refl, refl)
  verdict-admitted actor true false h = cc
  verdict-admitted actor false opted h = cc

  conclude-admitted :
      (ev : Event) (r : Result AuthError Bool × World)
      → (conclude folded lower cfg ev r).0.0.admitted ≡ true
      → (r.0 ≡ ok true) × (is_opted_in folded lower cfg ev ≡ true)
  conclude-admitted ev (err e, u) h = cc
  conclude-admitted ev (ok b, u) h =
      let (auth, opted) = verdict-admitted ev.actor b _ h in (ap ok auth, opted)

  admitted-conclude :
      (ev : Event) (r : Result AuthError Bool × World)
      → r.0 ≡ ok true
      → is_opted_in folded lower cfg ev ≡ true
      → (conclude folded lower cfg ev r).0.0.admitted ≡ true
  admitted-conclude ev (err e, u) h o = cc
  admitted-conclude ev (ok b, u) h o = rw (ok-injective h, o)

  -- An event is admitted exactly when its actor is not blank, the actor may drive, by the
  -- allowlist or by a level the checker reports, and the actor opted in, by an applied label or by
  -- an authored command: all three of the one trimmed actor.
  pub decide-admitted_iff :
      (ev : Event)
      → ((decide folded lower cfg ev checker w).0.0.admitted ≡ true) ↔ (
          (is_empty (trim_space ev.actor) ≡ false)
          × MayDrive folded lower cfg (trimmed ev) checker w
          × OptedIn folded lower cfg (trimmed ev))
  unfolding decide
  decide-admitted_iff ev = elim (Bool-cases (is_empty (trim_space ev.actor))) [
    | inl anonymous ↦ (λ h. cc (rw anonymous at h), λ (named, _, _). cc (anonymous, named))
    | inr named ↦ (
      λ h.
          let (auth, opted) = conclude-admitted (trimmed ev) _ (rw named at h) in
          (
            named,
            authorize-MayDrive (trimmed ev) auth,
            is_opted_in-OptedIn folded lower cfg (trimmed ev) opted,
          ),
      λ (_, drives, opts). rw named (
          admitted-conclude (trimmed ev) _ (MayDrive-authorize (trimmed ev) drives)
            (OptedIn-is_opted_in folded lower cfg (trimmed ev) opts)),
    )
  ]

  conclude-error :
      (ev : Event) (r : Result AuthError Bool × World) {e : AuthError}
      → (conclude folded lower cfg ev r).0.1 ≡ some e
      → (r.0 ≡ err e) × ((conclude folded lower cfg ev r).0.0.admitted ≡ false)
  conclude-error ev (err d, u) h = (cc, refl)
  conclude-error ev (ok b, u) h = cc

  -- When Decide returns an error, the question could not be answered for an actor who is not on
  -- the allowlist, as there was no checker or its lookup failed, and the decision admits nothing.
  pub decide_fails_closed :
      (ev : Event) {e : AuthError}
      → (decide folded lower cfg ev checker w).0.1 ≡ some e
      → Unanswered folded lower cfg (trimmed ev) checker w e
        × ((decide folded lower cfg ev checker w).0.0.admitted ≡ false)
  unfolding decide
  decide_fails_closed ev h = elim (Bool-cases (is_empty (trim_space ev.actor))) [
    | inl anonymous ↦ cc (rw anonymous at h)
    | inr named ↦
        let (unanswered, closed) = conclude-error (trimmed ev) _ (rw named at h) in
        (authorize-Unanswered (trimmed ev) unanswered, rw named closed)
  ]
