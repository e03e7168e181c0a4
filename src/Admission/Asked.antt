-- ===== src/Admission/Asked.antt =====
-- The permission lookup of internal/intake/admission/admission.go leaves the world as its checker does.
use semdev.Base.{
  ℕ, ◌≡◌, refl, ◌∙◌, inl, inr, none, some, Text, is_empty, trim_space, Result, ok, err, Bool-cases,
}
use semdev.Admission.{
  Config, Event, Checker, authorize, authorize_actor, allowlisted, ask, judge_level, with_actor,
}

module _ {World L : Type 0} (folded lower : ℕ → ℕ) (log : World → L) (checker : Checker World)
    (kept : (check : World → Text → Text → Text → Result Text Text × World) (w : World)
        (o r u : Text)
      → checker ≡ some check
      → log (check w o r u).1 ≡ log w) where
  judge_level-log : (r : Result Text Text × World) → log (judge_level folded lower r).1 ≡ log r.1
  judge_level-log (ok level, u) = refl
  judge_level-log (err e, u) = refl

  ask-log :
      (event : Event) (w : World) (c : Checker World)
      → checker ≡ c
      → log (ask folded lower event c w).1 ≡ log w
  ask-log event w none is = refl
  ask-log event w (some check) is =
      judge_level-log (check w event.owner event.repo event.actor) ∙ kept check w _ _ _ is

  authorize_actor-log :
      (cfg : Config) (event : Event) (w : World)
      → log (authorize_actor folded lower cfg event checker w).1 ≡ log w
  unfolding authorize_actor
  authorize_actor-log cfg event w =
      elim (Bool-cases (allowlisted folded lower cfg.allowlist event.actor)) [
        | inl listed ↦ rw listed refl
        | inr unlisted ↦ rw unlisted (ask-log event w checker refl)
      ]

  -- What the checker keeps, an authorization keeps.
  pub authorize-log :
      (cfg : Config) (event : Event) (w : World)
      → log (authorize folded lower cfg event checker w).1 ≡ log w
  unfolding authorize
  authorize-log cfg event w = elim (Bool-cases (is_empty (trim_space event.actor))) [
    | inl nobody ↦ rw nobody refl
    | inr named ↦ rw named (authorize_actor-log cfg (with_actor event (trim_space event.actor)) w)
  ]
