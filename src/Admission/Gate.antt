-- ===== src/Admission/Gate.antt =====
-- What the admission gate of internal/intake/admission/admission.go lets through.
use mathlib.Core.List.{Memᴰ}
use semdev.Base.{
  ℕ, ◌≡◌, refl, sym, ap, ◌∙◌, inl, inr, Bool, true, false, none, some, List, [], ◌∷◌, any, Text,
  is_empty, trim_space, fields, Result, ok, err, arith, Bool-cases, and-true, not-true,
}
use semdev.Admission.{
  Config, Event, AuthError, no_checker, lookup_failed, Checker, with_actor, equal_fold, allowlisted,
  has_level, label_opts_in, command_opts_in, is_opted_in,
}

any-Memᴰ :
    {A : Type 0} (p : A → Bool) (xs : List A) → any p xs ≡ true → (x : A) × Memᴰ x xs × (p x ≡ true)
any-Memᴰ p [] h = cc
any-Memᴰ p (x ∷ xs) h = elim (Bool-cases (p x)) [
  | inl is ↦ (x, Memᴰ.head refl, is)
  | inr is_not ↦ let (y, m, is) = any-Memᴰ p xs (rw is_not at h) in (y, Memᴰ.tail m, is)
]

Memᴰ-any :
    {A : Type 0} (p : A → Bool) {x : A} {xs : List A} → Memᴰ x xs → p x ≡ true → any p xs ≡ true
Memᴰ-any p (Memᴰ.head e) h = rw (ap p (sym e) ∙ h)
Memᴰ-any p (Memᴰ.tail m) h = ground (arith, Memᴰ-any p m h)

-- The event as the gate reads it, with its actor trimmed.
abbrev pub trimmed : Event → Event
trimmed ev = with_actor ev (trim_space ev.actor)

module _ (folded lower : ℕ → ℕ) where
  -- One of the labels that the event's actor applied is the configured one, or one of the words that
  -- the actor wrote is the configured command.
  pub data OptedIn (cfg : Config) (ev : Event) : Type 0 where
    by_label :
        (l : Text)
        → is_empty cfg.opt_in_label ≡ false
        → Memᴰ l ev.applied_labels
        → equal_fold folded lower (trim_space l) cfg.opt_in_label ≡ true
        → OptedIn cfg ev
    by_command :
        (t : Text)
        → is_empty cfg.opt_in_command ≡ false
        → Memᴰ t (fields ev.authored_text)
        → equal_fold folded lower t cfg.opt_in_command ≡ true
        → OptedIn cfg ev

  -- The actor is named on the list.
  pub record Listed (cfg : Config) (ev : Event) : Type 0 where
    pub entry : Text
    pub is_entry : Memᴰ entry cfg.allowlist
    pub names_actor : equal_fold folded lower (trim_space entry) ev.actor ≡ true

  pub is_opted_in-OptedIn :
      (cfg : Config) (ev : Event) → is_opted_in folded lower cfg ev ≡ true → OptedIn cfg ev
  unfolding is_opted_in label_opts_in command_opts_in
  is_opted_in-OptedIn cfg ev h = elim (Bool-cases (label_opts_in folded lower cfg ev)) [
    | inl by ↦
        let (set, some_label) = and-true _ _ by in
        let (l, m, same_label) = any-Memᴰ _ ev.applied_labels some_label in
        by_label l (not-true _ set) m same_label
    | inr by ↦
        let (set, some_word) = and-true _ _ (rw by at h) in
        let (t, m, same_word) = any-Memᴰ _ (fields ev.authored_text) some_word in
        by_command t (not-true _ set) m same_word
  ]

  pub OptedIn-is_opted_in :
      (cfg : Config) (ev : Event) → OptedIn cfg ev → is_opted_in folded lower cfg ev ≡ true
  unfolding is_opted_in label_opts_in command_opts_in
  OptedIn-is_opted_in cfg ev (by_label l set m e) =
      let found = Memᴰ-any (λ x. equal_fold folded lower (trim_space x) cfg.opt_in_label) m e in
      rw (set, found)
  OptedIn-is_opted_in cfg ev (by_command t set m e) =
      let found = Memᴰ-any (λ x. equal_fold folded lower x cfg.opt_in_command) m e in
      ground (arith, set, found)

  pub allowlisted-Listed :
      (cfg : Config) (ev : Event)
      → allowlisted folded lower cfg.allowlist ev.actor ≡ true
      → Listed cfg ev
  unfolding allowlisted
  allowlisted-Listed cfg ev h =
      let (a, m, e) = any-Memᴰ _ cfg.allowlist h in
      record { entry = a; is_entry = m; names_actor = e }

  pub Listed-allowlisted :
      (cfg : Config) (ev : Event)
      → Listed cfg ev
      → allowlisted folded lower cfg.allowlist ev.actor ≡ true
  unfolding allowlisted
  Listed-allowlisted cfg ev l =
      Memᴰ-any (λ a. equal_fold folded lower (trim_space a) ev.actor) l.is_entry l.names_actor

module _ (folded lower : ℕ → ℕ) {World : Type 0} where
  -- The actor is named on the list, or a checker is wired and answered with a level that can push.
  pub data MayDrive (cfg : Config) (ev : Event) (checker : Checker World) (w : World) : Type 0 where
    listed : Listed folded lower cfg ev → MayDrive cfg ev checker w
    collaborator :
        (check : World → Text → Text → Text → Result Text Text × World) (level : Text)
        → checker ≡ some check
        → (check w ev.owner ev.repo ev.actor).0 ≡ ok level
        → has_level folded lower level ≡ true
        → MayDrive cfg ev checker w

  -- No answer: the actor is not on the list, and no checker is wired or its lookup failed.
  pub data Unanswered (cfg : Config) (ev : Event) (checker : Checker World) (w : World)
      : AuthError → Type 0 where
    unwired :
        {e : AuthError}
        → ¬ Listed folded lower cfg ev
        → checker ≡ none
        → e ≡ no_checker ev.actor
        → Unanswered cfg ev checker w e
    lookup :
        {e : AuthError} (check : World → Text → Text → Text → Result Text Text × World)
        (message : Text)
        → ¬ Listed folded lower cfg ev
        → checker ≡ some check
        → (check w ev.owner ev.repo ev.actor).0 ≡ err message
        → e ≡ lookup_failed message
        → Unanswered cfg ev checker w e
