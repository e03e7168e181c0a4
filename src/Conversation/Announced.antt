-- ===== src/Conversation/Announced.antt =====
-- The announcement and the correction of the apply lane of internal/conversationchannel/apply.go.
use mathlib.Core.List.{Memᴰ}
use semdev.Base.{
  ℕ, ◌≡◌, refl, sym, ◌∙◌, subst, ◌⊎◌, inl, inr, List, [], ◌∷◌, some, Text, same, same_iff, ok,
  Bool-cases,
}
use semdev.Base.Stateful.{went_on, bind-Ends}
use semdev.Conversation.{Channel}
use semdev.Conversation.Apply.{
  ApplyConsumer, Flight, announcement, post_note, set_attempt, announce, correct,
}
use semdev.Conversation.Notes.{transparency_body}
use semdev.Conversation.Log.{
  Effect, said, Observed, IsDecision, announcement-injective, Authorized, announces, corrects,
  Announced, Fine,
}
use semdev.Conversation.Honest.{Good, EndsWell, call-Ends, post-Fine}

module _ {World Payload : Type 0} (folded lower : ℕ → ℕ) (a : ApplyConsumer World Payload)
    (log : World → List Effect) (observed : Observed a log) where
  -- The decision of the author was announced.
  abbrev pub Told : Text → Text → Flight World → Type 0
  Told decision author s =
      (thread : Text) × Memᴰ (said thread (transparency_body decision author)) (log s.world)

  pub announce-Ends :
      (ch : Channel World) (ref decision author : Text) (s : Flight World)
      → a.channel ≡ some ch
      → IsDecision decision
      → Authorized folded lower a author
      → Good folded lower a log observed s
      → EndsWell folded lower a log observed
          (λ _ t. Good folded lower a log observed t × Told decision author t)
          (announce folded lower a ch ref decision author s)
  unfolding announce set_attempt
  announce-Ends ch ref decision author s wired d drives good =
      elim (Bool-cases (same s.attempt.posted_for (announcement decision author))) [
        | inl again ↦
            rw again (
              went_on (good, remembered ((same_iff s.attempt.posted_for _).0 again) good.remembers))
        | inr first ↦ rw first (
            bind-Ends (λ _ t. Good folded lower a log observed t × Told decision author t) _ _ _
              (call-Ends folded lower a log observed _ _ _ made.0
                (λ x ok_is. (made.0, told (made.1 (unit_ok x ok_is)))))
              (λ done t (fine, (thread, m)). went_on (
                record {
                  honest = fine.honest;
                  remembers = inr (record {
                    decision = decision;
                    author = author;
                    thread = thread;
                    is_decision = d;
                    is_it = refl;
                    made = m;
                  });
                  trusts = fine.trusts;
                },
                (thread, m),
              )))
      ]
    where
      body : Text
      body = transparency_body decision author

      made :
          Fine folded lower a s.attempt
            (log (post_note folded lower a (some ch) s.attempt.thread body s.world).1)
          × ((post_note folded lower a (some ch) s.attempt.thread body s.world).0 ≡ ok tt
              → log (post_note folded lower a (some ch) s.attempt.thread body s.world).1
                ≡ said s.attempt.thread body ∷ log s.world)
      made =
          post-Fine folded lower a log observed ch s.attempt s.attempt.thread body s.world wired
            (announces decision author d drives refl) good

      unit_ok :
          (x : Unit {0})
          → (post_note folded lower a (some ch) s.attempt.thread body s.world).0 ≡ ok x
          → (post_note folded lower a (some ch) s.attempt.thread body s.world).0 ≡ ok tt
      unit_ok x h = h

      told :
          {l : List Effect}
          → l ≡ said s.attempt.thread body ∷ log s.world
          → (thread : Text) × Memᴰ (said thread body) l
      told e =
          (s.attempt.thread, subst (Memᴰ (said s.attempt.thread body)) (sym e) (Memᴰ.head refl))

      not_nothing : {e : Text} → IsDecision e → announcement e author ≡ [] → ⊥
      not_nothing (inl p) h = cc (rw p at h)
      not_nothing (inr p) h = cc (rw p at h)

      remembered :
          {p : Text} {l : List Effect}
          → p ≡ announcement decision author
          → (p ≡ []) ⊎ Announced folded lower a p l
          → (thread : Text) × Memᴰ (said thread (transparency_body decision author)) l
      remembered e (inl nothing) = absurd (not_nothing d (sym e ∙ nothing))
      remembered {l = l} e (inr n) =
          let (same_decision, same_author) =
            announcement-injective n.is_decision d (sym n.is_it ∙ e) in
          (
            n.thread,
            subst (λ x. Memᴰ (said n.thread (transparency_body decision x)) l) same_author
                (subst (λ x. Memᴰ (said n.thread (transparency_body x n.author)) l) same_decision
                  n.made),
          )

  pub correct-Ends :
      (ch : Channel World) (decision landed : Text) (s : Flight World)
      → a.channel ≡ some ch
      → Good folded lower a log observed s
      → EndsWell folded lower a log observed
          (λ _ t. Good folded lower a log observed t)
          (correct folded lower a ch decision landed s)
  unfolding correct
  correct-Ends ch decision landed s wired good = elim (Bool-cases (same landed decision)) [
    | inl landed_it ↦ rw landed_it (went_on good)
    | inr other ↦ rw other (
        went_on
          (post-Fine folded lower a log observed ch s.attempt s.attempt.thread _ s.world wired
            (corrects decision landed refl) good).0)
  ]
