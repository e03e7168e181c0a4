-- ===== src/Conversation/Tokens.antt =====
-- When a text holds an exact command of internal/conversationchannel/approval.go.
use semdev.Base.{
  ℕ, ◌≡◌, ◌↔◌, refl, ap, inl, inr, true, false, ◌&&◌, List, [], ◌∷◌, ◌++◌, Text, is_empty, fields,
  Bool-cases, and-true, arith,
}
use semdev.Admission.{equal_fold}
use semdev.Conversation.Commands.{adjacent, has_command_verb}

module _ (folded lower : ℕ → ℕ) (command verb : Text) where
  -- The command and the verb stand next to each other, whatever their case.
  pub record SideBySide (tokens : List Text) : Type 0 where
    pub before : List Text
    pub first : Text
    pub second : Text
    pub after : List Text
    pub tokens_are : tokens ≡ before ++ (first ∷ second ∷ after)
    pub is_command : equal_fold folded lower first command ≡ true
    pub is_verb : equal_fold folded lower second verb ≡ true

  SideBySide-later : {tokens : List Text} (t : Text) → SideBySide tokens → SideBySide (t ∷ tokens)
  SideBySide-later t s = record {
    before = t ∷ s.before;
    first = s.first;
    second = s.second;
    after = s.after;
    tokens_are = ap (λ l. t ∷ l) s.tokens_are;
    is_command = s.is_command;
    is_verb = s.is_verb;
  }

  adjacent-SideBySide :
      (tokens : List Text) → adjacent folded lower command verb tokens ≡ true → SideBySide tokens
  unfolding adjacent
  adjacent-SideBySide [] h = cc
  adjacent-SideBySide (t ∷ []) h = cc
  adjacent-SideBySide (t ∷ u ∷ rest) h =
      elim (Bool-cases (equal_fold folded lower t command && equal_fold folded lower u verb)) [
        | inl here ↦
            let (c, v) = and-true _ _ here in
            record {
              before = [];
              first = t;
              second = u;
              after = rest;
              tokens_are = refl;
              is_command = c;
              is_verb = v;
            }
        | inr not_here ↦ SideBySide-later t (adjacent-SideBySide (u ∷ rest) (rw not_here at h))
      ]

  SideBySide-adjacent :
      (before : List Text) (t u : Text) (after : List Text)
      → equal_fold folded lower t command ≡ true
      → equal_fold folded lower u verb ≡ true
      → adjacent folded lower command verb (before ++ (t ∷ u ∷ after)) ≡ true
  unfolding adjacent
  SideBySide-adjacent [] t u after c v = rw (c, v)
  SideBySide-adjacent (b ∷ []) t u after c v = ground (arith, c, v)
  SideBySide-adjacent (b ∷ d ∷ before) t u after c v =
      ground (arith, SideBySide-adjacent (d ∷ before) t u after c v)

  -- A text holds a command and verb exactly when the command is configured and two tokens next to
  -- each other among the text's fields are the command and the verb up to case.
  has_command_verb_iff :
      (text : Text)
      → (has_command_verb folded lower command verb text ≡ true)
        ↔ ((is_empty command ≡ false) × SideBySide (fields text))
  unfolding has_command_verb
  has_command_verb_iff text = (to, from)
    where
      to :
          has_command_verb folded lower command verb text ≡ true
          → (is_empty command ≡ false) × SideBySide (fields text)
      to h = elim (Bool-cases (is_empty command)) [
        | inl unset ↦ cc (rw unset at h)
        | inr set ↦ (set, adjacent-SideBySide (fields text) (rw set at h))
      ]

      from :
          (is_empty command ≡ false) × SideBySide (fields text)
          → has_command_verb folded lower command verb text ≡ true
      from (set, s) =
          rw (set, s.tokens_are)
            (SideBySide-adjacent s.before s.first s.second s.after s.is_command s.is_verb)
