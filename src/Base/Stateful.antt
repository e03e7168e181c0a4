-- ===== src/Base/Stateful.antt =====
-- Code that changes a state and may stop early: a step takes the state and gives it back with a value or
-- with the reason it stopped. `Ends` is what holds of a step's end, on either way out.
use mathlib.Core.Path.{◌≡◌, refl}
use mathlib.Core.Bool.{Bool, true, false}
use mathlib.Core.Option.{Option, none, some}
use semdev.Base.Fallible.{Result, ok, err}

abbrev pub Action : Type 0 → Type 0 → Type 0 → Type 0
Action S E A = S → Result E A × S

abbrev proceed : {S E A B : Type 0} → (A → Action S E B) → Result E A × S → Result E B × S
proceed next (err e, s) = (err e, s)
proceed next (ok a, s) = next a s

infixl 5 ◌>>=◌ ◌>>◌
unfoldable pub ◌>>=◌ : {S E A B : Type 0} → Action S E A → (A → Action S E B) → Action S E B
(first >>= next) s = proceed next (first s)

abbrev pub ◌>>◌ : {S E B : Type 0} → Action S E (Unit {0}) → Action S E B → Action S E B
first >> rest = first >>= λ done. rest

abbrev pub give : {S E A : Type 0} → A → Action S E A
give a s = (ok a, s)

-- Stop with `e` where there is no value.
unfoldable pub present : {S E A : Type 0} → E → Option A → Action S E A
present e none s = (err e, s)
present e (some a) s = (ok a, s)

unfoldable pub require : {S E : Type 0} → Bool → E → Action S E (Unit {0})
require false e s = (err e, s)
require true e s = (ok tt, s)

-- The state is as `Stopped` says where the step stopped, else the value and the state are as `Q` says.
pub data Ends {S E : Type 0} (Stopped : S → Type 0) {A : Type 0} (Q : A → S → Type 0)
    : Result E A × S → Type 0 where
  stopped : {e : E} {s : S} → Stopped s → Ends Stopped Q (err e, s)
  went_on : {a : A} {s : S} → Q a s → Ends Stopped Q (ok a, s)

module _ {S E : Type 0} {Stopped : S → Type 0} where
  pub bind-Ends :
      {A B : Type 0} (Q : A → S → Type 0) {R : B → S → Type 0} (first : Action S E A)
      (next : A → Action S E B) (s : S)
      → Ends Stopped Q (first s)
      → ((a : A) (s : S) → Q a s → Ends Stopped R (next a s))
      → Ends Stopped R ((first >>= next) s)
  unfolding ◌>>=◌
  bind-Ends {A = A} {B = B} Q {R} first next s ended rest = both (first s) ended
    where
      both : (r : Result E A × S) → Ends Stopped Q r → Ends Stopped R (proceed next r)
      both (err e, s) (stopped h) = stopped h
      both (ok a, s) (went_on h) = rest a s h

  pub present-Ends :
      {A : Type 0} {Q : A → S → Type 0} (e : E) (o : Option A) (s : S)
      → Stopped s
      → ((a : A) → o ≡ some a → Q a s)
      → Ends Stopped Q (present e o s)
  unfolding present
  present-Ends e none s fallback found = stopped fallback
  present-Ends e (some a) s fallback found = went_on (found a refl)

  pub require-Ends :
      {Q : Unit {0} → S → Type 0} (test : Bool) (e : E) (s : S)
      → Stopped s
      → (test ≡ true → Q tt s)
      → Ends Stopped Q (require test e s)
  unfolding require
  require-Ends false e s fallback passed = stopped fallback
  require-Ends true e s fallback passed = went_on (passed refl)
