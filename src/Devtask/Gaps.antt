-- ===== src/Devtask/Gaps.antt =====
-- The two checks of `Project` in internal/devtask/project.go: the schema of one task, and the indices.
use mathlib.Core.List.{Memᴰ}
use semdev.Base.{
  ℕ, ◌<◌, ◌≡◌, ◌↔◌, refl, sym, Bool, true, false, not, List, [], ◌∷◌, ◌++◌, Option, none, some,
  ◌==◌, All, Text, is_empty, is_blank, ℤ, pos, negsuc, ok, guard-eq-ok, arith, Bool-cases, inl, inr,
  or-false, not-true,
}
use semdev.Devtask.{
  RawTask, int_eq, has_index, outside, check_indices, when, is_nil, count_non_blank, schema_gaps,
  gaps_of,
}
use semdev.Devtask.Sorting.{Below, Absent, Apart}

abbrev pub task_index : RawTask → ℤ
task_index t = t.index

-- Every field that the schema requires is authored; an authored empty list is.
pub record Complete (t : RawTask) : Type 0 where
  pub goal_shown : is_blank t.goal ≡ false
  pub assumptions_authored : (l : List Text) × (t.assumptions ≡ some l)
  pub non_goals_authored : (l : List Text) × (t.non_goals ≡ some l)
  pub target_shown : (x : Text) × Memᴰ x t.target_files × (is_blank x ≡ false)
  pub command_shown : is_blank t.test_command ≡ false
  pub budget_authored : (n : ℤ) × (t.budget ≡ some n)

authored {ℓ} : {A : Type ℓ} (o : Option A) → is_nil o ≡ false → (a : A) × (o ≡ some a)
authored none h = cc
authored (some a) h = (a, refl)

not_nil {ℓ} : {A : Type ℓ} (o : Option A) {a : A} → o ≡ some a → is_nil o ≡ false
not_nil none h = cc
not_nil (some a) h = refl

count_non_blank-shown :
    (xs : List Text)
    → (count_non_blank xs == 0) ≡ false
    → (x : Text) × Memᴰ x xs × (is_blank x ≡ false)
unfolding count_non_blank
count_non_blank-shown [] h = cc
count_non_blank-shown (x ∷ xs) h = elim (Bool-cases (is_blank x)) [
  | inl blank ↦
      let (y, m, shown) = count_non_blank-shown xs (rw blank at h) in (y, Memᴰ.tail m, shown)
  | inr shown ↦ (x, Memᴰ.head refl, shown)
]

shown-count_non_blank :
    {x : Text} {xs : List Text} → Memᴰ x xs → is_blank x ≡ false → (count_non_blank xs == 0) ≡ false
unfolding count_non_blank
shown-count_non_blank (Memᴰ.head {x = y} {xs} e) h =
    let shown : is_blank y ≡ false = rw e at h in rw shown (ground arith)
shown-count_non_blank (Memᴰ.tail {x = y} {xs} m) h = ground (arith, shown-count_non_blank m h)

no_gap :
    (a b c d e f : Bool) (p q r s t u : Text)
    → is_empty (when a p ++ (when b q ++ (when c r ++ (when d s ++ (when e t ++ when f u))))) ≡ true
    → (a ≡ false) × (b ≡ false) × (c ≡ false) × (d ≡ false) × (e ≡ false) × (f ≡ false)
no_gap a b c d e f p q r s t u h = ground arith

schema_gaps-Complete : (t : RawTask) → is_empty (schema_gaps t) ≡ true → Complete t
unfolding schema_gaps
schema_gaps-Complete t h =
    let (goal, assumptions, non_goals, targets, command, budget) =
      no_gap _ _ _ _ _ _ _ _ _ _ _ _ h in
    record {
      goal_shown = goal;
      assumptions_authored = authored t.assumptions assumptions;
      non_goals_authored = authored t.non_goals non_goals;
      target_shown = count_non_blank-shown t.target_files targets;
      command_shown = command;
      budget_authored = authored t.budget budget;
    }

Complete-schema_gaps : (t : RawTask) → Complete t → is_empty (schema_gaps t) ≡ true
unfolding schema_gaps
Complete-schema_gaps t c = rw (
  c.goal_shown,
  not_nil t.assumptions c.assumptions_authored.1,
  not_nil t.non_goals c.non_goals_authored.1,
  shown-count_non_blank c.target_shown.1 c.target_shown.2,
  c.command_shown,
  not_nil t.budget c.budget_authored.1,
)

gaps_of-All : (ts : List RawTask) → gaps_of ts ≡ [] → All Complete ts
unfolding gaps_of
gaps_of-All [] h = tt
gaps_of-All (t ∷ ts) h = elim (Bool-cases (is_empty (schema_gaps t))) [
  | inl whole ↦ (schema_gaps-Complete t whole, gaps_of-All ts (rw whole at h))
  | inr gap ↦ cc (rw gap at h)
]

All-gaps_of : (ts : List RawTask) → All Complete ts → gaps_of ts ≡ []
unfolding gaps_of
All-gaps_of [] h = refl
All-gaps_of (t ∷ ts) h = rw (Complete-schema_gaps t h.0) (All-gaps_of ts h.1)

pub gaps_of_iff : (ts : List RawTask) → (gaps_of ts ≡ []) ↔ All Complete ts
gaps_of_iff ts = (gaps_of-All ts, All-gaps_of ts)

int_eq_iff : (a b : ℤ) → (int_eq a b ≡ true) ↔ (a ≡ b)
int_eq_iff a b = ground arith

inside : (n : ℕ) (i : ℤ) → outside n i ≡ false → (k : ℕ) × (i ≡ pos k) × (k < n)
inside n (pos k) h = (k, refl, ground arith)
inside n (negsuc k) h = cc

not_outside : (n k : ℕ) → k < n → outside n (pos k) ≡ false
not_outside n k h = ground arith

-- None of the tasks has an index that was seen.
abbrev Fresh : List ℤ → List RawTask → Type 0
Fresh seen ts = All (λ t. has_index seen t.index ≡ false) ts

Fresh-split :
    (i : ℤ) (seen : List ℤ) (ts : List RawTask)
    → Fresh (i ∷ seen) ts
    → Absent task_index i ts × Fresh seen ts
unfolding has_index
Fresh-split i seen [] h = (tt, tt)
Fresh-split i seen (t ∷ ts) h =
    let (other, unseen) = or-false (int_eq i t.index) _ h.0 in
    let (absent, fresh) = Fresh-split i seen ts h.1 in
    ((λ e. cc (other, (int_eq_iff i t.index).1 (sym e)), absent), (unseen, fresh))

Fresh-join :
    (i : ℤ) (seen : List ℤ) (ts : List RawTask)
    → Absent task_index i ts
    → Fresh seen ts
    → Fresh (i ∷ seen) ts
unfolding has_index
Fresh-join i seen [] a h = tt
Fresh-join i seen (t ∷ ts) a h = elim (Bool-cases (int_eq i t.index)) [
  | inl same ↦ absurd (a.0 (sym ((int_eq_iff i t.index).0 same)))
  | inr other ↦ (rw (other, h.0), Fresh-join i seen ts a.1 h.1)
]

check_indices-ok :
    (n : ℕ) (seen : List ℤ) (ts : List RawTask)
    → check_indices n seen ts ≡ ok tt
    → Below task_index n ts × Apart task_index ts × Fresh seen ts
unfolding check_indices
check_indices-ok n seen [] h = (tt, tt, tt)
check_indices-ok n seen (t ∷ ts) h =
    let (new, h₁) = guard-eq-ok (not (has_index seen t.index)) _ _ h in
    let (within, h₂) = guard-eq-ok (not (outside n t.index)) _ _ h₁ in
    let (below, apart, fresh) = check_indices-ok n (t.index ∷ seen) ts h₂ in
    let (absent, unseen) = Fresh-split t.index seen ts fresh in
    ((inside n t.index (not-true _ within), below), (absent, apart), (not-true _ new, unseen))

ok-check_indices :
    (n : ℕ) (seen : List ℤ) (ts : List RawTask)
    → Below task_index n ts
    → Apart task_index ts
    → Fresh seen ts
    → check_indices n seen ts ≡ ok tt
unfolding check_indices
ok-check_indices n seen [] below apart fresh = refl
ok-check_indices n seen (t ∷ ts) ((k, e, lt), below) (absent, apart) (new, fresh) =
    let within : outside n t.index ≡ false = rw e (not_outside n k lt) in
    rw (new, within)
      (ok-check_indices n (t.index ∷ seen) ts below apart (Fresh-join t.index seen ts absent fresh))

unseen : (ts : List RawTask) → Fresh [] ts
unfolding has_index
unseen [] = tt
unseen (t ∷ ts) = (refl, unseen ts)

-- The check of the indices, against a bound and with none seen, passes exactly when all lie from 0
-- up to the bound and no two are the same.
pub check_indices_iff :
    (n : ℕ) (ts : List RawTask)
    → (check_indices n [] ts ≡ ok tt) ↔ (Below task_index n ts × Apart task_index ts)
check_indices_iff n ts = (
  λ h. let (below, apart, _) = check_indices-ok n [] ts h in (below, apart),
  λ (below, apart). ok-check_indices n [] ts below apart (unseen ts),
)
