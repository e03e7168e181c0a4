-- ===== src/Devtask/Projected.antt =====
-- What `Project` of internal/devtask/project.go stamps, and when.
use mathlib.Core.List.{Memᴰ}
use semdev.Base.{
  ℕ, suc, ◌≤◌, ◌≡◌, ◌↔◌, refl, sym, ap, ◌∙◌, subst, false, not, List, [], ◌∷◌, Option, none, some,
  length, map, All, is_empty, ℤ, pos, negsuc, ok, guard-eq-ok, >>=-eq-ok, ok-injective, arith,
  Bool-cases, inl, inr, not-true,
}
use semdev.Devtask.{
  RawTask, TaskSpec, TaskGap, no_tasks, int_lt, clamp_budget, check_indices, gaps_of, spec_with,
  read_budget, specs_of, sort_by, reject_gaps, project,
}
use semdev.Devtask.Sorting.{from, Below, Absent, Apart, sort_by-All, sort_by-Memᴰ, sort_by-from}
use semdev.Devtask.Gaps.{task_index, Complete, gaps_of_iff, check_indices_iff}

abbrev pub spec_index : TaskSpec → ℤ
spec_index s = s.index

-- Whatever budget is authored, the clamped one is from 1 to 5, and one in that range is kept.
clamp_budget_bounds :
    (n : ℤ)
    → ((k : ℕ) × (clamp_budget n ≡ pos k) × (1 ≤ k) × (k ≤ 5))
      × ((m : ℕ) → n ≡ pos m → 1 ≤ m → m ≤ 5 → clamp_budget n ≡ n)
unfolding clamp_budget
clamp_budget_bounds (negsuc n) = ((1, refl, omega arith, omega arith), λ m e low high. cc)
clamp_budget_bounds (pos n) = (bounded n, λ m e low high. kept n m (cc e) low high)
  where
    bounded : (n : ℕ) → (k : ℕ) × (clamp_budget (pos n) ≡ pos k) × (1 ≤ k) × (k ≤ 5)
    bounded n = elim (Bool-cases (int_lt (pos n) (pos 1))) [
      | inl low ↦ (1, rw low, omega arith, omega arith)
      | inr enough ↦ elim (Bool-cases (int_lt (pos 5) (pos n))) [
        | inl high ↦ (5, rw (enough, high), omega arith, omega arith)
        | inr few ↦ (n, rw (enough, few), ground arith, ground arith)
      ]
    ]

    kept : (n m : ℕ) → n ≡ m → 1 ≤ m → m ≤ 5 → clamp_budget (pos n) ≡ pos n
    kept n m e low high = ground arith

-- The spec holds the task's fields, its texts trimmed and its authored budget clamped.
pub record IsSpecOf (t : RawTask) (s : TaskSpec) : Type 0 where
  pub authored : ℤ
  pub budget_is : t.budget ≡ some authored
  pub spec_is : s ≡ spec_with t authored

-- The specs of the tasks, one for each and in the same order.
abbrev Specs : List RawTask → List TaskSpec → Type 0
Specs [] [] = Unit
Specs (t ∷ ts) (s ∷ ss) = IsSpecOf t s × Specs ts ss
Specs _ _ = ⊥

read_budget-ok : (o : Option ℤ) {n : ℤ} → read_budget o ≡ ok n → o ≡ some n
read_budget-ok none h = cc
read_budget-ok (some m) h = ap some (ok-injective h)

specs_of-Specs : (ts : List RawTask) {ss : List TaskSpec} → specs_of ts ≡ ok ss → Specs ts ss
unfolding specs_of
specs_of-Specs [] h = subst (Specs []) (ok-injective h) tt
specs_of-Specs (t ∷ ts) h =
    let (n, n_is, h₁) = >>=-eq-ok (read_budget t.budget) _ h in
    let (rest, rest_is, h₂) = >>=-eq-ok (specs_of ts) _ h₁ in
    subst (Specs (t ∷ ts)) (ok-injective h₂) (
      record { authored = n; budget_is = read_budget-ok t.budget n_is; spec_is = refl },
      specs_of-Specs ts rest_is,
    )

Complete-specs_of :
    (ts : List RawTask) → All Complete ts → (ss : List TaskSpec) × (specs_of ts ≡ ok ss)
unfolding specs_of
Complete-specs_of [] h = ([], refl)
Complete-specs_of (t ∷ ts) h =
    let (n, e) = h.0.budget_authored in
    let (ss, f) = Complete-specs_of ts h.1 in (spec_with t n ∷ ss, rw (e, f))

same_index : {t : RawTask} {s : TaskSpec} → IsSpecOf t s → s.index ≡ t.index
same_index i = ap spec_index i.spec_is

length-Specs : (ts : List RawTask) (ss : List TaskSpec) → Specs ts ss → length ss ≡ length ts
length-Specs [] [] h = refl
length-Specs [] (s ∷ ss) h = absurd h
length-Specs (t ∷ ts) [] h = absurd h
length-Specs (t ∷ ts) (s ∷ ss) h = ap suc (length-Specs ts ss h.1)

Below-Specs :
    (n : ℕ) (ts : List RawTask) (ss : List TaskSpec)
    → Specs ts ss
    → Below task_index n ts
    → Below spec_index n ss
Below-Specs n [] [] h b = tt
Below-Specs n [] (s ∷ ss) h b = absurd h
Below-Specs n (t ∷ ts) [] h b = absurd h
Below-Specs n (t ∷ ts) (s ∷ ss) h ((i, e, lt), b) =
    ((i, same_index h.0 ∙ e, lt), Below-Specs n ts ss h.1 b)

Absent-Specs :
    (i : ℤ) (ts : List RawTask) (ss : List TaskSpec)
    → Specs ts ss
    → Absent task_index i ts
    → Absent spec_index i ss
Absent-Specs i [] [] h a = tt
Absent-Specs i [] (s ∷ ss) h a = absurd h
Absent-Specs i (t ∷ ts) [] h a = absurd h
Absent-Specs i (t ∷ ts) (s ∷ ss) h a =
    (λ e. a.0 (sym (same_index h.0) ∙ e), Absent-Specs i ts ss h.1 a.1)

Apart-Specs :
    (ts : List RawTask) (ss : List TaskSpec)
    → Specs ts ss
    → Apart task_index ts
    → Apart spec_index ss
Apart-Specs [] [] h a = tt
Apart-Specs [] (s ∷ ss) h a = absurd h
Apart-Specs (t ∷ ts) [] h a = absurd h
Apart-Specs (t ∷ ts) (s ∷ ss) h a = (
  subst (λ i. Absent spec_index i ss) (sym (same_index h.0)) (Absent-Specs t.index ts ss h.1 a.0),
  Apart-Specs ts ss h.1 a.1,
)

-- A spec of one of the tasks, and a task that has its spec.
abbrev pub FromTask : List RawTask → TaskSpec → Type 0
FromTask ts s = (t : RawTask) × Memᴰ t ts × IsSpecOf t s

abbrev pub HasSpec : List TaskSpec → RawTask → Type 0
HasSpec ss t = (s : TaskSpec) × Memᴰ s ss × IsSpecOf t s

FromTask-tail :
    (t : RawTask) (ts : List RawTask) (ss : List TaskSpec)
    → All (FromTask ts) ss
    → All (FromTask (t ∷ ts)) ss
FromTask-tail t ts [] h = tt
FromTask-tail t ts (s ∷ ss) ((u, m, is), h) = ((u, Memᴰ.tail m, is), FromTask-tail t ts ss h)

HasSpec-tail :
    (s : TaskSpec) (ss : List TaskSpec) (ts : List RawTask)
    → All (HasSpec ss) ts
    → All (HasSpec (s ∷ ss)) ts
HasSpec-tail s ss [] h = tt
HasSpec-tail s ss (t ∷ ts) ((u, m, is), h) = ((u, Memᴰ.tail m, is), HasSpec-tail s ss ts h)

HasSpec-sort_by :
    (ss : List TaskSpec) (ts : List RawTask)
    → All (HasSpec ss) ts
    → All (HasSpec (sort_by spec_index ss)) ts
HasSpec-sort_by ss [] h = tt
HasSpec-sort_by ss (t ∷ ts) ((u, m, is), h) =
    ((u, sort_by-Memᴰ spec_index m, is), HasSpec-sort_by ss ts h)

Specs-FromTask :
    (ts : List RawTask) (ss : List TaskSpec)
    → Specs ts ss
    → All (FromTask ts) ss × All (HasSpec ss) ts
Specs-FromTask [] [] h = (tt, tt)
Specs-FromTask [] (s ∷ ss) h = absurd h
Specs-FromTask (t ∷ ts) [] h = absurd h
Specs-FromTask (t ∷ ts) (s ∷ ss) h =
    let (sound, whole) = Specs-FromTask ts ss h.1 in
    (
      ((t, Memᴰ.head refl, h.0), FromTask-tail t ts ss sound),
      ((s, Memᴰ.head refl, h.0), HasSpec-tail s ss ts whole),
    )

-- There are tasks, their indices are all different and below their number, and each is complete.
pub record Projectable (ts : List RawTask) : Type 0 where
  pub some_task : is_empty ts ≡ false
  pub in_range : Below task_index (length ts) ts
  pub distinct : Apart task_index ts
  pub complete : All Complete ts

-- The specs stand at their indices, 0 to n - 1; each is that of one of the tasks, and each task has one.
pub record Projected (ts : List RawTask) (ss : List TaskSpec) : Type 0 where
  pub projectable : Projectable ts
  pub in_order : map spec_index ss ≡ from 0 (length ts)
  pub sound : All (FromTask ts) ss
  pub whole : All (HasSpec ss) ts

reject_gaps-ok : (gs : List TaskGap) {u : Unit {0}} → reject_gaps gs ≡ ok u → gs ≡ []
reject_gaps-ok [] h = refl
reject_gaps-ok (g ∷ gs) h = cc

-- What Project stamps is the whole projection of its tasks: there are tasks, their indices are all
-- different and below their number, and each is complete; the specs stand at the indices 0 to n -
-- 1, each is that of one of the tasks with its texts trimmed and its budget clamped, and each task
-- has one.
pub project-Projected :
    (ts : List RawTask) {ss : List TaskSpec} → project ts ≡ ok ss → Projected ts ss
unfolding project
project-Projected ts h =
    let (there, h₁) = guard-eq-ok (not (is_empty ts)) no_tasks _ h in
    let (_, indexed, h₂) = >>=-eq-ok (check_indices (length ts) [] ts) _ h₁ in
    let (_, no_gaps, h₃) = >>=-eq-ok (reject_gaps (gaps_of ts)) _ h₂ in
    let (raw, raw_is, h₄) = >>=-eq-ok (specs_of ts) _ h₃ in
    let (below, apart) = (check_indices_iff (length ts) ts).0 indexed in
    let specs = specs_of-Specs ts raw_is in
    let (sound, whole) = Specs-FromTask ts raw specs in
    let long = length-Specs ts raw specs in
    subst (Projected ts) (ok-injective h₄) (record {
      projectable = record {
        some_task = not-true _ there;
        in_range = below;
        distinct = apart;
        complete = (gaps_of_iff ts).0 (reject_gaps-ok (gaps_of ts) no_gaps);
      };
      in_order =
          sort_by-from spec_index raw
            (subst (λ n. Below spec_index n raw) (sym long)
              (Below-Specs (length ts) ts raw specs below))
            (Apart-Specs ts raw specs apart)
          ∙ ap (from 0) long;
      sound = sort_by-All spec_index (FromTask ts) raw sound;
      whole = HasSpec-sort_by raw ts whole;
    })

-- Project stamps a set of tasks exactly when there are tasks, their indices are all different and
-- below their number, and each is complete: nothing partial is stamped and no such set is refused.
pub project_iff :
    (ts : List RawTask) → ((ss : List TaskSpec) × (project ts ≡ ok ss)) ↔ Projectable ts
unfolding project
project_iff ts = (λ (ss, h). (project-Projected ts h).projectable, stamp)
  where
    stamp : Projectable ts → (ss : List TaskSpec) × (project ts ≡ ok ss)
    stamp p =
        let (ss, made) = Complete-specs_of ts p.complete in
        let indexed = (check_indices_iff (length ts) ts).1 (p.in_range, p.distinct) in
        let whole = (gaps_of_iff ts).1 p.complete in
        (sort_by spec_index ss, rw (p.some_task, indexed, whole, made))
