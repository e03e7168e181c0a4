-- ===== src/Conversation/Preferred.antt =====
-- Which run of a thread internal/intake/admission/resolver.go chooses.
use mathlib.Core.List.{Memᴰ}
use semdev.Base.{
  ℕ, zero, suc, ◌≡◌, refl, sym, ap, ◌∙◌, subst, inl, inr, true, false, List, [], ◌∷◌, ◌++◌, Option,
  none, some, if◌then◌else◌, Text, text_le, is_empty, All, Result, ok, err, Bool-cases, arith,
}
use semdev.Conversation.Approval.{RunState}
use semdev.Conversation.Resolver.{
  Page, ResolveError, no_run, prefer_run, best_of, candidates, best_or_none, after_page,
  resolve_pages, resolve_run_by_ref, max_run_pages,
}

text_le_refl : (t : Text) → text_le t t ≡ true
unfolding text_le
text_le_refl [] = refl
text_le_refl (c ∷ cs) = ground (arith, text_le_refl cs)

text_le_trans : (s t u : Text) → text_le s t ≡ true → text_le t u ≡ true → text_le s u ≡ true
unfolding text_le
text_le_trans [] t u h k = refl
text_le_trans (a ∷ s) [] u h k = cc
text_le_trans (a ∷ s) (b ∷ t) [] h k = cc
text_le_trans (a ∷ s) (b ∷ t) (c ∷ u) h k = ground (arith, text_le_trans s t u)

text_le_total : (s t : Text) → text_le s t ≡ false → text_le t s ≡ true
unfolding text_le
text_le_total [] t h = cc
text_le_total (a ∷ s) [] h = refl
text_le_total (a ∷ s) (b ∷ t) h = ground (arith, text_le_total s t)

prefer_run_asym : (r s : RunState) → prefer_run r s ≡ true → prefer_run s r ≡ false
unfolding prefer_run
prefer_run_asym r s h = ground (arith, text_le_total s.entity_id r.entity_id)

-- A run that does not beat one that does not beat a third does not beat the third.
prefer_run_cotrans :
    (r s t : RunState) → prefer_run r s ≡ false → prefer_run s t ≡ false → prefer_run r t ≡ false
unfolding prefer_run
prefer_run_cotrans r s t h k = ground (arith, text_le_trans t.entity_id s.entity_id r.entity_id)

prefer_run_irrefl : (r : RunState) → prefer_run r r ≡ false
unfolding prefer_run
prefer_run_irrefl r = ground (arith, text_le_refl r.entity_id)

-- No run of the list beats it.
abbrev Unbeaten : List RunState → RunState → Type 0
Unbeaten cs r = All (λ c. prefer_run c r ≡ false) cs

best_of-keeps :
    (b : RunState) (cs : List RunState)
    → (r : RunState) × (best_of (some b) cs ≡ some r) × Memᴰ r (b ∷ cs) × Unbeaten (b ∷ cs) r
unfolding best_of
best_of-keeps b [] = (b, refl, Memᴰ.head refl, (prefer_run_irrefl b, tt))
best_of-keeps b (c ∷ cs) = elim (Bool-cases (prefer_run c b)) [
  | inl wins ↦
      let (r, e, m, (not_c, rest)) = best_of-keeps c cs in
      (
        r,
        rw wins e,
        Memᴰ.tail m,
        (prefer_run_cotrans b c r (prefer_run_asym c b wins) not_c, (not_c, rest)),
      )
  | inr loses ↦
      let (r, e, m, (not_b, rest)) = best_of-keeps b cs in
      (r, rw loses e, insert m, (not_b, (prefer_run_cotrans c b r loses not_b, rest)))
]
  where
    insert : {r : RunState} → Memᴰ r (b ∷ cs) → Memᴰ r (b ∷ c ∷ cs)
    insert (Memᴰ.head e) = Memᴰ.head e
    insert (Memᴰ.tail m) = Memᴰ.tail (Memᴰ.tail m)

best_of-append :
    (best : Option RunState) (xs ys : List RunState)
    → best_of best (xs ++ ys) ≡ best_of (best_of best xs) ys
unfolding best_of
best_of-append best [] ys = refl
best_of-append none (c ∷ cs) ys = best_of-append (some c) cs ys
best_of-append (some b) (c ∷ cs) ys = best_of-append (some (if prefer_run c b then c else b)) cs ys

best_of-nil : (best : Option RunState) → best_of best [] ≡ best
unfolding best_of
best_of-nil none = refl
best_of-nil (some b) = refl

ok-injective : {r s : RunState} → ◌≡◌ {A = Result ResolveError RunState} (ok r) (ok s) → r ≡ s
ok-injective h = cc

-- What it means for a run to be the choice among some: there are none, or it is one of them and none
-- beats it.
abbrev pub IsChoice : List RunState → RunState → Type 0
IsChoice [] r = r ≡ no_run
IsChoice (c ∷ cs) r = Memᴰ r (c ∷ cs) × Unbeaten (c ∷ cs) r

best_of-IsChoice : (cs : List RunState) → IsChoice cs (best_or_none (best_of none cs))
unfolding best_of
best_of-IsChoice [] = refl
best_of-IsChoice (c ∷ cs) =
    let (r, e, m, unbeaten) = best_of-keeps c cs in
    subst (λ b. IsChoice (c ∷ cs) (best_or_none b)) (sym e) (m, unbeaten)

module _ {World : Type 0} (phase_predicate : Text) (parse_time : Text → Option ℕ)
    (query : World → Text → Result Text Page × World) where
  -- The runs that carry the reference on the pages that a resolution reads.
  abbrev pub on_page :
      (Text → World → List RunState) → Text → Result Text Page × World → List RunState
  on_page more ref (err e, w) = []
  on_page more ref (ok page, w) =
      candidates phase_predicate parse_time query ref page.entities
      ++ (if is_empty page.next_cursor then [] else more page.next_cursor w)

  unfoldable pub read_runs : ℕ → Text → Text → World → List RunState
  unfolding candidates
  read_runs zero ref cursor w = []
  read_runs (suc left) ref cursor w = on_page (read_runs left ref) ref (query w cursor)

  after_page-best_of :
      (more : Text → Option RunState → World → Result ResolveError RunState × World)
      → (reads : Text → World → List RunState)
      → ((cursor : Text) (best : Option RunState) (w : World) (run : RunState)
          → (more cursor best w).0 ≡ ok run
          → best_or_none (best_of best (reads cursor w)) ≡ run)
      → (ref : Text) (best : Option RunState) (answer : Result Text Page × World) (run : RunState)
      → (after_page phase_predicate parse_time query more ref best answer).0 ≡ ok run
      → best_or_none (best_of best (on_page reads ref answer)) ≡ run
  after_page-best_of more reads step ref best (err e, w) run h = cc
  after_page-best_of more reads step ref best (ok page, w) run h =
      ap best_or_none (
        best_of-append best found
          (if is_empty page.next_cursor then [] else reads page.next_cursor w))
      ∙ elim (Bool-cases (is_empty page.next_cursor)) [
        | inl last ↦
            rw last
              (ap best_or_none (best_of-nil (best_of best found)) ∙ ok-injective (rw last at h))
        | inr goes_on ↦
            rw goes_on (step page.next_cursor (best_of best found) w run (rw goes_on at h))
      ]
    where
      found : List RunState
      found = candidates phase_predicate parse_time query ref page.entities

  resolve_pages-best_of :
      (left : ℕ) (ref cursor : Text) (best : Option RunState) (w : World) (run : RunState)
      → (resolve_pages phase_predicate parse_time query left ref cursor best w).0 ≡ ok run
      → best_or_none (best_of best (read_runs left ref cursor w)) ≡ run
  unfolding resolve_pages read_runs best_of
  resolve_pages-best_of zero ref cursor none w run h = cc
  resolve_pages-best_of zero ref cursor (some b) w run h = ok-injective h
  resolve_pages-best_of (suc left) ref cursor best w run h =
      after_page-best_of (resolve_pages phase_predicate parse_time query left ref)
        (read_runs left ref) (resolve_pages-best_of left ref) ref best (query w cursor) run h

  -- Where ResolveRunByRef gives a run, either no run on the pages it read carries the reference
  -- and it is the empty run, or it is one of the runs on those pages that carry it and preferRun
  -- prefers none of them to it.
  pub resolve_run_by_ref-IsChoice :
      (ref : Text) (w : World) (run : RunState)
      → (resolve_run_by_ref phase_predicate parse_time query ref w).0 ≡ ok run
      → IsChoice (read_runs max_run_pages ref [] w) run
  unfolding resolve_run_by_ref
  resolve_run_by_ref-IsChoice ref w run h =
      subst (IsChoice (read_runs max_run_pages ref [] w))
        (resolve_pages-best_of max_run_pages ref [] none w run h)
        (best_of-IsChoice (read_runs max_run_pages ref [] w))
