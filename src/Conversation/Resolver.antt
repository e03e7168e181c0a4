-- ===== src/Conversation/Resolver.antt =====
-- The choice of the run of a thread: `ResolveRunByRef` and `preferRun` of
-- internal/intake/admission/resolver.go. The paged query and the parser of a time are parameters; a time
-- is a number of nanoseconds, the zero time is 0.
use semdev.Base.{
  ℕ, zero, suc, Bool, true, false, not, List, [], ◌∷◌, Option, none, some, if◌then◌else◌, ltb, ◌==◌,
  Text, codes, same, text_le, is_empty, Result, ok, err,
}
use semdev.Conversation.{Triple, decision_predicate, issue_ref_predicate}
use semdev.Conversation.Approval.{RunState, awaiting_approval}

abbrev pub max_run_pages : ℕ
max_run_pages = 16

abbrev pub last_transition_predicate : Text
last_transition_predicate = codes "agent.run.last-transition-at"

abbrev pub no_run : RunState
no_run = record { entity_id = []; decision = []; phase = []; gate_opened_at = 0 }

pub record Found : Type 0 where
  pub id : Text
  pub triples : List Triple

pub record Page : Type 0 where
  pub entities : List Found
  pub next_cursor : Text

pub data ResolveError : Type 0 where
  query_failed : Text → ResolveError
  too_many_pages : ResolveError

-- What the loop over an entity's triples has seen.
pub record Seen : Type 0 where
  pub matches : Bool
  pub decision : Text
  pub phase : Text
  pub last_transition : ℕ

abbrev nothing_seen : Seen
nothing_seen = record { matches = false; decision = []; phase = []; last_transition = 0 }

-- `preferRun`
unfoldable pub prefer_run : RunState → RunState → Bool
prefer_run cand best =
    let cand_gated = same cand.phase awaiting_approval in
    let best_gated = same best.phase awaiting_approval in
    if cand_gated
    then (if best_gated then by_time else true)
    else (if best_gated then false else by_time)
  where
    by_time : Bool
    by_time =
        if cand.gate_opened_at == best.gate_opened_at
        then not (text_le best.entity_id cand.entity_id)
        else ltb best.gate_opened_at cand.gate_opened_at

-- The loop over the candidates, with the best so far.
unfoldable pub best_of : Option RunState → List RunState → Option RunState
unfolding prefer_run
best_of best [] = best
best_of none (c ∷ cs) = best_of (some c) cs
best_of (some b) (c ∷ cs) = best_of (some (if prefer_run c b then c else b)) cs

abbrev pub best_or_none : Option RunState → RunState
best_or_none none = no_run
best_or_none (some b) = b

abbrev pub exceeded : Option RunState → Result ResolveError RunState
exceeded none = err too_many_pages
exceeded (some b) = ok b

module _ {World : Type 0} (phase_predicate : Text) (parse_time : Text → Option ℕ)
    (query : World → Text → Result Text Page × World) where
  abbrev or_time : Option ℕ → ℕ → ℕ
  or_time none t = t
  or_time (some u) t = u

  -- One triple of an entity whose object is the string `s`.
  abbrev see : Text → Text → Text → Seen → Seen
  see ref pred s seen =
      if same pred issue_ref_predicate
      then (if same s ref then record seen { matches = true } else seen)
      else if same pred decision_predicate
      then record seen { decision = s }
      else if same pred phase_predicate
      then record seen { phase = s }
      else if same pred last_transition_predicate
      then record seen { last_transition = or_time (parse_time s) seen.last_transition }
      else seen

  unfoldable pub scan : Text → List Triple → Seen → Seen
  scan ref [] seen = seen
  scan ref (tr ∷ trs) seen = elim tr.object [
    | none ↦ scan ref trs seen
    | some s ↦ scan ref trs (see ref tr.predicate s seen)
  ]

  -- An entity's run, its gate opened at the last transition if it stands there.
  abbrev run_of : Text → Seen → RunState
  run_of id seen = record {
    entity_id = id;
    decision = seen.decision;
    phase = seen.phase;
    gate_opened_at = if same seen.phase awaiting_approval then seen.last_transition else 0;
  }

  -- The runs among the entities that carry the reference.
  unfoldable pub candidates : Text → List Found → List RunState
  unfolding scan
  candidates ref [] = []
  candidates ref (e ∷ es) =
      let rest = candidates ref es in
      let seen = scan ref e.triples nothing_seen in
      if seen.matches then run_of e.id seen ∷ rest else rest

  abbrev pub after_page :
      (Text → Option RunState → World → Result ResolveError RunState × World)
      → Text
      → Option RunState
      → Result Text Page × World
      → Result ResolveError RunState × World
  after_page more ref best (err e, w) = (err (query_failed e), w)
  after_page more ref best (ok page, w) =
      let best' = best_of best (candidates ref page.entities) in
      if is_empty page.next_cursor
      then (ok (best_or_none best'), w)
      else more page.next_cursor best' w

  -- The loop over the pages, with the pages that are left.
  unfoldable pub resolve_pages :
      ℕ → Text → Text → Option RunState → World → Result ResolveError RunState × World
  unfolding best_of candidates
  resolve_pages zero ref cursor best w = (exceeded best, w)
  resolve_pages (suc left) ref cursor best w =
      after_page (resolve_pages left ref) ref best (query w cursor)

  -- `ResolveRunByRef`
  unfoldable pub resolve_run_by_ref : Text → World → Result ResolveError RunState × World
  unfolding resolve_pages
  resolve_run_by_ref ref w = resolve_pages max_run_pages ref [] none w
