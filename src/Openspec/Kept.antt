-- ===== src/Openspec/Kept.antt =====
-- What the loop of `ParseSpec` of internal/openspec/parse.go keeps of what it has read.
use semdev.Base.{
  ◌≡◌, refl, sym, subst, false, List, [], ◌∷◌, ◌++◌, Option, some, none, append_assoc, Text,
  is_empty, All-append, split, join, trim_space-StartsSolid, Lacks, All,
}
use semdev.Openspec.Model.{Scenario, Requirement}
use semdev.Openspec.Spec.{
  Reading, newline, prose_text, with_scenario, with_statement, add_req, flush_scenario,
  flush_requirement, open_scenario,
}
use semdev.Openspec.Trimmed.{IsTrimmed, IsTrimmed-append, split-join}
use semdev.Openspec.Canonical.{IsName, IsProse, IsBody, IsScenario, IsRequirement}
use semdev.Openspec.Margin.{IsLine}

-- What holds of a value that may be there.
abbrev pub OnSome : {A : Type 0} → (A → Type 0) → Option A → Type 0
OnSome P none = Unit
OnSome P (some a) = P a

-- A requirement that is being read.
pub record IsOpen (r : Requirement) : Type 0 where
  pub name : IsName r.name
  pub empty : r.statement ≡ []
  pub scenarios : All IsScenario r.scenarios

-- What the loop over the lines keeps.
pub record IsReading (s : Reading) : Type 0 where
  pub title : IsName s.title
  pub done : All IsRequirement s.done
  pub purpose : All IsLine s.purpose_lines
  pub stmt : All IsLine s.stmt_lines
  pub req : OnSome IsOpen s.cur_req
  pub scen : OnSome IsScenario s.cur_scen

join-filled :
    (l : Text) (ls : List Text) → is_empty l ≡ false → is_empty (join newline (l ∷ ls)) ≡ false
unfolding join
join-filled l [] h = h
join-filled [] (m ∷ ls) h = cc
join-filled (c ∷ cs) (m ∷ ls) h = refl

IsTrimmed-cons-newline :
    (l t : Text)
    → IsTrimmed l
    → is_empty l ≡ false
    → IsTrimmed t
    → is_empty t ≡ false
    → IsTrimmed (l ++ (10 ∷ t))
IsTrimmed-cons-newline [] t h f k g = cc
IsTrimmed-cons-newline (c ∷ p) [] h f k g = cc
IsTrimmed-cons-newline (c ∷ p) (d ∷ r) h f k g =
    subst (λ u. IsTrimmed (c ∷ u)) (append_assoc p (10 ∷ []) (d ∷ r))
      (IsTrimmed-append c (p ++ 10 ∷ []) d r (trim_space-StartsSolid (c ∷ p) h) k)

join-IsTrimmed :
    (l : Text) (ls : List Text) → IsLine l → All IsLine ls → IsTrimmed (join newline (l ∷ ls))
unfolding join
join-IsTrimmed l [] h hs = h.name.0
join-IsTrimmed l (m ∷ ls) h (k, hs) =
    IsTrimmed-cons-newline l (join newline (m ∷ ls)) h.name.0 h.filled (join-IsTrimmed m ls k hs)
      (join-filled m ls k.filled)

All-Lacks : (ls : List Text) → All IsLine ls → All (Lacks 10) ls
All-Lacks [] h = tt
All-Lacks (l ∷ ls) (h, hs) = (h.name.1, All-Lacks ls hs)

All-IsProse : (ls : List Text) → All IsLine ls → All IsProse ls
All-IsProse [] h = tt
All-IsProse (l ∷ ls) (h, hs) = (h.prose_line, All-IsProse ls hs)

IsBody-intro : (t : Text) → IsTrimmed t → All IsProse (split 10 t) → IsBody t
IsBody-intro [] h k = tt
IsBody-intro (c ∷ cs) h k = (h, k)

pub prose_text-IsBody : (ls : List Text) → All IsLine ls → IsBody (prose_text ls)
unfolding prose_text
prose_text-IsBody [] h = tt
prose_text-IsBody (l ∷ ls) h =
    let trimmed = join-IsTrimmed l ls h.0 h.1 in
    subst IsBody (sym trimmed) (
      IsBody-intro (join newline (l ∷ ls)) trimmed (
        subst (All IsProse) (sym (split-join l ls (All-Lacks (l ∷ ls) h)))
          (All-IsProse (l ∷ ls) h)))

with_scenario-IsOpen :
    (r : Option Requirement) (sc : Option Scenario)
    → OnSome IsOpen r
    → OnSome IsScenario sc
    → OnSome IsOpen (with_scenario r sc)
with_scenario-IsOpen none sc h k = tt
with_scenario-IsOpen (some r) none h k = h
with_scenario-IsOpen (some r) (some sc) h k = record {
  name = h.name;
  empty = h.empty;
  scenarios = All-append IsScenario r.scenarios (sc ∷ []) h.scenarios (k, tt);
}

with_statement-IsRequirement :
    (r : Requirement) (ls : List Text)
    → IsOpen r
    → All IsLine ls
    → IsRequirement (with_statement r ls)
with_statement-IsRequirement r [] h k = record {
  name = h.name;
  statement = subst IsBody (sym h.empty) tt;
  scenarios = h.scenarios;
}
with_statement-IsRequirement r (l ∷ ls) h k = record {
  name = h.name;
  statement = prose_text-IsBody (l ∷ ls) k;
  scenarios = h.scenarios;
}

add_req-IsRequirement :
    (rs : List Requirement) (r : Option Requirement) (ls : List Text)
    → All IsRequirement rs
    → OnSome IsOpen r
    → All IsLine ls
    → All IsRequirement (add_req rs r ls)
add_req-IsRequirement rs none ls h k l = h
add_req-IsRequirement rs (some r) ls h k l =
    All-append IsRequirement rs (with_statement r ls ∷ []) h
      (with_statement-IsRequirement r ls k l, tt)

pub flush_requirement-IsReading : (s : Reading) → IsReading s → IsReading (flush_requirement s)
unfolding flush_requirement
flush_requirement-IsReading s h = record {
  title = h.title;
  done =
      add_req-IsRequirement s.done (with_scenario s.cur_req s.cur_scen) s.stmt_lines h.done
        (with_scenario-IsOpen s.cur_req s.cur_scen h.req h.scen) h.stmt;
  purpose = h.purpose;
  stmt = tt;
  req = tt;
  scen = tt;
}

pub flush_scenario-IsReading : (s : Reading) → IsReading s → IsReading (flush_scenario s)
unfolding flush_scenario
flush_scenario-IsReading s h = record {
  title = h.title;
  done = h.done;
  purpose = h.purpose;
  stmt = h.stmt;
  req = with_scenario-IsOpen s.cur_req s.cur_scen h.req h.scen;
  scen = tt;
}

pub open_scenario-IsReading :
    (n : Text) (r : Option Requirement) (s : Reading)
    → IsName n
    → IsReading s
    → IsReading (open_scenario n r s)
open_scenario-IsReading n none s name h = record {
  title = h.title;
  done = h.done;
  purpose = h.purpose;
  stmt = h.stmt;
  req = h.req;
  scen = h.scen;
}
open_scenario-IsReading n (some r) s name h = record {
  title = h.title;
  done = h.done;
  purpose = h.purpose;
  stmt = h.stmt;
  req = h.req;
  scen = record { name = name; steps = tt };
}
