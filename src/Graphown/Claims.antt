-- ===== src/Graphown/Claims.antt =====
-- Which contract `ContractFor` of internal/graphown/contracts.go resolves.
use semdev.Base.{
  ◌≡◌, refl, ap, ◌∙◌, ◌↔◌, Bool, true, false, List, [], ◌∷◌, Text, All, Result, ok, err, >>=-eq-ok,
  ok-injective,
}
use semdev.Graphown.Writer.{
  Contract, Contracts, ContractError, collect, the_only, owned_by, matched, contract_for,
}

module _ (contracts : Contracts) (id : Text) where
  abbrev pub Claims : Bool → Contract → Type 0
  Claims b c = contracts.matches c.entity_pattern id ≡ ok b

  -- Exactly one of the contracts claims the entity, it is the one named, and the matcher answered for
  -- every one.
  pub data Sole (name : Text) : List Contract → Type 0 where
    here :
        {c : Contract} {cs : List Contract}
        → Claims true c
        → c.name ≡ name
        → All (Claims false) cs
        → Sole name (c ∷ cs)
    there : {c : Contract} {cs : List Contract} → Claims false c → Sole name cs → Sole name (c ∷ cs)

  collect-nil :
      (c : Contract) (r : Result Text Bool) (rest : Result ContractError (List Text))
      → collect c r rest ≡ ok []
      → (r ≡ ok false) × (rest ≡ ok [])
  collect-nil c (err e) rest h = cc
  collect-nil c (ok true) rest h = let (names, _, e) = >>=-eq-ok rest _ h in cc
  collect-nil c (ok false) rest h = (refl, h)

  matched-unclaimed : (cs : List Contract) → matched contracts id cs ≡ ok [] → All (Claims false) cs
  unfolding matched
  matched-unclaimed [] h = tt
  matched-unclaimed (c ∷ cs) h =
      let (first, rest) = collect-nil c _ _ h in (first, matched-unclaimed cs rest)

  unclaimed-matched : (cs : List Contract) → All (Claims false) cs → matched contracts id cs ≡ ok []
  unfolding matched
  unclaimed-matched [] h = refl
  unclaimed-matched (c ∷ cs) h = rw (h.0) (unclaimed-matched cs h.1)

  abbrev first_of : List Text → Text
  first_of [] = []
  first_of (n ∷ ns) = n

  abbrev rest_of : List Text → List Text
  rest_of [] = []
  rest_of (n ∷ ns) = ns

  collect-one :
      (name : Text) (c : Contract) (cs : List Contract) (r : Result Text Bool)
      (rest : Result ContractError (List Text))
      → contracts.matches c.entity_pattern id ≡ r
      → matched contracts id cs ≡ rest
      → (rest ≡ ok (name ∷ []) → Sole name cs)
      → collect c r rest ≡ ok (name ∷ [])
      → Sole name (c ∷ cs)
  collect-one name c cs (err e) rest is more later h = cc
  collect-one name c cs (ok true) rest is more later h =
      let (names, e, f) = >>=-eq-ok rest _ h in
      let both : c.name ∷ names ≡ name ∷ [] = ok-injective f in
      here is (ap first_of both) (matched-unclaimed cs (more ∙ e ∙ ap (λ l. ok (rest_of l)) both))
  collect-one name c cs (ok false) rest is more later h = there is (later h)

  matched-Sole :
      (name : Text) (cs : List Contract) → matched contracts id cs ≡ ok (name ∷ []) → Sole name cs
  unfolding matched
  matched-Sole name [] h = cc
  matched-Sole name (c ∷ cs) h =
      collect-one name c cs (contracts.matches c.entity_pattern id) (matched contracts id cs) refl
        refl (matched-Sole name cs) h

  Sole-matched :
      (name : Text) {cs : List Contract} → Sole name cs → matched contracts id cs ≡ ok (name ∷ [])
  unfolding matched
  Sole-matched name (here {c} {cs} claimed named others) =
      rw (claimed, unclaimed-matched cs others, named) refl
  Sole-matched name (there {c} {cs} unclaims rest) = rw unclaims (Sole-matched name rest)

  the_only-one : (ns : List Text) (name : Text) → the_only ns ≡ ok name → ns ≡ name ∷ []
  the_only-one [] name h = cc
  the_only-one (n ∷ []) name h = ap (λ m. m ∷ []) (ok-injective h)
  the_only-one (n ∷ m ∷ ns) name h = cc

  owned_by-ok :
      (r : Result Text (List Contract)) (cs : List Contract) → owned_by r ≡ ok cs → r ≡ ok cs
  owned_by-ok (ok ds) cs h = ap (λ l. ok l) (ok-injective h)
  owned_by-ok (err e) cs h = cc

  -- ContractFor names a contract exactly when the owner's contracts are known, the matcher answers
  -- for each of them, and one alone claims the entity: that one is named.
  pub contract_for_iff :
      (owner name : Text)
      → (contract_for contracts owner id ≡ ok name)
        ↔ ((cs : List Contract) × (contracts.of owner ≡ ok cs) × Sole name cs)
  unfolding contract_for
  contract_for_iff owner name = (to, from)
    where
      to :
          contract_for contracts owner id ≡ ok name
          → (cs : List Contract) × (contracts.of owner ≡ ok cs) × Sole name cs
      to h =
          let (cs, known, rest) = >>=-eq-ok (owned_by (contracts.of owner)) _ h in
          let (names, some_matched, one) = >>=-eq-ok (matched contracts id cs) _ rest in
          let single = the_only-one names name one in
          (cs, owned_by-ok _ cs known, matched-Sole name cs (some_matched ∙ ap (λ l. ok l) single))

      from :
          ((cs : List Contract) × (contracts.of owner ≡ ok cs) × Sole name cs)
          → contract_for contracts owner id ≡ ok name
      from (cs, known, sole) = rw (known, Sole-matched name sole) refl
