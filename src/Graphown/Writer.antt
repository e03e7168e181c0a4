-- ===== src/Graphown/Writer.antt =====
-- The owner-bound write and read seam of internal/graphown: `ContractFor` (contracts.go),
-- `Writer.Replace` and `ReadOwnedPredicates` (writer.go) and `Creator.Create` (create.go). The derived
-- contracts of an owner, the framework's pattern matcher and its projection client are parameters.
use semdev.Base.{
  ◌*◌, Bool, true, false, not, ◌||◌, Option, none, some, List, [], ◌∷◌, if◌then◌else◌, Text, codes,
  has, has_prefix, is_empty, text_le, Result, ok, err, ◌>>=◌, ◌>>◌, guard,
}
use semdev.Graphown.Failures.{
  Kind, not_found, Failure, transport_attempts, attempt_bound, convergent_write_kind,
  write_retry_backoff, convergent_create_kind,
}
use semdev.Graphown.Retry.{Policy, Client, Ending, done, failed, cancelled, retry}

pub record Contract : Type 0 where
  pub name : Text
  pub entity_pattern : Text

pub data ContractError : Type 0 where
  contracts_failed : Text → ContractError
  match_failed : Contract → Text → ContractError
  unclaimed : ContractError
  overlapping : List Text → ContractError

-- `ContractsFor` and `semtypes.MatchEntityIDPattern`
pub record Contracts : Type 0 where
  pub of : Text → Result Text (List Contract)
  pub matches : Text → Text → Result Text Bool

-- One turn of the loop over the contracts, given what the later turns collect.
abbrev pub collect :
    Contract
    → Result Text Bool
    → Result ContractError (List Text)
    → Result ContractError (List Text)
collect c (err e) rest = err (match_failed c e)
collect c (ok true) rest = rest >>= λ names. ok (c.name ∷ names)
collect c (ok false) rest = rest

abbrev pub owned_by : Result Text (List Contract) → Result ContractError (List Contract)
owned_by (ok cs) = ok cs
owned_by (err e) = err (contracts_failed e)

abbrev pub the_only : List Text → Result ContractError Text
the_only [] = err unclaimed
the_only (n ∷ []) = ok n
the_only (n ∷ m ∷ ns) = err (overlapping (n ∷ m ∷ ns))

module _ (contracts : Contracts) where
  -- The loop that collects the names of the contracts whose pattern claims the entity.
  unfoldable pub matched : Text → List Contract → Result ContractError (List Text)
  matched id [] = ok []
  matched id (c ∷ cs) = collect c (contracts.matches c.entity_pattern id) (matched id cs)

  unfoldable pub contract_for : Text → Text → Result ContractError Text
  contract_for owner id = do
    cs ← owned_by (contracts.of owner)
    names ← matched id cs
    the_only names

pub data WriteError : Type 0 where
  unbound : WriteError
  not_create_owner : Text → WriteError
  no_contract : ContractError → WriteError
  rejected : Text → Text → Failure → WriteError
  interrupted : Text → Text → Text → Failure → WriteError

-- What the loop's end is to the caller. `none`: out of fuel.
abbrev pub close :
    {World : Type 0}
    → Text
    → Text
    → Option (Ending × World)
    → Option (Result WriteError (Unit {0}) × World)
close contract id none = none
close contract id (some (done, w)) = some (ok tt, w)
close contract id (some (failed e, w)) = some (err (rejected contract id e), w)
close contract id (some (cancelled t e, w)) = some (err (interrupted contract id t e), w)

abbrev pub replace_policy : Policy
replace_policy = record {
  bound = attempt_bound;
  convergent = convergent_write_kind;
  delay = write_retry_backoff;
}

abbrev pub create_policy : Policy
create_policy = record {
  bound = λ e. transport_attempts;
  convergent = convergent_create_kind;
  delay = λ e attempt. attempt * 100;
}

-- `createOwners`
abbrev pub create_owners : List Text
create_owners = codes "admission-check" ∷ codes "standards-sync" ∷ []

module _ {World Payload : Type 0} (contracts : Contracts)
    (client : Text → Text → Payload → Client World) where
  abbrev pub send :
      Policy
      → Text
      → Payload
      → World
      → Result ContractError Text
      → Option (Result WriteError (Unit {0}) × World)
  send policy id payload w (err e) = some (err (no_contract e), w)
  send policy id payload w (ok contract) =
      close contract id (retry policy (client contract id payload) transport_attempts 1 w)

  -- `bound` says whether the writer has a reconciler.
  unfoldable pub replace :
      Bool → Text → Text → Payload → World → Option (Result WriteError (Unit {0}) × World)
  replace false owner id desired w = some (err unbound, w)
  replace true owner id desired w =
      send replace_policy id desired w (contract_for contracts owner id)

  unfoldable pub create :
      Bool → Text → Text → Payload → World → Option (Result WriteError (Unit {0}) × World)
  create false owner id triples w = some (err unbound, w)
  create true owner id triples w =
      if has create_owners owner
      then send create_policy id triples w (contract_for contracts owner id)
      else some (err (not_create_owner owner), w)

pub data ReadError : Type 0 where
  no_reader : ReadError
  unscoped : ReadError
  read_failed : Text → Failure → ReadError

-- The keys of `seen`: each predicate once.
abbrev put_once : Text → List Text → List Text
put_once p seen = if has seen p then seen else p ∷ seen

abbrev is_owned : Text → Text → Bool
is_owned prefix p = not (is_empty p || not (has_prefix p prefix))

unfoldable pub seen_of : Text → List Text → List Text
seen_of prefix [] = []
seen_of prefix (p ∷ ps) =
    let rest = seen_of prefix ps in if is_owned prefix p then put_once p rest else rest

unfoldable pub insert_text : Text → List Text → List Text
insert_text t [] = t ∷ []
insert_text t (u ∷ us) = let rest = insert_text t us in if text_le t u then t ∷ u ∷ us else u ∷ rest

-- `sort.Strings`
unfoldable pub sort_texts : List Text → List Text
sort_texts [] = []
sort_texts (t ∷ ts) = insert_text t (sort_texts ts)

abbrev is_missing : Option Kind → Bool
is_missing (some not_found) = true
is_missing _ = false

-- What the read returned: the predicates of the entity's triples, or `none` for an absent entity.
abbrev owned_in : Text → Text → Result Failure (Option (List Text)) → Result ReadError (List Text)
owned_in id prefix (err e) = if is_missing e.kind then ok [] else err (read_failed id e)
owned_in id prefix (ok none) = ok []
owned_in id prefix (ok (some ps)) = ok (sort_texts (seen_of prefix ps))

-- `none` for the reader of a registration without one.
unfoldable pub read_owned_predicates :
    Option (Text → Result Failure (Option (List Text))) → Text → Text → Result ReadError (List Text)
read_owned_predicates none id prefix = err no_reader
read_owned_predicates (some read) id prefix =
    guard (not (is_empty prefix)) unscoped >> owned_in id prefix (read id)
