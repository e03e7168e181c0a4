-- ===== src/Tests/Graph.antt =====
-- The write seam of internal/graphown over a client that meets a transport fault once.
use semdev.Base.{
  ℕ, suc, ◌≡◌, ◌↔◌, refl, List, [], ◌∷◌, Text, codes, ok, true, false, none, some, if◌then◌else◌,
  ◌==◌, arith,
}
use semdev.Graphown.Failures.{
  Failure, unavailable, attempt_bound-le, attempt_bound, convergent_write_kind, write_retry_backoff,
}
use semdev.Graphown.Retry.{Client, retry, gives_up, pause}
use semdev.Graphown.Bounded.{Counted, Finished, retry-Finished}
use semdev.Graphown.Writer.{Contract, Contracts, replace_policy, replace, contract_for, matched}
use semdev.Graphown.Claims.{Sole, contract_for_iff}
use semdev.Graphown.Writes.{Sent, replace-Sent}

abbrev fault : Failure
fault = record { kind = some unavailable; classified = false; message = codes "no responders" }

-- The world counts the requests; the first one fails.
abbrev client : Client ℕ
client = record {
  request = λ w. (if w == 0 then some fault else none, suc w);
  wait = λ w ms. (none, w);
}

client-Counted : Counted client (λ w. w)
client-Counted = record { request = λ w. refl; wait = λ w ms. refl }

retry-Finished_example :
    Finished replace_policy client
      (λ w. w)
      client-Counted
      4
      attempt_bound-le
      1
      0
      (retry replace_policy client 4 1 0)
retry-Finished_example =
    retry-Finished replace_policy client (λ w. w) client-Counted 4 attempt_bound-le 3 1 0
      (omega arith) (omega arith)

abbrev contracts : Contracts
contracts = record {
  of = λ owner. ok (record { name = codes "run"; entity_pattern = codes "run.*" } ∷ []);
  matches = λ pattern id. ok true;
}

contract_for_iff_example :
    (contract_for contracts (codes "station") (codes "run.1") ≡ ok (codes "run")) ↔ (
      (cs : List Contract) × (contracts.of (codes "station") ≡ ok cs)
      × Sole contracts (codes "run.1") (codes "run") cs)
contract_for_iff_example =
    contract_for_iff contracts (codes "run.1") (codes "station") (codes "run")

abbrev clients : Text → Text → List Text → Client ℕ
clients contract id payload = client

counted : (c id : Text) (p : List Text) → Counted (clients c id p) (λ w. w)
counted c id p = client-Counted

replace-Sent_example :
    Sent contracts clients
      (λ w. w)
      counted
      replace_policy
      (codes "station")
      (codes "run.1")
      []
      0
      (replace contracts clients true (codes "station") (codes "run.1") [] 0)
replace-Sent_example =
    replace-Sent contracts clients (λ w. w) counted (codes "station") (codes "run.1") [] 0

-- The second request succeeds.
replace_retries :
    replace contracts clients true (codes "station") (codes "run.1") [] 0 ≡ some (ok tt, 2)
unfolding replace contract_for retry attempt_bound convergent_write_kind write_retry_backoff matched
    gives_up pause
replace_retries = refl
