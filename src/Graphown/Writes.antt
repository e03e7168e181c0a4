-- ===== src/Graphown/Writes.antt =====
-- What a write through internal/graphown promises: `Writer.Replace` and `Creator.Create` over the
-- retry loop, and the contract that `ContractFor` resolves.
use semdev.Base.{ℕ, suc, ◌+◌, ◌≤◌, ◌≡◌, refl, true, Option, some, Text, has, arith, Result, ok, err}
use semdev.Graphown.Failures.{Failure, attempt_bound-le, transport_attempts}
use semdev.Graphown.Retry.{Policy, Client, Ending, done, failed, cancelled}
use semdev.Graphown.Bounded.{Counted, Ends, retry-Finished}
use semdev.Graphown.Writer.{
  Contracts, ContractError, contract_for, WriteError, no_contract, rejected, interrupted, close,
  replace_policy, create_policy, create_owners, send, replace, create,
}

module _ {World Payload : Type 0} (contracts : Contracts)
    (client : Text → Text → Payload → Client World) (sent : World → ℕ)
    (counted : (c id : Text) (p : Payload) → Counted (client c id p) sent) where
  -- What the caller's result says of the requests that were made, `n` of them, the last one in the
  -- attempt of that number.
  pub data Told (policy : Policy) (owner id : Text) (payload : Payload) (w : World)
      : Result WriteError (Unit {0}) → World → Type 0 where
    unrouted :
        {e : ContractError}
        → contract_for contracts owner id ≡ err e
        → Told policy owner id payload w (err (no_contract e)) w
    written :
        {c : Text} {after : World} {n : ℕ}
        → contract_for contracts owner id ≡ ok c
        → sent after ≡ sent w + n
        → Ends policy (client c id payload) n done after
        → Told policy owner id payload w (ok tt) after
    refused :
        {c : Text} {e : Failure} {after : World} {n : ℕ}
        → contract_for contracts owner id ≡ ok c
        → sent after ≡ sent w + n
        → Ends policy (client c id payload) n (failed e) after
        → Told policy owner id payload w (err (rejected c id e)) after
    stopped :
        {c t : Text} {e : Failure} {after : World} {n : ℕ}
        → contract_for contracts owner id ≡ ok c
        → sent after ≡ sent w + n
        → Ends policy (client c id payload) n (cancelled t e) after
        → Told policy owner id payload w (err (interrupted c id t e)) after

  pub record Sent (policy : Policy) (owner id : Text) (payload : Payload) (w : World)
      (r : Option (Result WriteError (Unit {0}) × World)) : Type 0 where
    pub result : Result WriteError (Unit {0})
    pub after : World
    pub returned : r ≡ some (result, after)
    pub requests : sent after ≤ sent w + transport_attempts
    pub told : Told policy owner id payload w result after

  send-Sent :
      (policy : Policy)
      → ((e : Failure) → policy.bound e ≤ transport_attempts)
      → (owner id : Text) (payload : Payload) (w : World)
      → Sent policy owner id payload w
          (send contracts client policy id payload w (contract_for contracts owner id))
  send-Sent policy bounded owner id payload w = routed (contract_for contracts owner id) refl
    where
      ended :
          (c : Text) (ending : Ending) (after : World) (n : ℕ)
          → contract_for contracts owner id ≡ ok c
          → n ≤ transport_attempts
          → sent after + 1 ≡ suc (sent w + n)
          → Ends policy (client c id payload) n ending after
          → Sent policy owner id payload w (close c id (some (ending, after)))
      ended c done after n is low count ends = record {
        result = ok tt;
        after = after;
        returned = refl;
        requests = omega (arith, count, low);
        told = written is (omega (arith, count)) ends;
      }
      ended c (failed e) after n is low count ends = record {
        result = err (rejected c id e);
        after = after;
        returned = refl;
        requests = omega (arith, count, low);
        told = refused is (omega (arith, count)) ends;
      }
      ended c (cancelled t e) after n is low count ends = record {
        result = err (interrupted c id t e);
        after = after;
        returned = refl;
        requests = omega (arith, count, low);
        told = stopped is (omega (arith, count)) ends;
      }

      routed :
          (r : Result ContractError Text)
          → contract_for contracts owner id ≡ r
          → Sent policy owner id payload w (send contracts client policy id payload w r)
      routed (err e) is = record {
        result = err (no_contract e);
        after = w;
        returned = refl;
        requests = omega arith;
        told = unrouted is;
      }
      routed (ok c) is =
          let loop =
            retry-Finished policy (client c id payload) sent (counted c id payload)
              transport_attempts bounded 3 1 w (omega arith) (omega arith) in
          rw (loop.returned)
            (ended c loop.ending loop.after loop.last is loop.in_bound loop.requests loop.ends)

  -- A bound writer's Replace returns. It makes at most four requests, none without a contract; it
  -- succeeds only if its last request did, and its error is that of the last request. Where it
  -- fails after n requests, n is the number of attempts allowed for that failure or more, or no
  -- later attempt could mend it, or the context ended the wait after it.
  pub replace-Sent :
      (owner id : Text) (desired : Payload) (w : World)
      → Sent replace_policy owner id desired w (replace contracts client true owner id desired w)
  unfolding replace
  replace-Sent owner id desired w = send-Sent replace_policy attempt_bound-le owner id desired w

  -- A sanctioned owner's Create returns. It makes at most four requests, none without a contract;
  -- it succeeds only if its last request did, and its error is that of the last request, which was
  -- the last attempt allowed or no later attempt could mend, or which the context followed.
  create-Sent :
      (owner id : Text) (triples : Payload) (w : World)
      → has create_owners owner ≡ true
      → Sent create_policy owner id triples w (create contracts client true owner id triples w)
  unfolding create
  create-Sent owner id triples w sanctioned =
      rw sanctioned (send-Sent create_policy (λ e. omega arith) owner id triples w)
