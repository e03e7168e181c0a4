-- ===== src/Graphown/Bounded.antt =====
-- How long the retry loop of internal/graphown runs and what its end means.
use semdev.Base.{
  ℕ, zero, suc, ◌+◌, ◌≤◌, ◌<◌, ◌≡◌, refl, Bool, true, false, Option, none, some, ltb, if◌then◌else◌,
  Text, arith,
}
use semdev.Graphown.Failures.{Failure}
use semdev.Graphown.Retry.{
  Policy, Client, Ending, done, failed, cancelled, pause, gives_up, resume, after_error,
  after_request, retry,
}

-- `sent` counts the requests that a world has seen. What a client promises of it: a request is one
-- more and a wait is none.
pub record Counted {World : Type 0} (client : Client World) (sent : World → ℕ) : Type 0 where
  pub request : (w : World) → sent (client.request w).1 ≡ suc (sent w)
  pub wait : (w : World) (ms : ℕ) → sent (client.wait w ms).1 ≡ sent w

-- Why a loop whose last attempt was `n` ended so, and in which world the last request was made.
pub data Ends {World : Type 0} (policy : Policy) (client : Client World) (n : ℕ)
    : Ending → World → Type 0 where
  by_success : {w : World} (v : World) → client.request v ≡ (none, w) → Ends policy client n done w
  by_failure :
      {w : World} {e : Failure} (v : World)
      → client.request v ≡ (some e, w)
      → gives_up policy client e n ≡ true
      → Ends policy client n (failed e) w
  by_context :
      {w : World} {e : Failure} {t : Text} (v u : World)
      → client.request v ≡ (some e, u)
      → gives_up policy client e n ≡ false
      → pause policy client u (policy.delay e n) ≡ (some t, w)
      → Ends policy client n (cancelled t e) w

module _ {World : Type 0} (policy : Policy) (client : Client World) (sent : World → ℕ)
    (counted : Counted client sent) (bound : ℕ)
    (bounded : (e : Failure) → policy.bound e ≤ bound) where
  -- The loop started at attempt `first` in `w` made its last attempt as number `last`.
  pub record Finished (first : ℕ) (w : World) (r : Option (Ending × World)) : Type 0 where
    pub ending : Ending
    pub after : World
    pub returned : r ≡ some (ending, after)
    pub last : ℕ
    pub in_bound : last ≤ bound
    pub requests : sent after + first ≡ suc (sent w + last)
    pub ends : Ends policy client last ending after

  goes_on-lt : (e : Failure) (n : ℕ) → gives_up policy client e n ≡ false → n < bound
  unfolding gives_up
  goes_on-lt e n h = ground (arith, bounded e)

  at_bound : (e : Failure) (n : ℕ) → bound ≤ n → gives_up policy client e n ≡ true
  unfolding gives_up
  at_bound e n h = ground (arith, bounded e)

  sent-pause : (u : World) (ms : ℕ) → sent (pause policy client u ms).1 ≡ sent u
  unfolding pause
  sent-pause u ms = paused (ltb 0 ms)
    where
      paused : (b : Bool) → sent (if b then client.wait u ms else (none, u)).1 ≡ sent u
      paused true = counted.wait u ms
      paused false = refl

  request-Finished :
      (next : World → Option (Ending × World)) (first : ℕ) (w : World)
      → first ≤ bound
      → ((v : World) → first < bound → Finished (suc first) v (next v))
      → Finished first w (after_request policy client next first (client.request w))
  request-Finished next first w low later = requested (client.request w) refl (counted.request w)
    where
      resumed :
          (u : World) (e : Failure) (p : Option Text × World)
          → client.request w ≡ (some e, u)
          → gives_up policy client e first ≡ false
          → pause policy client u (policy.delay e first) ≡ p
          → sent u ≡ suc (sent w)
          → sent p.1 ≡ sent u
          → Finished first w (resume policy client next e p)
      resumed u e (some t, v) is on paused n m = record {
        ending = cancelled t e;
        after = v;
        returned = refl;
        last = first;
        in_bound = low;
        requests = omega (arith, n, m);
        ends = by_context w u is on paused;
      }
      resumed u e (none, v) is on paused n m =
          let rest = later v (goes_on-lt e first on) in
          record {
            ending = rest.ending;
            after = rest.after;
            returned = rest.returned;
            last = rest.last;
            in_bound = rest.in_bound;
            requests = omega (arith, rest.requests, n, m);
            ends = rest.ends;
          }

      on_failure :
          (u : World) (e : Failure) (stop : Bool)
          → client.request w ≡ (some e, u)
          → gives_up policy client e first ≡ stop
          → sent u ≡ suc (sent w)
          → Finished first w (after_error policy client next first e u stop)
      on_failure u e true is stops n = record {
        ending = failed e;
        after = u;
        returned = refl;
        last = first;
        in_bound = low;
        requests = omega (arith, n);
        ends = by_failure w is stops;
      }
      on_failure u e false is on n =
          resumed u e (pause policy client u (policy.delay e first)) is on refl n (sent-pause u _)

      requested :
          (r : Option Failure × World)
          → client.request w ≡ r
          → sent r.1 ≡ suc (sent w)
          → Finished first w (after_request policy client next first r)
      requested (none, u) is n = record {
        ending = done;
        after = u;
        returned = refl;
        last = first;
        in_bound = low;
        requests = omega (arith, n);
        ends = by_success w is;
      }
      requested (some e, u) is n = on_failure u e (gives_up policy client e first) is refl n

  -- The retry loop, for a client that counts its requests and a policy with a bound on attempts,
  -- started within the bound with fuel that reaches it, ends; it has made one request for each of
  -- its attempts and none beyond the bound, and it ended for a success, a failure that gives up,
  -- or the context.
  pub retry-Finished :
      (fuel first : ℕ) (w : World)
      → first ≤ bound
      → bound ≤ first + fuel
      → Finished first w (retry policy client (suc fuel) first w)
  unfolding retry
  retry-Finished zero first w low enough = request-Finished _ first w low (λ v below. ground arith)
  retry-Finished (suc fuel) first w low enough =
      request-Finished _ first w low
        (λ v below. retry-Finished fuel (suc first) v (omega arith) (omega arith))
