-- ===== src/Graphown/Retry.antt =====
-- The bounded retry loop that `Writer.Replace` and `Creator.Create` of internal/graphown share: request,
-- stop on success, at the bound or on an error that a later attempt cannot mend, else wait and
-- request again. `none` means that the fuel ran out.
use semdev.Base.{
  ℕ, zero, suc, Bool, true, false, not, ◌||◌, Option, none, some, leb, ltb, if◌then◌else◌, Text,
}
use semdev.Graphown.Failures.{Failure}

pub record Policy : Type 0 where
  pub bound : Failure → ℕ
  pub convergent : Failure → Bool
  pub delay : Failure → ℕ → ℕ

-- A loop ends with success, with the last error, or with the context's error while it waited.
pub data Ending : Type 0 where
  done : Ending
  failed : Failure → Ending
  cancelled : Text → Failure → Ending

-- `request` is one call of the client; `wait` is the `select` between the context and the timer,
-- with the context's error if it is done.
pub record Client (World : Type 0) : Type 0 where
  pub request : World → Option Failure × World
  pub wait : World → ℕ → Option Text × World

module _ {World : Type 0} (policy : Policy) (client : Client World) where
  -- The `select`, which stands under `if delay > 0`.
  unfoldable pub pause : World → ℕ → Option Text × World
  pause w ms = if ltb 0 ms then client.wait w ms else (none, w)

  unfoldable pub gives_up : Failure → ℕ → Bool
  gives_up e attempt = leb (policy.bound e) attempt || not (policy.convergent e)

  abbrev pub resume :
      (World → Option (Ending × World)) → Failure → Option Text × World → Option (Ending × World)
  resume next e (some t, w) = some (cancelled t e, w)
  resume next e (none, w) = next w

  abbrev pub after_error :
      (World → Option (Ending × World)) → ℕ → Failure → World → Bool → Option (Ending × World)
  after_error next attempt e w true = some (failed e, w)
  after_error next attempt e w false = resume next e (pause w (policy.delay e attempt))

  abbrev pub after_request :
      (World → Option (Ending × World)) → ℕ → Option Failure × World → Option (Ending × World)
  after_request next attempt (none, w) = some (done, w)
  after_request next attempt (some e, w) = after_error next attempt e w (gives_up e attempt)

  unfoldable pub retry : ℕ → ℕ → World → Option (Ending × World)
  retry zero attempt w = none
  retry (suc fuel) attempt w = after_request (retry fuel (suc attempt)) attempt (client.request w)
