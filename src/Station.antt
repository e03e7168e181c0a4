-- ===== src/Station.antt =====
-- The dispatch of a deterministic station, internal/station/station.go: the handler with its retries, and
-- the fact that parks a run. The JSON decoder, the handler, the context, the timer and the writer are the
-- world's. A handler that panics is one more way for it to end.
pub mod Cut
pub mod Messages
pub mod Outcomes
use semdev.Base.{
  ℕ, zero, suc, ◌+◌, ◌-◌, ◌*◌, Bool, true, false, List, [], ◌∷◌, ◌++◌, Option, none, some,
  if◌then◌else◌, ltb, leb, Text, codes, is_empty, byte_len, rune_len, Result, ok, err,
}
use semdev.Openspec.Lines.{cut_prefix}

-- `Request`
pub record Request : Type 0 where
  pub entity_id : Text
  pub properties : List (Text × Text)
  pub subject : Text

-- `dispatchEnvelope`; a property that is no string has no value.
pub record Envelope : Type 0 where
  pub entity_id : Text
  pub properties : List (Text × Option Text)

pub data Handled : Type 0 where
  succeeded : Handled
  failed : Text → Handled
  panicked : Handled

pub record Station (World : Type 0) : Type 0 where
  pub name : Text
  pub decode : Text → Result Text Envelope
  pub handle : World → Request → Handled × World
  pub cancelled : World → Bool
  pub wait : World → ℕ → Bool × World
  pub stamp : World → Text → Text → Option Text × World

-- The counters of `Component`.
pub record Counters : Type 0 where
  pub messages_processed : ℕ
  pub errors : ℕ

abbrev pub max_handle_attempts : ℕ
max_handle_attempts = 3

-- In milliseconds.
abbrev pub handle_retry_backoff : ℕ
handle_retry_backoff = 200

abbrev pub dispatch_failed_err_limit : ℕ
dispatch_failed_err_limit = 512

-- `stringProps`
unfoldable pub string_props : List (Text × Option Text) → List (Text × Text)
string_props [] = []
string_props ((k, none) ∷ ps) = string_props ps
string_props ((k, some v) ∷ ps) = (k, v) ∷ string_props ps

-- The first `n` bytes, without a rune that is cut in two: `strings.ToValidUTF8(s[:n], "")`.
unfoldable pub take_bytes : ℕ → Text → Text
take_bytes n [] = []
take_bytes n (c ∷ cs) =
    let rest = take_bytes (n - rune_len c) cs in if leb (rune_len c) n then c ∷ rest else []

-- `truncateErr`, of a text that is valid.
unfoldable pub truncate_err : Text → Text
unfolding take_bytes byte_len
truncate_err s =
    if leb (byte_len s) dispatch_failed_err_limit
    then s
    else take_bytes dispatch_failed_err_limit s ++ 0x2026 ∷ []

abbrev pub trimmed_by : Text → Option Text → Text
trimmed_by s none = s
trimmed_by s (some rest) = rest

-- The object of the fact that parks.
unfoldable pub failed_object : Text → Text → Text
unfolding truncate_err cut_prefix
failed_object name e =
    let prefix = name ++ codes ": " in prefix ++ truncate_err (trimmed_by e (cut_prefix e prefix))

-- How the retries of `runHandler` end.
pub data Ran : Type 0 where
  done : Ran
  aborted : Text → Ran
  exhausted : Text → Ran
  crashed : Ran

module _ {World : Type 0} (s : Station World) where
  -- What follows an attempt that failed; `more` makes the next one.
  abbrev pub after_failure : Option (World → Ran × World) → ℕ → Text → World → Ran × World
  after_failure none attempt e w = if s.cancelled w then (aborted e, w) else (exhausted e, w)
  after_failure (some more) attempt e w =
      let (fired, w') = s.wait w (handle_retry_backoff * attempt) in
      let next = more w' in
      if s.cancelled w then (aborted e, w) else if fired then next else (aborted e, w')

  abbrev pub after_handle : Option (World → Ran × World) → ℕ → Handled × World → Ran × World
  after_handle more attempt (succeeded, w) = (done, w)
  after_handle more attempt (panicked, w) = (crashed, w)
  after_handle more attempt (failed e, w) = after_failure more attempt e w

  -- The attempts of `runHandler`, with those that are left after this one.
  unfoldable pub attempts : ℕ → ℕ → Request → World → Ran × World
  attempts zero attempt req w = after_handle none attempt (s.handle w req)
  attempts (suc left) attempt req w =
      after_handle (some (attempts left (suc attempt) req)) attempt (s.handle w req)

  -- `runHandler`
  unfoldable pub run_handler : Request → World → Ran × World
  unfolding attempts
  run_handler req w = attempts (max_handle_attempts - 1) 1 req w

  abbrev pub one_error : Counters → Counters
  one_error c = record c { errors = suc c.errors }

  abbrev pub after_stamp : Counters → Option Text × World → Counters × World
  after_stamp c (none, w) = (c, w)
  after_stamp c (some e, w) = (one_error c, w)

  -- `stampDispatchFailed`
  unfoldable pub stamp_dispatch_failed : Text → Text → Counters → World → Counters × World
  unfolding failed_object
  stamp_dispatch_failed id e c w = after_stamp c (s.stamp w id (failed_object s.name e))

  abbrev pub after_run : Text → Counters → Ran × World → Counters × World
  after_run id c (done, w) = (c, w)
  after_run id c (crashed, w) = (one_error c, w)
  after_run id c (aborted e, w) = (one_error c, w)
  after_run id c (exhausted e, w) = stamp_dispatch_failed id e (one_error c) w

  abbrev pub request : Text → Envelope → Request
  request subject env = record {
    entity_id = env.entity_id;
    properties = string_props env.properties;
    subject = subject;
  }

  abbrev pub after_decode : Text → Counters → Result Text Envelope → World → Counters × World
  after_decode subject c (err e) w = (one_error c, w)
  after_decode subject c (ok env) w =
      if is_empty env.entity_id
      then (one_error c, w)
      else after_run env.entity_id c (run_handler (request subject env) w)

  -- `handleMessage`
  unfoldable pub handle_message : Text → Text → Counters → World → Counters × World
  unfolding run_handler stamp_dispatch_failed string_props
  handle_message subject payload c w =
      after_decode subject (record c { messages_processed = suc c.messages_processed })
        (s.decode payload) w
