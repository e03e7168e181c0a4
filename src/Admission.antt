-- ===== src/Admission.antt =====
-- The deterministic admission gate of internal/intake/admission/admission.go, which decides without a
-- model call whether a code-host event may start a run.
pub mod Gate
pub mod Decides
pub mod Refs
pub mod Splits
pub mod Asked
use semdev.Base.{
  ℕ, Bool, true, false, not, ◌&&◌, ◌||◌, Option, none, some, List, [], ◌∷◌, map, if◌then◌else◌, any,
  Text, codes, same, has, is_empty, trim_space, fields, Result, ok, err,
}

pub record Config : Type 0 where
  pub allowlist : List Text
  pub opt_in_label : Text
  pub opt_in_command : Text

pub record Event : Type 0 where
  pub actor : Text
  pub owner : Text
  pub repo : Text
  pub applied_labels : List Text
  pub authored_text : Text

pub data AuthError : Type 0 where
  no_checker : Text → AuthError
  lookup_failed : Text → AuthError

-- The message of a decision, by its format and arguments.
pub data Reason : Type 0 where
  no_reason no_actor : Reason
  undetermined : Text → AuthError → Reason
  unauthorized : Text → Reason
  not_opted_in : Text → Text → Text → Reason
  authorized_and_opted_in : Text → Reason

pub record Decision : Type 0 where
  pub admitted : Bool
  pub actor : Text
  pub authorized : Bool
  pub opted_in : Bool
  pub reason : Reason

-- `PermissionChecker`: a call over the network, with its error as a text. A checker that is not
-- wired is `none`.
abbrev pub Checker : Type 0 → Type 0
Checker World = Option (World → Text → Text → Text → Result Text Text × World)

abbrev pub authorized_levels : List Text
authorized_levels = codes "admin" ∷ codes "maintain" ∷ codes "write" ∷ []

abbrev pub with_actor : Event → Text → Event
with_actor ev actor = record {
  actor = actor;
  owner = ev.owner;
  repo = ev.repo;
  applied_labels = ev.applied_labels;
  authored_text = ev.authored_text;
}

-- `AllowlistOnlyChecker`
unfoldable pub allowlist_only_checker : {World : Type 0} → Checker World
allowlist_only_checker = some (λ w owner repo actor. (ok (codes "none"), w))

-- `folded` is the least code point that `unicode.SimpleFold` reaches from one, `lower` is
-- `unicode.ToLower`.
module _ (folded lower : ℕ → ℕ) where
  -- `strings.EqualFold`
  abbrev pub equal_fold : Text → Text → Bool
  equal_fold s t = same (map folded s) (map folded t)

  unfoldable pub allowlisted : List Text → Text → Bool
  allowlisted list actor = any (λ a. equal_fold (trim_space a) actor) list

  abbrev pub has_level : Text → Bool
  has_level level = has authorized_levels (map lower (trim_space level))

  abbrev pub judge_level :
      {World : Type 0} → Result Text Text × World → Result AuthError Bool × World
  judge_level (ok level, w) = (ok (has_level level), w)
  judge_level (err e, w) = (err (lookup_failed e), w)

  abbrev pub ask : {World : Type 0} → Event → Checker World → World → Result AuthError Bool × World
  ask ev none w = (err (no_checker ev.actor), w)
  ask ev (some check) w = judge_level (check w ev.owner ev.repo ev.actor)

  -- The unexported `authorize`.
  unfoldable pub authorize_actor :
      {World : Type 0} → Config → Event → Checker World → World → Result AuthError Bool × World
  authorize_actor cfg ev checker w =
      if allowlisted cfg.allowlist ev.actor then (ok true, w) else ask ev checker w

  -- The exported `Authorize`.
  unfoldable pub authorize :
      {World : Type 0} → Config → Event → Checker World → World → Result AuthError Bool × World
  authorize cfg ev checker w =
      let actor = trim_space ev.actor in
      if is_empty actor then (ok false, w) else authorize_actor cfg (with_actor ev actor) checker w

  unfoldable pub label_opts_in : Config → Event → Bool
  label_opts_in cfg ev =
      not (is_empty cfg.opt_in_label)
      && any (λ l. equal_fold (trim_space l) cfg.opt_in_label) ev.applied_labels

  unfoldable pub command_opts_in : Config → Event → Bool
  command_opts_in cfg ev =
      not (is_empty cfg.opt_in_command)
      && any (λ t. equal_fold t cfg.opt_in_command) (fields ev.authored_text)

  unfoldable pub is_opted_in : Config → Event → Bool
  is_opted_in cfg ev = label_opts_in cfg ev || command_opts_in cfg ev

  -- The `switch` over the two halves.
  abbrev pub verdict : Config → Text → Bool → Bool → Decision
  verdict cfg actor false opted = record {
    admitted = false;
    actor = actor;
    authorized = false;
    opted_in = opted;
    reason = unauthorized actor;
  }
  verdict cfg actor true false = record {
    admitted = false;
    actor = actor;
    authorized = true;
    opted_in = false;
    reason = not_opted_in actor cfg.opt_in_label cfg.opt_in_command;
  }
  verdict cfg actor true true = record {
    admitted = true;
    actor = actor;
    authorized = true;
    opted_in = true;
    reason = authorized_and_opted_in actor;
  }

  abbrev pub rejected : Text → Reason → Decision
  rejected actor reason = record {
    admitted = false;
    actor = actor;
    authorized = false;
    opted_in = false;
    reason = reason;
  }

  abbrev pub conclude :
      {World : Type 0}
      → Config
      → Event
      → Result AuthError Bool × World
      → (Decision × Option AuthError) × World
  conclude cfg ev (err e, w) = ((rejected ev.actor (undetermined ev.actor e), some e), w)
  conclude cfg ev (ok authorized, w) =
      ((verdict cfg ev.actor authorized (is_opted_in cfg ev), none), w)

  -- A decision and an error, as the code returns them, and the world after the lookup.
  unfoldable pub decide :
      {World : Type 0}
      → Config
      → Event
      → Checker World
      → World
      → (Decision × Option AuthError) × World
  decide cfg ev checker w =
      let actor = trim_space ev.actor in
      if is_empty actor
      then ((rejected actor no_actor, none), w)
      else conclude cfg (with_actor ev actor) (authorize_actor cfg (with_actor ev actor) checker w)
