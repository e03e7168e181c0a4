-- ===== src/Conversation/Apply.antt =====
-- The deterministic apply lane of internal/conversationchannel/apply.go. `handle_dispatch` works on the
-- world and on the state that survives the retries of one dispatch. A nil error is the stop `acked`.
use semdev.Base.{
  ℕ, zero, suc, ◌-◌, ◌*◌, false, [], ◌∷◌, ◌++◌, Option, none, some, if◌then◌else◌, ltb, Text, same,
  is_empty, Result, ok, err,
}
use semdev.Base.Stateful.{Action, ◌>>=◌, ◌>>◌, present, require}
use semdev.Admission.{Config, Event, Checker, AuthError, authorize}
use semdev.Admission.Refs.{Coordinate, split_ref}
use semdev.Conversation.Notes.{
  exhausted_note, unattributable_note, transparency_body, correction_body, decision_for,
}
use semdev.Conversation.{
  Entity, entity_triple, Channel, decided_gate, issue_ref_predicate, intent_value_predicate,
  intent_author_predicate,
}

abbrev pub max_attempts : ℕ
max_attempts = 3

pub data ApplyError : Type 0 where
  unread : Text → Text → ApplyError
  not_found : Text → ApplyError
  unresolved not_notified : Text → Text → ApplyError
  undetermined : Text → Text → AuthError → ApplyError
  not_announced : Text → Text → ApplyError
  not_stamped : Text → Text → Text → ApplyError

-- Why a handler stops before its end: it returns nil, or an error.
pub data Stop : Type 0 where
  acked : Stop
  transient : ApplyError → Stop

-- `applyAttempt`
pub record Attempt : Type 0 where
  pub posted_for : Text
  pub thread : Text
  pub authorized : Text

abbrev pub first_attempt : Attempt
first_attempt = record { posted_for = []; thread = []; authorized = [] }

-- `applyConsumer` with what it calls. `entity_id` is the decoder of the dispatch envelope, `stamp` the
-- gate writer of the approval adapter, `ctx_err` is `ctx.Err()`, and `wait` gives its error if the
-- context ends within the time.
pub record ApplyConsumer (World Payload : Type 0) : Type 0 where
  pub cfg : Config
  pub channel : Option (Channel World)
  pub checker : Checker World
  pub entity : World → Text → Result Text (Option Entity) × World
  pub stamp : World → Text → Text → Result Text Text × World
  pub backoff : ℕ
  pub entity_id : Payload → Option Text
  pub ctx_err : World → Option Text
  pub wait : World → ℕ → Option Text × World

pub record Flight (World : Type 0) : Type 0 where
  pub world : World
  pub attempt : Attempt

abbrev pub announcement : Text → Text → Text
announcement decision author = decision ++ (0 ∷ author)

module _ {World Payload : Type 0} (folded lower : ℕ → ℕ) (a : ApplyConsumer World Payload) where
  abbrev pub Step : Type 0 → Type 0
  Step A = Action (Flight World) Stop A

  abbrev pub put_world :
      {A : Type 0} → Attempt → Result Stop A × World → Result Stop A × Flight World
  put_world st (r, w) = (r, record { world = w; attempt = st })

  abbrev pub as_stop :
      {E A : Type 0} → (E → ApplyError) → Result E A × World → Result Stop A × World
  as_stop wrap (ok x, w) = (ok x, w)
  as_stop wrap (err e, w) = (err (transient (wrap e)), w)

  -- A call whose error is transient.
  unfoldable pub call : {E A : Type 0} → (E → ApplyError) → (World → Result E A × World) → Step A
  call wrap port s = put_world s.attempt (as_stop wrap (port s.world))

  unfoldable pub set_attempt : (Attempt → Attempt) → Step (Unit {0})
  set_attempt change s = (ok tt, record { world = s.world; attempt = change s.attempt })

  abbrev pub posted : Option Text × World → Result Text (Unit {0}) × World
  posted (none, w) = (ok tt, w)
  posted (some e, w) = (err e, w)

  -- `postNote`
  abbrev pub post_note :
      Option (Channel World) → Text → Text → World → Result Text (Unit {0}) × World
  post_note none thread body w = (ok tt, w)
  post_note (some ch) thread body w = posted (ch.post w thread body)

  -- An envelope that does not decode, or that names no entity, is skipped.
  unfoldable pub decode_run : Payload → Option Text
  decode_run payload = elim (a.entity_id payload) [
    | none ↦ none
    | some id ↦ if is_empty id then none else some id
  ]

  -- The thread of the first attempt that resolved one.
  unfoldable pub thread_of : Channel World → Text → Step (Unit {0})
  thread_of ch ref s =
      let resolved =
        (do
          thread ← call (unresolved ref) (λ w. ch.resolve_thread w ref)
          set_attempt (λ st. record st { thread = thread }))
          s in
      if is_empty s.attempt.thread then resolved else (ok tt, s)

  -- The intent must name an author; if not, the thread is told.
  unfoldable pub attribute : Channel World → Text → Text → Step (Unit {0})
  attribute ch ref author s =
      let told =
        (do
          call (not_notified ref) (post_note (some ch) s.attempt.thread unattributable_note)
          require false acked)
          s in
      if is_empty author then told else (ok tt, s)

  unfoldable pub authorize_author : Text → Coordinate → Text → Step (Unit {0})
  authorize_author ref at author s =
      let event : Event = record {
        actor = author;
        owner = at.owner;
        repo = at.repo;
        applied_labels = [];
        authored_text = [];
      } in
      let asked =
        (do
          granted ← call (undetermined author ref) (authorize folded lower a.cfg event a.checker)
          require granted acked
          set_attempt (λ st. record st { authorized = author }))
          s in
      if same s.attempt.authorized author then (ok tt, s) else asked

  -- The transparency comment, once for what it says.
  unfoldable pub announce : Channel World → Text → Text → Text → Step (Unit {0})
  announce ch ref decision author s =
      let told =
        (do
          call (not_announced ref)
              (post_note (some ch) s.attempt.thread (transparency_body decision author))
          set_attempt (λ st. record st { posted_for = announcement decision author }))
          s in
      if same s.attempt.posted_for (announcement decision author) then (ok tt, s) else told

  -- A best-effort note where another decision stands.
  unfoldable pub correct : Channel World → Text → Text → Step (Unit {0})
  correct ch decision landed s =
      let (r, w) = post_note (some ch) s.attempt.thread (correction_body decision landed) s.world in
      if same landed decision
      then (ok tt, s)
      else (ok tt, record { world = w; attempt = s.attempt })

  -- The thread, the author, the announcement, and then the stamp.
  unfoldable pub release : Text → Channel World → Text → Text → Coordinate → Text → Step (Unit {0})
  unfolding thread_of attribute authorize_author announce correct
  release id ch decision ref at author = do
    thread_of ch ref
    attribute ch ref author
    authorize_author ref at author
    announce ch ref decision author
    landed ← call (not_stamped decision id) (λ w. a.stamp w id decision)
    correct ch decision landed

  -- What follows the read of the run.
  unfoldable pub apply_intent : Text → Channel World → Entity → Step (Unit {0})
  unfolding release
  apply_intent id ch run = do
    require (is_empty (decided_gate run)) acked
    decision ← present acked (decision_for (entity_triple run intent_value_predicate))
    let ref = entity_triple run issue_ref_predicate
    at ← present acked (split_ref ref)
    release id ch decision ref at (entity_triple run intent_author_predicate)

  unfoldable pub handle_dispatch : Payload → Step (Unit {0})
  unfolding decode_run apply_intent
  handle_dispatch payload = do
    id ← present acked (decode_run payload)
    ch ← present acked a.channel
    found ← call (unread id) (λ w. a.entity w id)
    run ← present (transient (not_found id)) found
    apply_intent id ch run

  unfoldable pub retry_backoff : ℕ
  retry_backoff = if ltb 0 a.backoff then a.backoff else 1000

  -- What follows the last attempt: a note if there is a thread, and the error if there is none.
  abbrev pub after_note : ApplyError → Result Text (Unit {0}) × World → Option ApplyError × World
  after_note e (ok _, w) = (none, w)
  after_note e (err _, w) = (some e, w)

  unfoldable pub exhausted : ApplyError → Flight World → Option ApplyError × World
  exhausted e s =
      let told = after_note e (post_note a.channel s.attempt.thread exhausted_note s.world) in
      if is_empty s.attempt.thread then (some e, s.world) else told

  abbrev pub resume :
      (Flight World → Option ApplyError × World)
      → ApplyError
      → Attempt
      → Option Text × World
      → Option ApplyError × World
  resume again e st (some cause, w) = (some e, w)
  resume again e st (none, w) = again (record { world = w; attempt = st })

  -- What follows an attempt, the context asked; `next` is there if attempts are left.
  abbrev pub after_failure :
      (ApplyError → Flight World → Option ApplyError × World)
      → ApplyError
      → Flight World
      → Option Text
      → Option ApplyError × World
  after_failure next e s (some cause) = (some e, s.world)
  after_failure next e s none = next e s

  abbrev pub after_attempt :
      (ApplyError → Flight World → Option ApplyError × World)
      → Result Stop (Unit {0}) × Flight World
      → Option ApplyError × World
  after_attempt next (ok _, s) = (none, s.world)
  after_attempt next (err acked, s) = (none, s.world)
  after_attempt next (err (transient e), s) = after_failure next e s (a.ctx_err s.world)

  -- The loop: attempt number `n`, with `left` attempts behind it.
  unfoldable pub attempts : ℕ → ℕ → Payload → Flight World → Option ApplyError × World
  unfolding handle_dispatch exhausted retry_backoff
  attempts zero n payload s = after_attempt exhausted (handle_dispatch payload s)
  attempts (suc left) n payload s =
      after_attempt
        (λ e t.
          resume (attempts left (suc n) payload) e t.attempt (a.wait t.world (n * retry_backoff)))
        (handle_dispatch payload s)

  unfoldable pub handle_apply_dispatch : Payload → World → Option ApplyError × World
  unfolding attempts
  handle_apply_dispatch payload w =
      attempts (max_attempts - 1) 1 payload (record { world = w; attempt = first_attempt })
