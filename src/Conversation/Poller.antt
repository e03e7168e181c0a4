-- ===== src/Conversation/Poller.antt =====
-- One pass of the poller of internal/conversationchannel/poller.go. The cursors are a list of the threads
-- that have one; a thread with none starts from the empty cursor. Logging is left out.
use semdev.Base.{
  Bool, true, false, List, [], ◌∷◌, Option, none, some, if◌then◌else◌, Text, same, has, Result, ok,
  err,
}
use semdev.Conversation.Approval.{Message}

abbrev pub Cursors : Type 0
Cursors = List (Text × Text)

-- `poller` with what it calls: the enumeration of the runs at the gate, the channel, and the approval
-- core, whose error is transient.
pub record Poller (World : Type 0) : Type 0 where
  pub awaiting : World → Result Text (List Text) × World
  pub resolve_thread : World → Text → Result Text Text × World
  pub read : World → Text → Text → Result Text (List Message × Text) × World
  pub handle : World → Message → Text → Option Text × World

unfoldable pub cursor_of : Cursors → Text → Text
cursor_of [] thread = []
cursor_of ((t, c) ∷ cs) thread =
    let later = cursor_of cs thread in if same t thread then c else later

unfoldable pub set_cursor : Text → Text → Cursors → Cursors
set_cursor thread cursor [] = (thread, cursor) ∷ []
set_cursor thread cursor ((t, c) ∷ cs) =
    let later = set_cursor thread cursor cs in
    if same t thread then (thread, cursor) ∷ cs else (t, c) ∷ later

-- The cursors of the threads that are active.
unfoldable pub prune : List Text → Cursors → Cursors
prune active [] = []
prune active ((t, c) ∷ cs) =
    let later = prune active cs in if has active t then (t, c) ∷ later else later

-- What a pass carries from thread to thread.
pub record Pass (World : Type 0) : Type 0 where
  pub active : List Text
  pub cursors : Cursors
  pub world : World

module _ {World : Type 0} (p : Poller World) where
  abbrev pub after_message : (World → Bool × World) → Option Text × World → Bool × World
  after_message others (some e, w) = (false, w)
  after_message others (none, w) = others w

  -- The messages in order, up to the first that fails; whether all were handled.
  unfoldable pub handle_all : Text → List Message → World → Bool × World
  handle_all thread [] w = (true, w)
  handle_all thread (m ∷ ms) w = after_message (handle_all thread ms) (p.handle w m thread)

  abbrev pub advance : Text → Text → Cursors → Bool → Cursors
  advance thread next cs true = set_cursor thread next cs
  advance thread next cs false = cs

  -- A thread that was read, or not.
  abbrev pub after_read :
      Text → List Text → Cursors → Result Text (List Message × Text) × World → Pass World
  after_read thread active cs (err e, w) = record { active = active; cursors = cs; world = w }
  after_read thread active cs (ok (msgs, next), w) =
      let (handled, w') = handle_all thread msgs w in
      record { active = active; cursors = advance thread next cs handled; world = w' }

  abbrev pub after_resolve : Pass World → Result Text Text × World → Pass World
  after_resolve s (err e, w) = record { active = s.active; cursors = s.cursors; world = w }
  after_resolve s (ok thread, w) =
      after_read thread (thread ∷ s.active) s.cursors (p.read w thread (cursor_of s.cursors thread))

  -- The loop over the references.
  unfoldable pub poll : List Text → Pass World → Pass World
  unfolding handle_all cursor_of set_cursor
  poll [] s = s
  poll (ref ∷ refs) s = poll refs (after_resolve s (p.resolve_thread s.world ref))

  abbrev pub after_listing : Cursors → Result Text (List Text) × World → Cursors × World
  after_listing cs (err e, w) = (cs, w)
  after_listing cs (ok refs, w) =
      let s = poll refs (record { active = []; cursors = cs; world = w }) in
      (prune s.active s.cursors, s.world)

  -- `tick`
  unfoldable pub tick : Cursors → World → Cursors × World
  unfolding poll prune
  tick cs w = after_listing cs (p.awaiting w)
