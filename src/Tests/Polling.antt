-- ===== src/Tests/Polling.antt =====
-- The poller of internal/conversationchannel/poller.go on a thread with one message.
use semdev.Base.{ℕ, suc, ◌≡◌, refl, [], ◌∷◌, none, codes, ok, same, has}
use semdev.Conversation.Approval.{Message}
use semdev.Conversation.Poller.{Poller, cursor_of, set_cursor, prune, handle_all, poll, tick}
use semdev.Conversation.Cursors.{NoneSkipped, start, tick-NoneSkipped}

abbrev message : Message
message = record { id = codes "m"; author = codes "alice"; body = codes "hello"; at = 9 }

abbrev poller : Poller ℕ
poller = record {
  awaiting = λ w. (ok (codes "o/r#7" ∷ []), w);
  resolve_thread = λ w ref. (ok ref, w);
  read = λ w thread cursor. (ok (message ∷ [], codes "next"), w);
  handle = λ w m thread. (none, suc w);
}

-- The message is handled, the thread's cursor moves on, and that of a run that left the gate goes.
tick_once :
    tick poller ((codes "o/r#6", codes "old") ∷ []) 0 ≡ ((codes "o/r#7", codes "next") ∷ [], 1)
unfolding tick poll prune handle_all cursor_of set_cursor same has
tick_once = refl

fresh : NoneSkipped poller []
fresh = unfold cursor_of in λ thread. start

tick-NoneSkipped_example : NoneSkipped poller (tick poller [] 0).0
tick-NoneSkipped_example = tick-NoneSkipped poller [] 0 fresh
