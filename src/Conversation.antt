-- ===== src/Conversation.antt =====
-- The conversation channel, internal/conversationchannel: its lanes read a run's facts, ask the code
-- host, post to the run's thread and decide the change-approval gate. A call over the network takes the
-- world and gives it back, its error a text. Logging changes no state and is left out.
pub mod Notes
pub mod Apply
pub mod Log
pub mod Honest
pub mod Announced
pub mod Released
pub mod Visible
pub mod Progress
pub mod Approval
pub mod Resolver
pub mod Preferred
pub mod Poller
pub mod Cursors
pub mod Justified
pub mod Desks
pub mod Decides
pub mod Commands
pub mod Tokens
use semdev.Base.{
  ℕ, Bool, List, [], ◌∷◌, ◌++◌, Option, none, some, if◌then◌else◌, Text, codes, same, Result,
}

-- A triple of an entity, its object where that is a string.
pub record Triple : Type 0 where
  pub predicate : Text
  pub object : Option Text

abbrev pub Entity : Type 0
Entity = List Triple

abbrev or_object : Option Text → Text → Text
or_object none rest = rest
or_object (some s) rest = s

-- The first string object of the predicate, or the empty text.
unfoldable pub entity_triple : Entity → Text → Text
entity_triple [] predicate = []
entity_triple (tr ∷ trs) predicate =
    let rest = entity_triple trs predicate in
    if same tr.predicate predicate then or_object tr.object rest else rest

-- `conversation.Channel`, as far as the lanes call it.
pub record Channel (World : Type 0) : Type 0 where
  pub resolve_thread : World → Text → Result Text Text × World
  pub post : World → Text → Text → Option Text × World

abbrev pub decision_predicate : Text
decision_predicate = codes "run.change.decision"

abbrev pub approve : Text
approve = codes "approve"

abbrev pub reject : Text
reject = codes "reject"

abbrev pub issue_ref_predicate : Text
issue_ref_predicate = codes "run.issue.ref"

abbrev pub intent_value_predicate : Text
intent_value_predicate = codes "conversation.intent.value"

abbrev pub intent_author_predicate : Text
intent_author_predicate = codes "conversation.intent.author"

-- `decidedGate`
unfoldable pub decided_gate : Entity → Text
unfolding entity_triple
decided_gate run = entity_triple run decision_predicate
