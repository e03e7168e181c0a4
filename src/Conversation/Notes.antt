-- ===== src/Conversation/Notes.antt =====
-- The comments that the apply lane of internal/conversationchannel/apply.go posts, and the decision that
-- a classified intent carries.
use semdev.Base.{Option, none, some, ◌++◌, if◌then◌else◌, Text, codes, same}
use semdev.Conversation.{approve, reject}

abbrev pub exhausted_note : Text
exhausted_note =
    codes
      "⚠\u{fe0f} I understood your message, but I couldn't complete the approval action (the code host wouldn't respond).\n\n"
    ++ codes
        "**Nothing has been decided** — this run is still waiting. Reply `/semdev approve` or `/semdev reject` to decide it directly."

abbrev pub unattributable_note : Text
unattributable_note =
    codes
      "⚠\u{fe0f} I read your message as a decision, but I couldn't confirm who it came from, so I didn't act on it.\n\n"
    ++ codes "Reply `/semdev approve` or `/semdev reject` to decide this run directly."

-- The comment that is posted before the gate fact lands.
unfoldable pub transparency_body : Text → Text → Text
transparency_body decision author =
    if same decision reject
    then codes "🛑 Cancelling this run based on @"
      ++ (author
          ++ codes
              "'s rejection.\n\nThe authored change is abandoned. Re-trigger the issue to start a fresh run.")
    else codes "✅ Approving this change based on @"
      ++ (author
          ++ codes
              "'s decision — starting development.\n\nThe pull request will still need a human review before anything merges.")

unfoldable pub correction_body : Text → Text → Text
correction_body announced stands =
    codes "⚠\u{fe0f} Correction: I announced this change as **"
    ++ (announced
        ++ (codes "**, but the gate had already been decided as **"
            ++ (stands
                ++ (codes
                      "** — that earlier decision stands and is what this run is following.\n\nNo action was taken on the "
                    ++ (announced ++ codes ".")))))

-- A classified intent's decision; any other intent has none.
unfoldable pub decision_for : Text → Option Text
decision_for intent =
    if same intent approve then some approve else if same intent reject then some reject else none
