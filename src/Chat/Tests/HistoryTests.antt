-- ===== src/Chat/Tests/HistoryTests.antt =====
-- The merge with the server's conversations and the loading of threads at concrete lists.
use agent_workflow_platform.Prelude.{
  String, Bool, true, false, [], ◌∷◌, none, some, ◌≡◌, inl, inr, refl, arith, ltb, utf16_length,
}
use agent_workflow_platform.Chat.History.{Conversation, fetch_conversations}
use agent_workflow_platform.Chat.History.Merge.{Has, AreDistinct}
use agent_workflow_platform.Chat.History.Order.{
  fetch_conversations-AreDistinct, fetch_conversations-Has,
}
use agent_workflow_platform.Chat.Tests.{now, busy, made}

-- a comparison that is no comparison of dates, but calls no two texts each the later
abbrev longer : String → String → Bool
longer x y = ltb (utf16_length y) (utf16_length x)

longer_asymmetric : (x y : String) → longer x y ≡ true → longer y x ≡ false
longer_asymmetric x y h = ground arith

abbrev seen : Conversation
seen = record {
  conversation_id = "thread-2";
  id = none;
  title = some "Renamed";
  created_at = none;
  updated_at = some "2026-02-01T00:00:00Z";
}

abbrev unseen : Conversation
unseen = record {
  conversation_id = "conv-9";
  id = none;
  title = none;
  created_at = some "2026-01-05";
  updated_at = none;
}

fetch_conversations-AreDistinct_example :
    AreDistinct (fetch_conversations longer "Untitled" now (some (seen ∷ unseen ∷ [])) busy).threads
fetch_conversations-AreDistinct_example =
    fetch_conversations-AreDistinct longer "Untitled" now (some (seen ∷ unseen ∷ [])) busy
      (refl, (refl, (refl, tt)))

fetch_conversations-Has_example :
    Has
      (fetch_conversations longer "Untitled" now (some (seen ∷ unseen ∷ [])) busy).threads
      (made "thread-2" (some "s-2") true)
fetch_conversations-Has_example =
    fetch_conversations-Has longer "Untitled" now (some (seen ∷ unseen ∷ [])) busy
      (made "thread-2" (some "s-2") true)
      (inr (inl (record { id = refl; messages = refl; session = refl })))
