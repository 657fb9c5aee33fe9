-- ===== src/Chat/History/Sorted.antt =====
-- The order that the sort of `fetchHistory` gives (chat.ts).
use agent_workflow_platform.Prelude.{
  String, Bool, true, false, List, [], ◌∷◌, some, ◌≡◌, inl, inr, Bool-cases,
}
use agent_workflow_platform.Chat.Types.{Thread, Now}
use agent_workflow_platform.Chat.State.{Chat}
use agent_workflow_platform.Chat.History.{
  Conversation, merge_all, insert_thread, sort_threads, fetch_conversations,
}
use agent_workflow_platform.Chat.History.Merge.{IsSorted}
use agent_workflow_platform.Chat.History.Order.{threads-persist_threads}

module _ (later : String → String → Bool)
    (asymmetric : (x y : String) → later x y ≡ true → later y x ≡ false) where
  insert-IsSorted :
      (x : Thread) (ts : List Thread)
      → IsSorted later ts
      → IsSorted later (insert_thread later x ts)
  unfolding insert_thread
  insert-IsSorted x [] h = tt
  insert-IsSorted x (u ∷ []) h = elim (Bool-cases (later u.updated_at x.updated_at)) [
    | inl after ↦ rw (after, insert_thread) (asymmetric u.updated_at x.updated_at after, tt)
    | inr before ↦ rw (before, insert_thread) (before, tt)
  ]
  insert-IsSorted x (u ∷ v ∷ vs) h =
      let rest = insert-IsSorted x (v ∷ vs) h.1 in
      elim (Bool-cases (later u.updated_at x.updated_at)) [
        | inl after ↦
            rw (after, insert_thread)
              (elim (Bool-cases (later v.updated_at x.updated_at)) [
                | inl further ↦ rw (further, insert_thread) (h.0, rw further at rest)
                | inr here ↦
                    rw (here, insert_thread)
                      (asymmetric u.updated_at x.updated_at after, rw here at rest)
              ])
        | inr before ↦ rw (before, insert_thread) (before, h)
      ]

  sort-IsSorted : (ts : List Thread) → IsSorted later (sort_threads later ts)
  unfolding sort_threads
  sort-IsSorted [] = tt
  sort-IsSorted (t ∷ ts) = insert-IsSorted t (sort_threads later ts) (sort-IsSorted ts)

  -- After conversations of the server have been merged in, no thread was changed later than the one
  -- before it. The comparison of dates does not call both of two texts the later one.
  pub fetch_conversations-IsSorted :
      (untitled : String) (now : Now) (c : Conversation) (cs : List Conversation) (s : Chat)
      → IsSorted later (fetch_conversations later untitled now (some (c ∷ cs)) s).threads
  unfolding fetch_conversations
  fetch_conversations-IsSorted untitled now c cs s =
      rw
        (threads-persist_threads
          (record s { threads = sort_threads later (merge_all untitled now (c ∷ cs) s.threads) }))
        (sort-IsSorted (merge_all untitled now (c ∷ cs) s.threads))
