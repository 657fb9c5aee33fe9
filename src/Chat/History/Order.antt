-- ===== src/Chat/History/Order.antt =====
-- The ids in the list that a merge with the server's conversations gives (`fetchHistory` of chat.ts).
use agent_workflow_platform.Prelude.{
  ℕ, zero, suc, String, Bool, false, List, [], ◌∷◌, ◌++◌, Option, none, some, ◌≡◌, inl, inr, refl,
  arith, ◌==◌, eq_iff, get_elem?, set, Option-cases, Bool-cases,
}
use agent_workflow_platform.Chat.Types.{Thread, Now}
use agent_workflow_platform.Chat.State.{Chat, persist_threads, thread_index}
use agent_workflow_platform.Chat.History.{
  Conversation, conversation_of, pushed, refreshed, merge_at, merge_conversation, merge_all,
  insert_thread, sort_threads, fetch_conversations,
}
use agent_workflow_platform.Chat.History.Merge.{
  Has, Lacks, AreDistinct, Has-sort, merge_all-Has, refreshed-SameContent,
}

Lacks-insert :
    (later : String → String → Bool) (id : String) (x : Thread) (ts : List Thread)
    → (x.id == id) ≡ false
    → Lacks id ts
    → Lacks id (insert_thread later x ts)
unfolding insert_thread
Lacks-insert later id x [] h k = ground (arith, h)
Lacks-insert later id x (u ∷ us) h k =
    ground (arith, h, k, Lacks-insert later id x us h (ground (arith, k)))

AreDistinct-insert :
    (later : String → String → Bool) (x : Thread) (ts : List Thread)
    → Lacks x.id ts
    → AreDistinct ts
    → AreDistinct (insert_thread later x ts)
unfolding insert_thread
AreDistinct-insert later x [] h k = (refl, tt)
AreDistinct-insert later x (u ∷ us) h k = elim (Bool-cases (later u.updated_at x.updated_at)) [
  | inl after ↦
      rw (after, insert_thread)
        (
          Lacks-insert later u.id x us (ground (arith, h, eq_iff x.id u.id, eq_iff u.id x.id)) k.0,
          AreDistinct-insert later x us (ground (arith, h)) k.1,
        )
  | inr before ↦ rw (before, insert_thread) (h, k)
]

Lacks-sort :
    (later : String → String → Bool) (id : String) (ts : List Thread)
    → Lacks id ts
    → Lacks id (sort_threads later ts)
unfolding sort_threads
Lacks-sort later id [] h = refl
Lacks-sort later id (t ∷ ts) h =
    Lacks-insert later id t (sort_threads later ts) (ground (arith, h))
      (Lacks-sort later id ts (ground (arith, h)))

AreDistinct-sort :
    (later : String → String → Bool) (ts : List Thread)
    → AreDistinct ts
    → AreDistinct (sort_threads later ts)
unfolding sort_threads
AreDistinct-sort later [] h = tt
AreDistinct-sort later (t ∷ ts) h =
    AreDistinct-insert later t (sort_threads later ts) (Lacks-sort later t.id ts h.0)
      (AreDistinct-sort later ts h.1)

Lacks-append :
    (id : String) (ts : List Thread) (p : Thread)
    → Lacks id ts
    → (p.id == id) ≡ false
    → Lacks id (ts ++ p ∷ [])
Lacks-append id [] p h k = ground (arith, k)
Lacks-append id (t ∷ ts) p h k = ground (arith, h, Lacks-append id ts p (ground (arith, h)) k)

AreDistinct-append :
    (ts : List Thread) (p : Thread) → Lacks p.id ts → AreDistinct ts → AreDistinct (ts ++ p ∷ [])
AreDistinct-append [] p h k = (refl, tt)
AreDistinct-append (t ∷ ts) p h k = (
  Lacks-append t.id ts p k.0 (ground (arith, h, eq_iff t.id p.id, eq_iff p.id t.id)),
  AreDistinct-append ts p (ground (arith, h)) k.1,
)

Lacks-set :
    (id : String) (ts : List Thread) (i : ℕ) (x y : Thread)
    → get_elem? ts i ≡ some x
    → y.id ≡ x.id
    → Lacks id ts
    → Lacks id (set ts i y)
Lacks-set id [] i x y e q h = refl
Lacks-set id (t ∷ ts) zero x y e q h = ground (arith, e, q, h)
Lacks-set id (t ∷ ts) (suc i) x y e q h =
    ground (arith, h, Lacks-set id ts i x y e q (ground (arith, h)))

AreDistinct-set :
    (ts : List Thread) (i : ℕ) (x y : Thread)
    → get_elem? ts i ≡ some x
    → y.id ≡ x.id
    → AreDistinct ts
    → AreDistinct (set ts i y)
AreDistinct-set [] i x y e q h = tt
AreDistinct-set (t ∷ ts) zero x y e q h = let same : y.id ≡ t.id = cc in (rw same h.0, h.1)
AreDistinct-set (t ∷ ts) (suc i) x y e q h =
    (Lacks-set t.id ts i x y e q h.0, AreDistinct-set ts i x y e q h.1)

Lacks-of_none : (id : String) (ts : List Thread) → thread_index id ts ≡ none → Lacks id ts
Lacks-of_none id [] e = refl
Lacks-of_none id (t ∷ ts) e = ground (arith, e, Lacks-of_none id ts)

merge-AreDistinct :
    (untitled : String) (now : Now) (c : Conversation) (ts : List Thread)
    → AreDistinct ts
    → AreDistinct (merge_conversation untitled now c ts)
unfolding merge_conversation merge_at pushed
merge-AreDistinct untitled now c ts h = elim (Option-cases (thread_index (conversation_of c) ts)) [
  | inl e ↦
      rw (e, merge_conversation)
        (AreDistinct-append ts (pushed untitled now c) (Lacks-of_none (conversation_of c) ts e) h)
  | inr (i, e) ↦
      rw (e, merge_conversation)
        (elim (Option-cases (get_elem? ts i)) [
          | inl f ↦ rw (f, merge_at) h
          | inr (x, f) ↦
              rw (f, merge_at)
                (AreDistinct-set ts i x (refreshed now c x) f (refreshed-SameContent now c x).id h)
        ])
]

merge_all-AreDistinct :
    (untitled : String) (now : Now) (cs : List Conversation) (ts : List Thread)
    → AreDistinct ts
    → AreDistinct (merge_all untitled now cs ts)
unfolding merge_all
merge_all-AreDistinct untitled now [] ts h = h
merge_all-AreDistinct untitled now (c ∷ cs) ts h =
    merge_all-AreDistinct untitled now cs (merge_conversation untitled now c ts)
      (merge-AreDistinct untitled now c ts h)

pub threads-persist_threads : (s : Chat) → (persist_threads s).threads ≡ s.threads
unfolding persist_threads
threads-persist_threads s = ground arith

-- Where each id is there once, it is there once after the conversations of the server have been
-- merged in.
pub fetch_conversations-AreDistinct :
    (later : String → String → Bool) (untitled : String) (now : Now)
    (answer : Option (List Conversation)) (s : Chat)
    → AreDistinct s.threads
    → AreDistinct (fetch_conversations later untitled now answer s).threads
unfolding fetch_conversations
fetch_conversations-AreDistinct later untitled now none s h = h
fetch_conversations-AreDistinct later untitled now (some []) s h = h
fetch_conversations-AreDistinct later untitled now (some (c ∷ cs)) s h =
    rw
      (threads-persist_threads
        (record s { threads = sort_threads later (merge_all untitled now (c ∷ cs) s.threads) }))
      (AreDistinct-sort later (merge_all untitled now (c ∷ cs) s.threads)
        (merge_all-AreDistinct untitled now (c ∷ cs) s.threads h))

-- No thread is lost: after the merge there is one with the same id, the same messages and the same
-- native session.
pub fetch_conversations-Has :
    (later : String → String → Bool) (untitled : String) (now : Now)
    (answer : Option (List Conversation)) (s : Chat) (t : Thread)
    → Has s.threads t
    → Has (fetch_conversations later untitled now answer s).threads t
unfolding fetch_conversations
fetch_conversations-Has later untitled now none s t h = h
fetch_conversations-Has later untitled now (some []) s t h = h
fetch_conversations-Has later untitled now (some (c ∷ cs)) s t h =
    rw
      (threads-persist_threads
        (record s { threads = sort_threads later (merge_all untitled now (c ∷ cs) s.threads) }))
      (Has-sort later t (merge_all untitled now (c ∷ cs) s.threads)
        (merge_all-Has untitled now (c ∷ cs) t s.threads h))
