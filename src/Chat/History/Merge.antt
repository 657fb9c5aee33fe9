-- ===== src/Chat/History/Merge.antt =====
-- What the merge with the server's conversations keeps (chat.ts).
use agent_workflow_platform.Prelude.{
  ℕ, zero, suc, String, Bool, false, List, [], ◌∷◌, ◌++◌, some, ◌≡◌, ◌⊎◌, inl, inr, arith, ◌==◌,
  get_elem?, set, any, ◌∙◌, Option-cases, Bool-cases, ap, sym,
}
use agent_workflow_platform.Chat.Types.{Thread, Now}
use agent_workflow_platform.Chat.State.{thread_index}
use agent_workflow_platform.Chat.History.{
  Conversation, conversation_of, pushed, refreshed, merge_at, merge_conversation, merge_all,
  insert_thread, sort_threads,
}

-- The thread has the id, the messages and the native session of another one.
pub record SameContent (t u : Thread) : Type 0 where
  pub id : u.id ≡ t.id
  pub messages : u.messages ≡ t.messages
  pub session : u.cc_session_id ≡ t.cc_session_id

-- The list has a thread with that content.
abbrev pub Has : List Thread → Thread → Type 0
Has [] t = ⊥
Has (u ∷ us) t = SameContent t u ⊎ Has us t

abbrev pub Lacks : String → List Thread → Type 0
Lacks id ts = any (λ t. t.id == id) ts ≡ false

-- Each id is there once.
abbrev pub AreDistinct : List Thread → Type 0
AreDistinct [] = Unit
AreDistinct (t ∷ ts) = Lacks t.id ts × AreDistinct ts

-- No thread is later than the one before it.
abbrev pub IsSorted : (String → String → Bool) → List Thread → Type 0
IsSorted later [] = Unit
IsSorted later (t ∷ []) = Unit
IsSorted later (t ∷ u ∷ us) = (later u.updated_at t.updated_at ≡ false) × IsSorted later (u ∷ us)

Has-insert_self :
    (later : String → String → Bool) (x t : Thread) (ts : List Thread)
    → SameContent t x
    → Has (insert_thread later x ts) t
unfolding insert_thread
Has-insert_self later x t [] h = inl h
Has-insert_self later x t (u ∷ us) h = elim (Bool-cases (later u.updated_at x.updated_at)) [
  | inl after ↦ rw (after, insert_thread) (inr (Has-insert_self later x t us h))
  | inr before ↦ rw (before, insert_thread) (inl h)
]

Has-insert :
    (later : String → String → Bool) (x t : Thread) (ts : List Thread)
    → Has ts t
    → Has (insert_thread later x ts) t
unfolding insert_thread
Has-insert later x t [] h = absurd h
Has-insert later x t (u ∷ us) h = elim (Bool-cases (later u.updated_at x.updated_at)) [
  | inl after ↦
      rw (after, insert_thread) (elim h [ inl e ↦ inl e | inr k ↦ inr (Has-insert later x t us k) ])
  | inr before ↦ rw (before, insert_thread) (inr h)
]

pub Has-sort :
    (later : String → String → Bool) (t : Thread) (ts : List Thread)
    → Has ts t
    → Has (sort_threads later ts) t
unfolding sort_threads
Has-sort later t [] h = h
Has-sort later t (u ∷ us) (inl e) = Has-insert_self later u t (sort_threads later us) e
Has-sort later t (u ∷ us) (inr k) =
    Has-insert later u t (sort_threads later us) (Has-sort later t us k)

Has-append : (t : Thread) (ts us : List Thread) → Has ts t → Has (ts ++ us) t
Has-append t [] us h = absurd h
Has-append t (u ∷ ts) us (inl e) = inl e
Has-append t (u ∷ ts) us (inr k) = inr (Has-append t ts us k)

Has-set :
    (t x y : Thread) (i : ℕ) (ts : List Thread)
    → get_elem? ts i ≡ some x
    → SameContent x y
    → Has ts t
    → Has (set ts i y) t
Has-set t x y i [] e c h = absurd h
Has-set t x y zero (u ∷ us) e c (inl d) =
    let q : u ≡ x = cc in
    inl (record {
      id = c.id ∙ ap (λ (v : Thread). v.id) (sym q) ∙ d.id;
      messages = c.messages ∙ ap (λ (v : Thread). v.messages) (sym q) ∙ d.messages;
      session = c.session ∙ ap (λ (v : Thread). v.cc_session_id) (sym q) ∙ d.session;
    })
Has-set t x y zero (u ∷ us) e c (inr k) = inr k
Has-set t x y (suc i) (u ∷ us) e c (inl d) = inl d
Has-set t x y (suc i) (u ∷ us) e c (inr k) = inr (Has-set t x y i us e c k)

pub refreshed-SameContent :
    (now : Now) (c : Conversation) (t : Thread) → SameContent t (refreshed now c t)
unfolding refreshed
refreshed-SameContent now c t = record {
  id = ground arith;
  messages = ground arith;
  session = ground arith;
}

merge-Has :
    (untitled : String) (now : Now) (c : Conversation) (t : Thread) (ts : List Thread)
    → Has ts t
    → Has (merge_conversation untitled now c ts) t
unfolding merge_conversation merge_at
merge-Has untitled now c t ts h = elim (Option-cases (thread_index (conversation_of c) ts)) [
  | inl e ↦ rw (e, merge_conversation) (Has-append t ts (pushed untitled now c ∷ []) h)
  | inr (i, e) ↦
      rw (e, merge_conversation)
        (elim (Option-cases (get_elem? ts i)) [
          | inl f ↦ rw (f, merge_at) h
          | inr (x, f) ↦
              rw (f, merge_at)
                (Has-set t x (refreshed now c x) i ts f (refreshed-SameContent now c x) h)
        ])
]

pub merge_all-Has :
    (untitled : String) (now : Now) (cs : List Conversation) (t : Thread) (ts : List Thread)
    → Has ts t
    → Has (merge_all untitled now cs ts) t
unfolding merge_all
merge_all-Has untitled now [] t ts h = h
merge_all-Has untitled now (c ∷ cs) t ts h =
    merge_all-Has untitled now cs t (merge_conversation untitled now c ts)
      (merge-Has untitled now c t ts h)
