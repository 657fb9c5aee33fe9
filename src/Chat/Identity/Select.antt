-- ===== src/Chat/Identity/Select.antt =====
-- Ids and native sessions when a thread is chosen, up to the request for its history and behind the
-- answer (`selectThread` of apps/desktop/src/stores/chat.ts).
use mathlib.Core.Path.{subst}
use mathlib.Core.Option
use agent_workflow_platform.Prelude.{
  if-IsGood, ℕ, zero, suc, String, true, List, [], ◌∷◌, map, map-set, Option, none, some, ◌≡◌, ◌⊎◌,
  inl, inr, refl, sym, ◌∙◌, ap, get_elem?, set, find_index?, find_index?-sound, is_some,
  if◌then◌else◌, Option-cases, ◌==◌, eq_iff,
}
use agent_workflow_platform.Chat.Types.{Thread, Now}
use agent_workflow_platform.Chat.State.{
  Chat, persist_threads, set_thread, modify_thread?, thread_index,
}
use agent_workflow_platform.Chat.Threads.{
  RemoteConversation, remote_messages, remote_session, remote_updated_at, remote_is_newer,
  has_messages, local_messages, local_updated_at, adopt_messages, merge_messages, merge_session,
  at_thread, choose_model, restore, restore_stream, select_begin, select_finish, thread_at,
}
use agent_workflow_platform.Chat.Identity.{
  identity, SameIdentities, SameIdentities-if, modify_thread?-SameIdentities,
  persist_threads-SameIdentities, select_begin-SameIdentities,
}

abbrev pub Identities : Type 0
Identities = List (String × Option String)

-- Each thread keeps its id, and its native session too, but that the thread `id` may have taken the
-- session that the server names.
abbrev pub Adopts : String → Option String → Identities → Identities → Type 0
Adopts id remote [] [] = Unit
Adopts id remote (a ∷ before) (b ∷ after) =
    (b.0 ≡ a.0)
    × ((b.1 ≡ a.1) ⊎ ((a.0 ≡ id) × (b.1 ≡ remote) × (is_some b.1 ≡ true)))
    × Adopts id remote before after
Adopts id remote _ _ = ⊥

Adopts-refl : (id : String) (remote : Option String) (is : Identities) → Adopts id remote is is
Adopts-refl id remote [] = tt
Adopts-refl id remote (a ∷ is) = (refl, inl refl, Adopts-refl id remote is)

Adopts-set :
    (id remote : String) (ts : List Thread) (i : ℕ) (t : Thread)
    → get_elem? ts i ≡ some t
    → t.id ≡ id
    → Adopts id
        (some remote)
        (map identity ts)
        (map identity (set ts i (record t { cc_session_id = some remote })))
Adopts-set id remote [] i t at named = tt
Adopts-set id remote (x ∷ ts) zero t at named =
    let same : x ≡ t = cc in
    (
      ap (λ (y : Thread). y.id) (sym same),
      inr (ap (λ (y : Thread). y.id) same ∙ named, refl, refl),
      Adopts-refl id (some remote) (map identity ts),
    )
Adopts-set id remote (x ∷ ts) (suc i) t at named =
    (refl, inl refl, Adopts-set id remote ts i t at named)

index-identities :
    (id : String) (xs : List Thread)
    → thread_index id xs ≡ find_index? (λ p. p.0 == id) (map identity xs)
index-identities id [] = refl
index-identities id (x ∷ xs) =
    ap (λ o. if x.id == id then some zero else Option.map suc o) (index-identities id xs)

index-same :
    (id : String) (s r : Chat)
    → SameIdentities s r
    → thread_index id r.threads ≡ thread_index id s.threads
index-same id s r h =
    index-identities id r.threads
    ∙ ap (find_index? (λ p. p.0 == id)) h
    ∙ sym (index-identities id s.threads)

merge_messages-SameIdentities :
    (i : Option ℕ) (target : Option Thread) (answer : Option RemoteConversation) (s : Chat)
    → SameIdentities s (merge_messages i target answer s)
unfolding merge_messages adopt_messages
merge_messages-SameIdentities i target answer s = elim (Option-cases (remote_messages answer)) [
  | inl e ↦ rw (e, merge_messages) refl
  | inr (ms, e) ↦
      let taken : Chat =
        record (modify_thread? i (adopt_messages ms (remote_updated_at answer)) s) {
          current_messages = ms;
        } in
      let own : Chat = record s { current_messages = local_messages target } in
      let newer = remote_is_newer (remote_updated_at answer) (local_updated_at target) in
      let same : SameIdentities s taken =
        modify_thread?-SameIdentities (adopt_messages ms (remote_updated_at answer)) i s
          (λ t. refl) in
      rw (e, merge_messages)
        (SameIdentities-if (has_messages (local_messages target)) s (if newer then taken else own)
          taken (SameIdentities-if newer s taken own same refl) same)
]

restore-SameIdentities : (o : Option ℕ) (s : Chat) → SameIdentities s (restore o s)
unfolding restore restore_stream
restore-SameIdentities none s = refl
restore-SameIdentities (some i) s = elim (Option-cases (get_elem? s.threads i)) [
  | inl e ↦ rw (e, restore) refl
  | inr (t, e) ↦
      rw (e, restore)
        (SameIdentities-if t.is_streaming s _ _ (map-set identity s.threads i t _ e refl) refl)
]

choose-SameIdentities :
    (o : Option ℕ) (s : Chat) → SameIdentities s (at_thread o (λ _ t. choose_model t) s)
unfolding at_thread choose_model
choose-SameIdentities none s = refl
choose-SameIdentities (some i) s = elim (Option-cases (get_elem? s.threads i)) [
  | inl e ↦ rw (e, at_thread) refl
  | inr (t, e) ↦ rw (e, at_thread) refl
]

-- What becomes of the sessions when that of the server is merged in.
merge_session-Adopts :
    (id : String) (i : ℕ) (t : Thread) (answer : Option RemoteConversation) (s : Chat)
    → get_elem? s.threads i ≡ some t
    → t.id ≡ id
    → Adopts id
        (remote_session answer)
        (map identity s.threads)
        (map identity (merge_session i t answer s).threads)
unfolding merge_session
merge_session-Adopts id i t answer s at named = elim (Option-cases (remote_session answer)) [
  | inl e ↦ rw (e, merge_session) (Adopts-refl id none (map identity s.threads))
  | inr (remote, e) ↦
      let IsGood : Chat → Type 0 =
        λ r. Adopts id (some remote) (map identity s.threads) (map identity r.threads) in
      let resumed : Chat = set_thread i (record t { cc_session_id = some remote }) s in
      let kept : IsGood s = Adopts-refl id (some remote) (map identity s.threads) in
      let taken : IsGood (persist_threads resumed) =
        subst (λ is. Adopts id (some remote) (map identity s.threads) is)
          (sym (persist_threads-SameIdentities resumed))
          (Adopts-set id remote s.threads i t at named) in
      rw (e, merge_session) (if-IsGood IsGood _ (persist_threads resumed) s taken kept)
]

resumed-Adopts :
    (id : String) (o : Option ℕ) (answer : Option RemoteConversation) (s : Chat)
    → thread_index id s.threads ≡ o
    → Adopts id
        (remote_session answer)
        (map identity s.threads)
        (map identity (at_thread o (λ j t. merge_session j t answer) s).threads)
unfolding at_thread
resumed-Adopts id none answer s found =
    Adopts-refl id (remote_session answer) (map identity s.threads)
resumed-Adopts id (some i) answer s found =
    let (t, at, named) = find_index?-sound (λ t. t.id == id) s.threads i found in
    rw (at, at_thread) (merge_session-Adopts id i t answer s at ((eq_iff t.id id).0 named))

select_finish-Adopts :
    (id : String) (answer : Option RemoteConversation) (s : Chat)
    → Adopts id
        (remote_session answer)
        (map identity s.threads)
        (map identity (select_finish id answer s).threads)
unfolding select_finish
select_finish-Adopts id answer s =
    let i = thread_index id s.threads in
    let merged = merge_messages i (thread_at i s.threads) answer s in
    let chosen = at_thread i (λ _ t. choose_model t) merged in
    let resumed = at_thread i (λ j t. merge_session j t answer) chosen in
    let before : SameIdentities s chosen =
      choose-SameIdentities i merged
      ∙ merge_messages-SameIdentities i (thread_at i s.threads) answer s in
    subst (λ is. Adopts id (remote_session answer) (map identity s.threads) is)
      (sym (restore-SameIdentities i resumed))
      (subst (λ is. Adopts id (remote_session answer) is (map identity resumed.threads)) before
        (resumed-Adopts id i answer chosen (index-same id s chosen before)))

-- Choosing a thread, up to the request for its history, changes neither the id nor the native session
-- of any thread, whatever streams. Behind the answer, in whatever state it arrives, each thread still
-- has its id, and each has its native session, but that the chosen thread may have taken the one that
-- the server names.
pub select-Adopts :
    (now : Now) (id : String) (answer : Option RemoteConversation) (s later : Chat)
    → SameIdentities s (select_begin now id s)
      × Adopts id
          (remote_session answer)
          (map identity later.threads)
          (map identity (select_finish id answer later).threads)
select-Adopts now id answer s later =
    (select_begin-SameIdentities now id s, select_finish-Adopts id answer later)
