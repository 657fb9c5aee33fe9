-- ===== src/Chat/Account/Ready.antt =====
-- Threads that are loaded: their conversation ids and their numbers (`_loadPersistedThreads` of
-- chat.ts).
use agent_workflow_platform.Prelude.{
  ℕ, suc, ◌+◌, ◌<◌, ◌≤◌, String, true, List, [], ◌∷◌, Option, none, some, get_or, ◌≡◌, arith, All,
  Bool-cases, inl, inr, present, truthy, if◌then◌else◌,
}
use agent_workflow_platform.Chat.Types.{Thread, Now}
use agent_workflow_platform.Chat.State.{Chat}
use agent_workflow_platform.Chat.Account.{
  thread_number, larger, max_number, migrate, first_thread, load_persisted_threads,
}

-- A thread with a conversation id and with a number below the counter.
abbrev pub IsReady : ℕ → Thread → Type 0
IsReady counter t = (present t.conversation_id ≡ true) × (get_or (thread_number t.id) 0 < counter)

max_number-le : (n : ℕ) (ts : List Thread) → n ≤ max_number n ts
unfolding max_number
max_number-le n [] = omega arith
max_number-le n (t ∷ ts) =
    let m = get_or (thread_number t.id) 0 in ground (arith, max_number-le (larger n m) ts)

migrate-IsReady :
    (fresh : ℕ → String) (n : ℕ) (ts : List Thread)
    → ((k : ℕ) → truthy (fresh k) ≡ true)
    → All (IsReady (max_number n ts + 1)) (migrate fresh ts)
unfolding migrate max_number
migrate-IsReady fresh n [] named = tt
migrate-IsReady fresh n (t ∷ ts) named =
    let m = get_or (thread_number t.id) 0 in
    let below : m < max_number (larger n m) ts + 1 =
      ground (arith, max_number-le (larger n m) ts) in
    (
      elim (Bool-cases (present t.conversation_id)) [
        | inl old ↦ rw (old, if◌then◌else◌) (old, below)
        | inr new ↦ rw (new, if◌then◌else◌) (named 0, below)
      ],
      migrate-IsReady (λ k. fresh (suc k)) (larger n m) ts (λ k. named (suc k)),
    )

-- Whatever was stored, each thread that is loaded has a conversation id, and its number is below the
-- counter of the next one. The fresh ids are not empty.
load_persisted_threads-IsReady :
    (fresh : ℕ → String) (now : Now) (saved : Option (List Thread)) (s : Chat)
    → ((k : ℕ) → truthy (fresh k) ≡ true)
    → truthy now.uuid ≡ true
    → All
        (IsReady (load_persisted_threads fresh now saved s).counter)
        (load_persisted_threads fresh now saved s).threads
unfolding load_persisted_threads first_thread thread_number
load_persisted_threads-IsReady fresh now none s named uuid = ((uuid, omega arith), tt)
load_persisted_threads-IsReady fresh now (some []) s named uuid = ((uuid, omega arith), tt)
load_persisted_threads-IsReady fresh now (some (t ∷ ts)) s named uuid =
    migrate-IsReady fresh 1 (t ∷ ts) named
