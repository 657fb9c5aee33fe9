-- ===== src/Sse/Reconnect/Bounds.antt =====
-- How many streams are opened while no message arrives, and how long a reconnect waits
-- (`createReconnectingSSE`).
use agent_workflow_platform.Prelude.{
  ℕ, ◌+◌, ◌-◌, ◌≤◌, List, [], ◌∷◌, none, some, get_or, All, ◌≡◌, ◌∙◌, refl, arith,
}
use agent_workflow_platform.Sse.Reconnect.{Reconnecting, start, Event, messaged, step, run}

-- The attempts stay within the limit, and a timer waits for at most eight seconds.
pub record IsLimited (s : Reconnecting) : Type 0 where
  pub limited : s.attempt ≤ s.max_retries
  pub short : get_or s.reconnect_timer 0 ≤ 8000

step-IsLimited : (s : Reconnecting) (e : Event) → IsLimited s → IsLimited (step s e)
unfolding step
step-IsLimited s messaged v = ground arith
step-IsLimited s e v = ground arith

run-IsLimited : (s : Reconnecting) (es : List Event) → IsLimited s → IsLimited (run s es)
unfolding run
run-IsLimited s [] v = v
run-IsLimited s (e ∷ es) v = run-IsLimited (step s e) es (step-IsLimited s e v)

max_retries-step : (s : Reconnecting) (e : Event) → (step s e).max_retries ≡ s.max_retries
unfolding step
max_retries-step s messaged = refl
max_retries-step s e = ground arith

max_retries-run : (s : Reconnecting) (es : List Event) → (run s es).max_retries ≡ s.max_retries
unfolding run
max_retries-run s [] = refl
max_retries-run s (e ∷ es) = max_retries-run (step s e) es ∙ max_retries-step s e

-- Any event but a message.
unfoldable pub IsQuiet : Event → Type 0
IsQuiet messaged = ⊥
IsQuiet _ = Unit

-- 1 where a reconnect is due, and otherwise 0
abbrev pub due : Reconnecting → ℕ
due s = elim s.reconnect_timer [ none ↦ 0 | some delay ↦ 1 ]

-- the streams that were opened, and those that may still be before a message arrives
abbrev budget : Reconnecting → ℕ
budget s = s.connections + due s + (s.max_retries - s.attempt)

budget-step : (s : Reconnecting) (e : Event) → IsQuiet e → budget (step s e) ≤ budget s
unfolding step IsQuiet
budget-step s messaged q = absurd q
budget-step s e q = ground arith

budget-run : (s : Reconnecting) (es : List Event) → All IsQuiet es → budget (run s es) ≤ budget s
unfolding run
budget-run s [] q = omega arith
budget-run s (e ∷ es) q =
    let first = budget-step s e q.0 in let others = budget-run (step s e) es q.1 in omega arith

-- Whatever happens first, as long as no message arrives from then on at most as many streams are
-- opened as attempts are left of the limit, and one more if a reconnect is already due; a reconnect
-- always waits for at most eight seconds.
pub connections-run :
    (max_retries : ℕ) (es quiet : List Event)
    → All IsQuiet quiet
    → ((run (run (start max_retries) es) quiet).connections
        ≤ (run (start max_retries) es).connections
          + due (run (start max_retries) es)
          + (max_retries - (run (start max_retries) es).attempt))
      × (get_or (run (run (start max_retries) es) quiet).reconnect_timer 0 ≤ 8000)
unfolding start
connections-run max_retries es quiet q =
    let s = run (start max_retries) es in
    let fixed = max_retries-run (start max_retries) es in
    let spent = budget-run s quiet q in
    let at_first : IsLimited (start max_retries) = record {
      limited = omega arith;
      short = omega arith;
    } in
    let v = run-IsLimited s quiet (run-IsLimited (start max_retries) es at_first) in
    (omega arith, v.short)
