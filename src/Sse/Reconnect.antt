-- ===== src/Sse/Reconnect.antt =====
-- `createReconnectingSSE`: bounded exponential reconnects. Each callback and each timer is an event.
pub mod Bounds
use agent_workflow_platform.Prelude.{
  ℕ, zero, suc, ◌+◌, ◌-◌, ◌*◌, ◌^◌, ◌≤◌, ◌<◌, min, Bool, true, false, List, [], ◌∷◌, Option, none,
  some, get_or, All, ◌≡◌, ◌∙◌, refl, arith, if◌then◌else◌, ltb,
}

-- What the caller is told.
pub data Output : Type 0 where
  message stalled reconnected failed : Output
  reconnecting : ℕ → Output

-- `connections` counts the streams that were opened. The newest of the `outputs` is first.
pub record Reconnecting : Type 0 where
  pub max_retries : ℕ
  pub attempt : ℕ
  pub closed : Bool
  pub stalled_timer : Bool
  pub reconnect_timer : Option ℕ
  pub connections : ℕ
  pub outputs : List Output

-- the delay before an attempt
unfoldable pub reconnect_delay : ℕ → ℕ
reconnect_delay attempt = min (1000 * 2 ^ (attempt - 1)) 8000

unfoldable pub connect : Reconnecting → Reconnecting
connect s = if s.closed then s else record s { connections = s.connections + 1 }

unfoldable pub start : ℕ → Reconnecting
unfolding connect
start max_retries = connect (record {
  max_retries = max_retries;
  attempt = 0;
  closed = false;
  stalled_timer = false;
  reconnect_timer = none;
  connections = 0;
  outputs = [];
})

unfoldable pub on_message : Reconnecting → Reconnecting
on_message s = record s { attempt = 0; stalled_timer = true; outputs = message ∷ s.outputs }

unfoldable pub on_error : Reconnecting → Reconnecting
unfolding reconnect_delay
on_error s =
    if s.closed
    then s
    else if ltb s.attempt s.max_retries
    then record s {
      stalled_timer = false;
      attempt = s.attempt + 1;
      reconnect_timer = some (reconnect_delay (s.attempt + 1));
      outputs = reconnecting (s.attempt + 1) ∷ s.outputs;
    }
    else record s { stalled_timer = false; outputs = failed ∷ s.outputs }

unfoldable pub on_headers : Reconnecting → Reconnecting
on_headers s = record s {
  stalled_timer = true;
  outputs = if ltb 0 s.attempt then reconnected ∷ s.outputs else s.outputs;
}

unfoldable pub on_stalled : Reconnecting → Reconnecting
on_stalled s =
    if s.stalled_timer
    then record s {
      stalled_timer = false;
      outputs = if s.closed then s.outputs else stalled ∷ s.outputs;
    }
    else s

-- the reconnect timer is due
unfoldable pub on_reconnect_due : Reconnecting → Reconnecting
unfolding connect
on_reconnect_due s = elim s.reconnect_timer [
  | none ↦ s
  | some delay ↦ connect (record s { reconnect_timer = none })
]

unfoldable pub close : Reconnecting → Reconnecting
close s = record s { closed = true; stalled_timer = false; reconnect_timer = none }

pub data Event : Type 0 where
  messaged errored answered stall_due reconnect_due closed : Event

unfoldable pub step : Reconnecting → Event → Reconnecting
unfolding on_message on_error on_headers on_stalled on_reconnect_due close
step s messaged = on_message s
step s errored = on_error s
step s answered = on_headers s
step s stall_due = on_stalled s
step s reconnect_due = on_reconnect_due s
step s closed = close s

unfoldable pub run : Reconnecting → List Event → Reconnecting
unfolding step
run s [] = s
run s (e ∷ es) = run (step s e) es

-- `n` times in a row the stream fails and is opened again.
unfoldable pub failing : ℕ → Reconnecting → Reconnecting
unfolding on_error on_reconnect_due
failing zero s = s
failing (suc n) s = failing n (on_reconnect_due (on_error s))

failing_round :
    (s : Reconnecting)
    → s.closed ≡ false
    → s.attempt < s.max_retries
    → ((on_reconnect_due (on_error s)).attempt ≡ s.attempt + 1)
      × ((on_reconnect_due (on_error s)).connections ≡ s.connections + 1)
      × ((on_reconnect_due (on_error s)).closed ≡ false)
      × ((on_reconnect_due (on_error s)).max_retries ≡ s.max_retries)
      × ((on_reconnect_due (on_error s)).reconnect_timer ≡ none)
unfolding on_reconnect_due on_error
failing_round s live h = ground arith

failing_rounds :
    (n : ℕ) (s : Reconnecting)
    → s.closed ≡ false
    → s.reconnect_timer ≡ none
    → s.attempt + n ≤ s.max_retries
    → ((failing n s).attempt ≡ s.attempt + n)
      × ((failing n s).connections ≡ s.connections + n)
      × ((failing n s).closed ≡ false)
      × ((failing n s).max_retries ≡ s.max_retries)
      × ((failing n s).reconnect_timer ≡ none)
unfolding failing
failing_rounds zero s live idle h = (omega arith, omega arith, live, refl, idle)
failing_rounds (suc n) s live idle h =
    let (a, b, c, d, e) = failing_round s live (omega arith) in
    let (a', b', c', d', e') = failing_rounds n (on_reconnect_due (on_error s)) c e (omega arith) in
    (omega arith, omega arith, c', d' ∙ d, e')

last_error :
    (s : Reconnecting)
    → s.closed ≡ false
    → s.reconnect_timer ≡ none
    → s.attempt ≡ s.max_retries
    → ((on_error s).outputs ≡ failed ∷ s.outputs)
      × ((on_reconnect_due (on_error s)).connections ≡ s.connections)
unfolding on_error on_reconnect_due
last_error s live idle e = ground arith

-- A server that never answers is asked once and then as often as the limit allows; at the next
-- error the caller is told of the failure, and no further stream is opened.
pub gives_up :
    (max_retries : ℕ)
    → ((failing max_retries (start max_retries)).connections ≡ max_retries + 1)
      × ((on_error (failing max_retries (start max_retries))).outputs
          ≡ failed ∷ (failing max_retries (start max_retries)).outputs)
      × ((on_reconnect_due (on_error (failing max_retries (start max_retries)))).connections
          ≡ max_retries + 1)
unfolding start
gives_up max_retries =
    let (a, b, c, d, e) = failing_rounds max_retries (start max_retries) refl refl (omega arith) in
    let (told, idle) = last_error (failing max_retries (start max_retries)) c e (omega arith) in
    (omega arith, told, omega arith)

step_closed :
    (s : Reconnecting) (e : Event)
    → s.closed ≡ true
    → ((step s e).closed ≡ true) × ((step s e).connections ≡ s.connections)
unfolding step
step_closed s messaged h = ground arith
step_closed s e h = ground arith

run_closed :
    (es : List Event) (s : Reconnecting) → s.closed ≡ true → (run s es).connections ≡ s.connections
unfolding run
run_closed [] s h = refl
run_closed (e ∷ es) s h =
    let (still, same) = step_closed s e h in run_closed es (step s e) still ∙ same

-- After `close` no stream is opened any more, whatever happens.
pub connections-run-close :
    (s : Reconnecting) (es : List Event) → (run (close s) es).connections ≡ s.connections
unfolding close
connections-run-close s es = run_closed es (close s) refl
