-- ===== src/Stores/Activity.antt =====
-- The live activity events (apps/desktop/src/stores/activity.ts).
pub mod Invariant
pub mod Redelivery
use mathlib.Core.List.{reverse}
use agent_workflow_platform.Prelude.{
  ℕ, ◌+◌, ◌*◌, ◌/◌, String, Bool, true, false, ◌&&◌, ◌||◌, not, List, [], ◌∷◌, ◌++◌, map, Option,
  none, some, ◌==◌, if◌then◌else◌, any, filter, last?, eqb,
}

pub data ActivityPhase : Type 0 where
  analyzing planning executing tool waiting validating publishing completed failed : ActivityPhase

pub data ActivityStatus : Type 0 where
  queued running completed failed skipped : ActivityStatus

-- The fields that the store reads; the others travel along unread. A `progress` is a whole number
-- of percent.
pub record ActivityEvent : Type 0 where
  pub id : String
  pub phase : ActivityPhase
  pub status : ActivityStatus
  pub description : Option String
  pub progress : Option ℕ

-- `told` is what the listeners were called with, newest first.
pub record Activity : Type 0 where
  pub events : List ActivityEvent
  pub told : List ActivityEvent
  pub connected : Bool
  pub error : Option String
  pub sse_open : Bool

-- the place of a phase in `phaseOrder`, and that list's length for the phase that is not in it
abbrev pub phase_rank : ActivityPhase → ℕ
phase_rank analyzing = 0
phase_rank planning = 1
phase_rank executing = 2
phase_rank tool = 3
phase_rank waiting = 4
phase_rank validating = 5
phase_rank publishing = 6
phase_rank completed = 7
phase_rank failed = 8

abbrev pub same_phase : ActivityPhase → ActivityPhase → Bool
same_phase a b = eqb (phase_rank a) (phase_rank b)

abbrev pub is_running : ActivityEvent → Bool
is_running e = elim e.status [ running ↦ true | _ ↦ false ]

abbrev pub is_ended : ActivityStatus → Bool
is_ended completed = true
is_ended failed = true
is_ended _ = false

-- `events.value[idx] = evt`, or a new event at the end
unfoldable pub upsert : ActivityEvent → List ActivityEvent → List ActivityEvent
upsert evt [] = evt ∷ []
upsert evt (e ∷ es) = if e.id == evt.id then evt ∷ es else e ∷ upsert evt es

-- another running event of the phase that has ended
unfoldable pub is_superseded : ActivityEvent → ActivityEvent → Bool
is_superseded evt e = not (e.id == evt.id) && same_phase e.phase evt.phase && is_running e

unfoldable pub complete : ActivityEvent → ActivityEvent → ActivityEvent
unfolding is_superseded
complete evt e = if is_superseded evt e then record e { status = ActivityStatus.completed } else e

-- the list of `_processEvent`
unfoldable pub with_event : ActivityEvent → List ActivityEvent → List ActivityEvent
unfolding upsert complete
with_event evt es =
    if is_ended evt.status then map (complete evt) (upsert evt es) else upsert evt es

-- `_processEvent`: the listeners are told of each event, known or not.
unfoldable pub process_event : ActivityEvent → Activity → Activity
unfolding with_event
process_event evt s = record s { events = with_event evt s.events; told = evt ∷ s.told }

unfoldable pub process_events : List ActivityEvent → Activity → Activity
unfolding process_event
process_events [] s = s
process_events (evt ∷ evts) s = process_events evts (process_event evt s)

-- `fetchHistory` with the answer of the server, newest first
unfoldable pub fetch_history : List ActivityEvent → List ActivityEvent → List ActivityEvent
fetch_history answer es = filter (λ e. not (any (λ x. x.id == e.id) es)) (reverse answer) ++ es

-- `activeEvents`
unfoldable pub active_events : List ActivityEvent → List ActivityEvent
active_events es = filter is_running es

-- `overallProgress`; `Math.round(100 * i / 8)` is `(200 * i + 8) / 16` rounded down
unfoldable pub overall_progress : List ActivityEvent → ℕ
unfolding active_events
overall_progress es = elim (last? (active_events es)) [
  | none ↦ 0
  | some e ↦ elim e.progress [
    | some p ↦ p
    | none ↦ elim e.phase [ failed ↦ 0 | _ ↦ (200 * phase_rank e.phase + 8) / 16 ]
  ]
]
