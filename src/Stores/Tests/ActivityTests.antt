-- ===== src/Stores/Tests/ActivityTests.antt =====
-- The theorems on the activity events at concrete lists.
use agent_workflow_platform.Prelude.{true, refl, String, List, [], ◌∷◌, none, some, ◌≡◌}
use agent_workflow_platform.Stores.Activity.{
  ActivityEvent, ActivityPhase, tool, planning, ActivityStatus, running, Activity, process_event,
  process_events,
}
use agent_workflow_platform.Stores.Activity.Redelivery.{process_event_again}

abbrev event : String → ActivityPhase → ActivityStatus → ActivityEvent
event id phase status = record {
  id = id;
  phase = phase;
  status = status;
  description = none;
  progress = some 40;
}

abbrev listed : Activity
listed = record {
  events = event "e1" tool running ∷ event "e3" tool running ∷ [];
  told = [];
  connected = true;
  error = none;
  sse_open = true;
}

abbrev done : ActivityEvent
done = event "e3" tool ActivityStatus.completed

abbrev others : List ActivityEvent
others = event "e2" planning running ∷ event "e2" planning ActivityStatus.completed ∷ []

process_event_again_example :
    ((process_event done (process_events others (process_event done listed))).events
      ≡ (process_events others (process_event done listed)).events)
    × ((process_event done (process_events others (process_event done listed))).told
        ≡ done ∷ (process_events others (process_event done listed)).told)
process_event_again_example = process_event_again done others listed (
  record { other_id = refl; other_phase = refl },
  (record { other_id = refl; other_phase = refl }, tt),
)
