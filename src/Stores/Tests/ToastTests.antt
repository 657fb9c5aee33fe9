-- ===== src/Stores/Tests/ToastTests.antt =====
-- The theorem on the toasts at concrete calls.
use agent_workflow_platform.Prelude.{List, [], ◌∷◌, none, some}
use agent_workflow_platform.Stores.Toast.{Toasts, error, warning, Call, shown, dismissed, run}
use agent_workflow_platform.Stores.Toast.Invariant.{AreTidy, run-AreTidy}

abbrev no_toasts : Toasts
no_toasts = record { toasts = []; next_id = 1; last_shown = []; timers = [] }

abbrev some_calls : List Call
some_calls =
    shown 6000 "offline" error none
    ∷ shown 6100 "offline" error none
    ∷ dismissed 1
    ∷ shown 6200 "saved" warning (some 0)
    ∷ []

run-AreTidy_example : AreTidy (run no_toasts some_calls)
run-AreTidy_example = run-AreTidy no_toasts some_calls (record { tidy = tt; below = tt })
