-- ===== src/Stores/Toast/Throttle.antt =====
-- The throttle of errors (`show` of toast.ts).
use agent_workflow_platform.Prelude.{
  ℕ, ◌+◌, ◌-◌, ◌<◌, ◌≤◌, String, false, List, [], ◌∷◌, Option, get_or, some, ◌≡◌, refl, arith, any,
  map, length, length-append, ◌∙◌, eq_refl,
}
use agent_workflow_platform.Stores.Toast.{
  Toasts, error, looks_like, throttle_key, error_throttle_ms, last_time, push_toast, made_toast,
  throttled, show, dismiss, dismissed, step, run,
}

-- The last time of an error's key.
abbrev pub shown_at : String → Toasts → Option ℕ
shown_at message s = last_time (throttle_key message) s.last_shown

-- An error that is accepted is remembered with its time.
show-shown_at :
    (now : ℕ) (message : String) (duration : Option ℕ) (s : Toasts)
    → any (looks_like error message) s.toasts ≡ false
    → error_throttle_ms ≤ now - get_or (shown_at message s) 0
    → shown_at message (show now message error duration s) ≡ some now
unfolding show push_toast throttled made_toast
show-shown_at now message duration s h k = ground (arith, eq_refl (throttle_key message))

-- An error that was shown at `t` is not shown again before `t + 5000`, dismissed or not.
show-refused :
    (t now : ℕ) (message : String) (duration : Option ℕ) (s : Toasts)
    → shown_at message s ≡ some t
    → now < t + error_throttle_ms
    → show now message error duration s ≡ s
unfolding show throttled
show-refused t now message duration s h k = ground arith

run-shown_at_dismissed :
    (message : String) (ids : List ℕ) (s : Toasts)
    → shown_at message (run s (map dismissed ids)) ≡ shown_at message s
unfolding run step
run-shown_at_dismissed message [] s = refl
run-shown_at_dismissed message (id ∷ ids) s =
    run-shown_at_dismissed message ids (dismiss id s) ∙ (unfold dismiss in refl)

length-show :
    (now : ℕ) (message : String) (duration : Option ℕ) (s : Toasts)
    → any (looks_like error message) s.toasts ≡ false
    → error_throttle_ms ≤ now - get_or (shown_at message s) 0
    → length (show now message error duration s).toasts ≡ length s.toasts + 1
unfolding show push_toast throttled
length-show now message duration s h k =
    ground (arith, length-append s.toasts (made_toast s.next_id message error duration ∷ []))

-- Of an error that is neither on view nor throttled `show` makes a toast; then, whatever toasts
-- are dismissed, showing the same error again less than five seconds later changes nothing.
error_throttled :
    (t now : ℕ) (message : String) (duration again : Option ℕ) (ids : List ℕ) (s : Toasts)
    → any (looks_like error message) s.toasts ≡ false
    → error_throttle_ms ≤ t - get_or (shown_at message s) 0
    → now < t + error_throttle_ms
    → (length (show t message error duration s).toasts ≡ length s.toasts + 1)
      × (show now message error again (run (show t message error duration s) (map dismissed ids))
          ≡ run (show t message error duration s) (map dismissed ids))
error_throttled t now message duration again ids s new late soon = (
  length-show t message duration s new late,
  show-refused t now message again _
      (run-shown_at_dismissed message ids _ ∙ show-shown_at t message duration s new late) soon,
)
