-- ===== src/Stores/Toast.antt =====
-- The toasts (apps/desktop/src/stores/toast.ts). Times are in milliseconds.
pub mod Invariant
pub mod Throttle
use agent_workflow_platform.Prelude.{
  ℕ, zero, ◌+◌, ◌-◌, String, Bool, true, false, ◌&&◌, List, [], ◌∷◌, ◌++◌, Option, none, some,
  get_or, ◌==◌, if◌then◌else◌, any, ltb, eqb, ◌⧺◌,
}

pub data ToastType : Type 0 where
  success error warning info : ToastType

pub record Toast : Type 0 where
  pub id : ℕ
  pub type : ToastType
  pub message : String
  pub duration : ℕ

-- A `setTimeout` that will dismiss a toast.
pub record Timer : Type 0 where
  pub toast : ℕ
  pub due : ℕ

-- `nextId`, `_lastShown` and the store; the pending timers are those of the event loop.
pub record Toasts : Type 0 where
  pub toasts : List Toast
  pub next_id : ℕ
  pub last_shown : List (String × ℕ)
  pub timers : List Timer

abbrev pub error_throttle_ms : ℕ
error_throttle_ms = 5000

abbrev pub same_type : ToastType → ToastType → Bool
same_type success success = true
same_type error error = true
same_type warning warning = true
same_type info info = true
same_type _ _ = false

abbrev pub is_error : ToastType → Bool
is_error error = true
is_error _ = false

abbrev pub looks_like : ToastType → String → Toast → Bool
looks_like type message t = same_type t.type type && t.message == message

-- `_lastShown.get(key)`
unfoldable pub last_time : String → List (String × ℕ) → Option ℕ
last_time key [] = none
last_time key ((k, t) ∷ rest) = if k == key then some t else last_time key rest

-- the key of an error
abbrev pub throttle_key : String → String
throttle_key message = "error:" ⧺ message

default_duration : ToastType → ℕ
default_duration type = if is_error type then 10000 else 5000

unfoldable pub made_toast : ℕ → String → ToastType → Option ℕ → Toast
unfolding default_duration
made_toast id message type duration = record {
  id = id;
  type = type;
  message = message;
  duration = get_or duration (default_duration type);
}

-- the part of `show` behind the two guards
unfoldable pub push_toast : ℕ → Toast → Toasts → Toasts
push_toast now toast s = record s {
  next_id = s.next_id + 1;
  toasts = s.toasts ++ toast ∷ [];
  timers =
      if ltb 0 toast.duration
      then record { toast = toast.id; due = now + toast.duration } ∷ s.timers
      else s.timers;
}

-- `now - last < 5000`
unfoldable pub throttled : ℕ → String → Toasts → Bool
throttled now message s =
    ltb (now - get_or (last_time (throttle_key message) s.last_shown) 0) error_throttle_ms

-- `show`
unfoldable pub show : ℕ → String → ToastType → Option ℕ → Toasts → Toasts
unfolding last_time
show now message type duration s =
    if any (looks_like type message) s.toasts
    then s
    else (let toast = made_toast s.next_id message type duration in
        if is_error type
        then (if throttled now message s
            then s
            else push_toast now toast
                (record s { last_shown = (throttle_key message, now) ∷ s.last_shown }))
        else push_toast now toast s)

-- `dismiss`: the first toast with the id goes.
unfoldable pub remove_toast : ℕ → List Toast → List Toast
remove_toast id [] = []
remove_toast id (t ∷ ts) = if eqb t.id id then ts else t ∷ remove_toast id ts

unfoldable pub dismiss : ℕ → Toasts → Toasts
unfolding remove_toast
dismiss id s = record s { toasts = remove_toast id s.toasts }

-- A call of the store; a timer that fires is a `dismissed`.
pub data Call : Type 0 where
  shown : ℕ → String → ToastType → Option ℕ → Call
  dismissed : ℕ → Call

unfoldable pub step : Toasts → Call → Toasts
unfolding show dismiss
step s (shown now message type duration) = show now message type duration s
step s (dismissed id) = dismiss id s

unfoldable pub run : Toasts → List Call → Toasts
unfolding step
run s [] = s
run s (c ∷ cs) = run (step s c) cs
