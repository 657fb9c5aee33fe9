-- ===== src/Stores/AuthStale.antt =====
-- The guard around the handling of a stale token (apps/desktop/src/api/authStaleCoordinator.ts).
-- A timer that is set is the time at which it is due; the event loop fires it then or later.
use agent_workflow_platform.Prelude.{
  ℕ, ◌+◌, ◌≤◌, ◌<◌, Bool, true, false, List, [], ◌∷◌, Option, none, some, ◌≡◌, refl, arith,
  if◌then◌else◌, leb, All, get_or,
}

pub record AuthStale : Type 0 where
  pub claimed : Bool
  pub reset_timer : Option ℕ

abbrev pub auth_stale_debounce_ms : ℕ
auth_stale_debounce_ms = 15000

-- `tryClaimAuthStale` at a time
unfoldable pub try_claim_auth_stale : ℕ → Option ℕ → AuthStale → AuthStale × Bool
try_claim_auth_stale now debounce s = if s.claimed then (s, false) else (
  record { claimed = true; reset_timer = some (now + get_or debounce auth_stale_debounce_ms) },
  true,
)

-- the callback of the timer, which the event loop runs when it is due
unfoldable pub fire_timer : ℕ → AuthStale → AuthStale
fire_timer now s = elim s.reset_timer [
  | none ↦ s
  | some due ↦ if leb due now then record { claimed = false; reset_timer = none } else s
]

unfoldable pub reset_auth_stale : AuthStale → AuthStale
reset_auth_stale s = record { claimed = false; reset_timer = none }

-- `isAuthStaleClaimed`
unfoldable pub is_auth_stale_claimed : AuthStale → Bool
is_auth_stale_claimed s = s.claimed

-- What happens at a time: a failed request claims, the event loop looks at the timer, or the
-- user logs in again.
pub data Event : Type 0 where
  request : Option ℕ → Event
  loop : Event
  login : Event

unfoldable pub step : ℕ → Event → AuthStale → AuthStale × Bool
unfolding try_claim_auth_stale fire_timer reset_auth_stale
step now (request debounce) s = try_claim_auth_stale now debounce s
step now loop s = (fire_timer now s, false)
step now login s = (reset_auth_stale s, false)

-- The number of claims that were granted.
unfoldable pub granted : List (ℕ × Event) → AuthStale → ℕ
unfolding step
granted [] s = 0
granted ((now, e) ∷ es) s = let (s', won) = step now e s in (if won then 1 else 0) + granted es s'

-- The claim is held, and its timer is due at a time.
abbrev IsHeld : ℕ → AuthStale → Type 0
IsHeld due s = (s.claimed ≡ true) × (s.reset_timer ≡ some due)

abbrev IsEarly : ℕ → ℕ × Event → Type 0
IsEarly due (now, request debounce) = now < due
IsEarly due (now, loop) = now < due
IsEarly due (now, login) = ⊥

granted_none :
    (due : ℕ) (es : List (ℕ × Event)) (s : AuthStale)
    → IsHeld due s
    → All (IsEarly due) es
    → granted es s ≡ 0
unfolding granted
granted_none due [] s h k = refl
granted_none due ((now, request debounce) ∷ es) s h k = ground (arith, granted_none due es s h k.1)
granted_none due ((now, loop) ∷ es) s h k = ground (arith, granted_none due es s h k.1)
granted_none due ((now, login) ∷ es) s h k = absurd k.0

-- A claim on a free guard is granted, and of all later requests and timer checks before the
-- debounce time is over none is granted a claim, unless the user logs in in between.
claim_once :
    (now : ℕ) (debounce : Option ℕ) (es : List (ℕ × Event)) (s : AuthStale)
    → s.claimed ≡ false
    → All (IsEarly (now + get_or debounce auth_stale_debounce_ms)) es
    → granted ((now, request debounce) ∷ es) s ≡ 1
unfolding granted
claim_once now debounce es s free early = ground (
  arith,
  granted_none (now + get_or debounce auth_stale_debounce_ms) es
      (record { claimed = true; reset_timer = some (now + get_or debounce auth_stale_debounce_ms) })
      (refl, refl) early,
)

-- When the timer has fired, the next claim is granted again.
pub claim_again :
    (now later : ℕ) (debounce again : Option ℕ) (s : AuthStale)
    → s.claimed ≡ false
    → now + get_or debounce auth_stale_debounce_ms ≤ later
    → granted ((now, request debounce) ∷ (later, loop) ∷ (later, request again) ∷ []) s ≡ 2
unfolding granted
claim_again now later debounce again s free late = ground arith
