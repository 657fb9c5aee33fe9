-- ===== src/Stores/Toast/Invariant.antt =====
-- The toasts on view over many calls (toast.ts).
use agent_workflow_platform.Prelude.{
  ℕ, ◌+◌, ◌<◌, String, false, List, [], ◌∷◌, ◌++◌, Option, ◌≡◌, arith, any, All, refl, Bool-cases,
  inl, inr,
}
use agent_workflow_platform.Stores.Toast.{
  Toast, ToastType, Toasts, looks_like, is_error, made_toast, throttled, throttle_key, push_toast,
  show, remove_toast, dismiss, Call, shown, dismissed, run,
}

-- `t` has neither the id nor the looks of a toast of the list.
abbrev pub IsNew : Toast → List Toast → Type 0
IsNew t ts = All (λ u. (u.id < t.id) × (looks_like t.type t.message u ≡ false)) ts

-- Ids grow from the front, and no toast repeats an earlier one.
abbrev pub IsTidy : List Toast → Type 0
IsTidy [] = Unit
IsTidy (t ∷ ts) = All (λ u. (t.id < u.id) × (looks_like u.type u.message t ≡ false)) ts × IsTidy ts

pub record AreTidy (s : Toasts) : Type 0 where
  pub tidy : IsTidy s.toasts
  pub below : All (λ t. t.id < s.next_id) s.toasts

All-concat :
    (t u : Toast) (ts : List Toast)
    → All (λ v. (u.id < v.id) × (looks_like v.type v.message u ≡ false)) ts
    → u.id < t.id
    → looks_like t.type t.message u ≡ false
    → All (λ v. (u.id < v.id) × (looks_like v.type v.message u ≡ false)) (ts ++ t ∷ [])
All-concat t u [] h lt ne = ((lt, ne), tt)
All-concat t u (v ∷ ts) h lt ne = (h.0, All-concat t u ts h.1 lt ne)

IsTidy-concat : (t : Toast) (ts : List Toast) → IsTidy ts → IsNew t ts → IsTidy (ts ++ t ∷ [])
IsTidy-concat t [] h n = (tt, tt)
IsTidy-concat t (u ∷ ts) h n = (All-concat t u ts h.0 n.0.0 n.0.1, IsTidy-concat t ts h.1 n.1)

IsNew-of_any :
    (t : Toast) (ts : List Toast)
    → any (looks_like t.type t.message) ts ≡ false
    → All (λ u. u.id < t.id) ts
    → IsNew t ts
IsNew-of_any t [] h k = tt
IsNew-of_any t (u ∷ ts) h k = ((k.0, ground arith), IsNew-of_any t ts (ground arith) k.1)

below-concat :
    (n : ℕ) (t : Toast) (ts : List Toast)
    → All (λ u. u.id < n) ts
    → t.id ≡ n
    → All (λ u. u.id < n + 1) (ts ++ t ∷ [])
below-concat n t [] h e = (omega arith, tt)
below-concat n t (u ∷ ts) h e = (omega arith, below-concat n t ts h.1 e)

push_toast-AreTidy :
    (now : ℕ) (t : Toast) (s : Toasts)
    → t.id ≡ s.next_id
    → any (looks_like t.type t.message) s.toasts ≡ false
    → AreTidy s
    → AreTidy (push_toast now t s)
unfolding push_toast
push_toast-AreTidy now t s e h v = record {
  tidy = IsTidy-concat t s.toasts v.tidy (IsNew-of_any t s.toasts h (rw e v.below));
  below = below-concat s.next_id t s.toasts v.below e;
}

made_toast-AreTidy :
    (now : ℕ) (message : String) (type : ToastType) (duration : Option ℕ) (s : Toasts)
    → any (looks_like type message) s.toasts ≡ false
    → AreTidy s
    → AreTidy (push_toast now (made_toast s.next_id message type duration) s)
unfolding made_toast
made_toast-AreTidy now message type duration s h v =
    push_toast-AreTidy now (made_toast s.next_id message type duration) s refl h v

-- `show` keeps the toasts on view distinct.
pub show-AreTidy :
    (now : ℕ) (message : String) (type : ToastType) (duration : Option ℕ) (s : Toasts)
    → AreTidy s
    → AreTidy (show now message type duration s)
unfolding show
show-AreTidy now message type duration s v =
    elim (Bool-cases (any (looks_like type message) s.toasts)) [
      | inl seen ↦ rw (seen, show) v
      | inr new ↦
          rw (new, show)
            (elim (Bool-cases (is_error type)) [
              | inl err ↦
                  rw (err, show)
                    (elim (Bool-cases (throttled now message s)) [
                      | inl soon ↦ rw (soon, show) v
                      | inr late ↦
                          rw (late, show)
                            (made_toast-AreTidy now message type duration
                              (record s { last_shown = (throttle_key message, now) ∷ s.last_shown })
                              new (record { tidy = v.tidy; below = v.below }))
                    ])
              | inr mild ↦ rw (mild, show) (made_toast-AreTidy now message type duration s new v)
            ])
    ]

remove_toast-All {κ} :
    (P : Toast → Type κ) (id : ℕ) (ts : List Toast) → All P ts → All P (remove_toast id ts)
unfolding remove_toast
remove_toast-All P id [] h = tt
remove_toast-All P id (t ∷ ts) h = ground (arith, remove_toast-All P id ts h.1)

remove_toast-IsTidy : (id : ℕ) (ts : List Toast) → IsTidy ts → IsTidy (remove_toast id ts)
unfolding remove_toast
remove_toast-IsTidy id [] h = tt
remove_toast-IsTidy id (t ∷ ts) h = ground (
  arith,
  remove_toast-IsTidy id ts h.1,
  remove_toast-All (λ u. (t.id < u.id) × (looks_like u.type u.message t ≡ false)) id ts h.0,
)

dismiss-AreTidy : (id : ℕ) (s : Toasts) → AreTidy s → AreTidy (dismiss id s)
unfolding dismiss
dismiss-AreTidy id s v = record {
  tidy = remove_toast-IsTidy id s.toasts v.tidy;
  below = remove_toast-All (λ t. t.id < s.next_id) id s.toasts v.below;
}

-- After any calls of the store and any timers, the ids of the toasts on view grow from the oldest
-- to the newest, stay below the next id, and no two toasts on view have one type and one text.
pub run-AreTidy : (s : Toasts) (cs : List Call) → AreTidy s → AreTidy (run s cs)
unfolding run
run-AreTidy s [] v = v
run-AreTidy s (shown now message type duration ∷ cs) v =
    run-AreTidy (show now message type duration s) cs (show-AreTidy now message type duration s v)
run-AreTidy s (dismissed id ∷ cs) v = run-AreTidy (dismiss id s) cs (dismiss-AreTidy id s v)
