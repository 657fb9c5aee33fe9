-- ===== src/Agent/Owner/Refines.antt =====
-- The sessions of the conversations, against a function from conversations to sessions
-- (cc-wrapper.ts).
use mathlib.Core.Path.{subst}
use agent_workflow_platform.Prelude.{
  ℕ, String, Bool, List, [], ◌∷◌, Option, none, ◌≡◌, refl, sym, ◌∙◌, ap, Bool-cases, Option-cases,
  inl, inr, String-cases, map_get, map_get-delete_self, map_get-delete_ne, fun_ext, eq_refl,
}
use agent_workflow_platform.Sse.Framing.{Units}
use agent_workflow_platform.Agent.Json.{Json, is_object}
use agent_workflow_platform.Agent.Session.{Wrapper}
use agent_workflow_platform.Agent.Registry.{find_session}
use agent_workflow_platform.Agent.Launch.{Machine, valid_conversation}
use agent_workflow_platform.Agent.Start.{
  SpawnOutcome, existing, drop_stale, start_conversation, start_session,
}
use agent_workflow_platform.Agent.Events.{
  Event, start, stdout, stderr, exit, error, send, stop, timeout, stop_all, step, run,
}
use agent_workflow_platform.Agent.Owner.Kept.{Kept}
use agent_workflow_platform.Agent.Owner.Stopped.{
  stop_session-Kept, stop_timeout-Kept, stop_all_sessions-Kept,
}
use agent_workflow_platform.Agent.Owner.Reports.{
  on_stderr-Kept, send_finish-Kept, handle_stdout_chunk-Kept,
}
use agent_workflow_platform.Agent.Owner.Ended.{IsOwned, Kept-IsOwned, close}
use agent_workflow_platform.Agent.Owner.Exits.{Closes, on_error-Closes, on_exit-Closes}
use agent_workflow_platform.Agent.Owner.Spec.{owner, launches, open_for, meaning, replay}
use agent_workflow_platform.Agent.Owner.Opened.{
  Follows, lookups-IsOwned, start_new-Follows, new_owner,
}

-- The session that a start finds is the one of the entry.
pub existing-owner : (conv : String) (w : Wrapper) → IsOwned w → existing conv w ≡ owner w conv
unfolding existing find_session
existing-owner conv w h = elim (Option-cases (map_get conv w.by_conv)) [
  | inl n ↦ rw (n, existing) refl
  | inr (id, f) ↦
      let (reg, s, was, fits) = h.live conv id f in
      let going = (h.owned id s reg was).1 in rw (f, reg, was, going, existing, find_session) refl
]

-- The entry that is dropped was none.
dropped :
    (conv id : String) (launched : Bool) (c : String) (w : Wrapper)
    → owner w conv ≡ none
    → new_owner conv id launched (owner (drop_stale conv w)) c
      ≡ open_for conv id launched (owner w) c
unfolding drop_stale
dropped conv id launched c w free = elim (String-cases conv c) [
  | inl same ↦ rw (sym same, eq_refl conv, free) refl
  | inr other ↦ rw other (map_get-delete_ne conv c w.by_conv other)
]

drop_stale-IsOwned :
    (conv : String) (w : Wrapper) → owner w conv ≡ none → IsOwned w → IsOwned (drop_stale conv w)
unfolding drop_stale
drop_stale-IsOwned conv w free h =
    lookups-IsOwned w (drop_stale conv w) refl refl
      (λ c. elim (String-cases conv c) [
        | inl same ↦ rw (sym same) (map_get-delete_self conv w.by_conv ∙ sym free)
        | inr other ↦ map_get-delete_ne conv c w.by_conv other
      ])
      h

start_conversation-Follows :
    (m : Machine) (opts : Json) (conv : String) (outcome : SpawnOutcome) (id : String) (now : ℕ)
    (w : Wrapper)
    → IsOwned w
    → map_get id w.objects ≡ none
    → Follows
        (start_conversation m opts conv outcome id now w).1
        (open_for conv id (launches m opts conv outcome) (owner w))
unfolding start_conversation
start_conversation-Follows m opts conv outcome id now w h fresh =
    elim (Option-cases (owner w conv)) [
      | inl free ↦
          let r =
            start_new-Follows m opts conv outcome id now (drop_stale conv w)
              (drop_stale-IsOwned conv w free h) (unfold drop_stale in fresh)
              (unfold drop_stale in map_get-delete_self conv w.by_conv) in
          rw (existing-owner conv w h ∙ free, start_conversation)
            (record {
              is_owned = r.is_owned;
              owners = λ c. r.owners c ∙ dropped conv id (launches m opts conv outcome) c w free;
            })
      | inr (known, e) ↦
          rw (existing-owner conv w h ∙ e, start_conversation)
            (record {
              is_owned = h;
              owners = λ c. elim (String-cases conv c) [
                | inl same ↦ rw (sym same, eq_refl conv, e) refl
                | inr other ↦ rw other refl
              ];
            })
    ]

pub start_session-Follows :
    (m : Machine) (opts : Json) (outcome : SpawnOutcome) (id : String) (now : ℕ) (w : Wrapper)
    → IsOwned w
    → map_get id w.objects ≡ none
    → Follows
        (start_session m opts outcome id now w).1
        (meaning m (start opts outcome id now) (owner w))
unfolding start_session meaning
start_session-Follows m opts outcome id now w h fresh = elim (Bool-cases (is_object opts)) [
  | inl is ↦ elim (Option-cases (valid_conversation opts)) [
    | inl e ↦ rw (is, e, start_session, meaning) (record { is_owned = h; owners = λ c. refl })
    | inr (conv, e) ↦
        rw (is, e, start_session, meaning)
          (start_conversation-Follows m opts conv outcome id now w h fresh)
  ]
  | inr is_not ↦ rw (is_not, start_session, meaning) (record { is_owned = h; owners = λ c. refl })
]

Kept-Follows : (w v : Wrapper) → IsOwned w → Kept w v → Follows v (owner w)
Kept-Follows w v h k = record {
  is_owned = Kept-IsOwned w v k h;
  owners = λ c. ap (map_get c) k.by_conv;
}

Closes-Follows : (id : String) (w v : Wrapper) → Closes id w v → Follows v (close id (owner w))
Closes-Follows id w v k = record { is_owned = k.is_owned; owners = k.entries }

-- The id of a start is new at that time.
abbrev pub IsFresh : Event → Wrapper → Type 0
IsFresh (start opts outcome id now) w = map_get id w.objects ≡ none
IsFresh _ w = Unit

module _ (m : Machine) (parse_json : Units → Option Json) where
  step-Follows :
      (e : Event) (w : Wrapper)
      → IsOwned w
      → IsFresh e w
      → Follows (step m parse_json e w) (meaning m e (owner w))
  unfolding step meaning
  step-Follows (start opts outcome id now) w h fresh =
      start_session-Follows m opts outcome id now w h fresh
  step-Follows (stdout id piece now) w h fresh =
      Kept-Follows w _ h (handle_stdout_chunk-Kept parse_json m.host id piece now w)
  step-Follows (stderr id text) w h fresh = Kept-Follows w _ h (on_stderr-Kept id text w)
  step-Follows (exit id code signal tail now) w h fresh =
      Closes-Follows id w _ (on_exit-Closes parse_json m.host id code signal tail now w h)
  step-Follows (error managed id code message) w h fresh =
      Closes-Follows id w _ (on_error-Closes m.host managed id code message w h)
  step-Follows (send id attached content outcome now) w h fresh =
      Kept-Follows w _ h (send_finish-Kept id attached content outcome now w)
  step-Follows (stop id) w h fresh = Kept-Follows w _ h (stop_session-Kept m.host id w)
  step-Follows (timeout id) w h fresh = Kept-Follows w _ h (stop_timeout-Kept id w)
  step-Follows stop_all w h fresh = Kept-Follows w _ h (stop_all_sessions-Kept m.host w)

  abbrev pub AreFresh : List Event → Wrapper → Type 0
  AreFresh [] w = Unit
  AreFresh (e ∷ es) w = IsFresh e w × AreFresh es (step m parse_json e w)

  -- Over any events, in which a start takes an id that no session object has, the session that each
  -- conversation has in the maps is the one that the same events give on a function: a start that
  -- makes a process gives its id to a conversation that has no session and leaves another as it is,
  -- an exit and an error of a process take its session away, and nothing else changes anything. The
  -- maps fit together again behind each event.
  pub run_refines :
      (es : List Event) (w : Wrapper)
      → IsOwned w
      → AreFresh es w
      → IsOwned (run m parse_json es w) × (owner (run m parse_json es w) ≡ replay m es (owner w))
  unfolding run replay
  run_refines [] w h fresh = (h, refl)
  run_refines (e ∷ es) w h fresh =
      let r = step-Follows e w h fresh.0 in
      subst
        (λ f.
          IsOwned (run m parse_json es (step m parse_json e w))
          × (owner (run m parse_json es (step m parse_json e w)) ≡ replay m es f))
        (fun_ext r.owners) (run_refines es (step m parse_json e w) r.is_owned fresh.1)
