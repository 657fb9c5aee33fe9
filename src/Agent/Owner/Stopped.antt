-- ===== src/Agent/Owner/Stopped.antt =====
-- Stopping a session leaves the maps as they are (cc-wrapper.ts).
use agent_workflow_platform.Prelude.{
  String, true, false, ◌||◌, List, [], ◌∷◌, Option, none, some, is_some, ◌≡◌, refl, if◌then◌else◌,
  Option-cases, inl, inr, map_get,
}
use agent_workflow_platform.Agent.Session.{
  CcSession, Wrapper, Host, Registered, soft_wait, grace_wait, finished, StopStage,
}
use agent_workflow_platform.Agent.Registry.{
  find_session, is_exited, terminate, stop_process, stop_session, stop_timeout, timed_out, stop_all,
  stop_all_sessions,
}
use agent_workflow_platform.Agent.Owner.Kept.{
  Goes, Kept, Kept-refl, Kept-trans, ask_put-Kept, if-Kept,
}

terminate-Kept :
    (id : String) (s t : CcSession) (w : Wrapper)
    → map_get id w.objects ≡ some s
    → Goes s t
    → Kept w (terminate id t w)
unfolding terminate
terminate-Kept id s t w e h = ask_put-Kept _ id s _ w e h

stop_process-Kept :
    (host : Host) (id : String) (s : CcSession) (w : Wrapper)
    → map_get id w.objects ≡ some s
    → Kept w (stop_process host id s w)
unfolding stop_process
stop_process-Kept host id s w e =
    if-Kept (if host.windows then s.proc.stdin_open else false) w _ _
      (ask_put-Kept _ id s _ w e (refl, λ h. h))
      (terminate-Kept id s (record s { stop_requested = true }) w e (refl, λ h. h))

-- What the map finds is the object.
pub find_session-object :
    (id : String) (s : CcSession) (w : Wrapper)
    → find_session id w ≡ some s
    → map_get id w.objects ≡ some s
unfolding find_session
find_session-object id s w e = elim (Option-cases (map_get id w.sessions)) [
  | inl n ↦ (let r = rw (n, find_session) at e in cc)
  | inr (x, f) ↦ rw (f, find_session) at e
]

pub stop_session-Kept : (host : Host) (id : String) (w : Wrapper) → Kept w (stop_session host id w)
unfolding stop_session
stop_session-Kept host id w = elim (Option-cases (find_session id w)) [
  | inl e ↦ rw (e, stop_session) (Kept-refl w)
  | inr (s, e) ↦
      rw (e, stop_session)
        (if-Kept (is_exited s.phase || is_some s.stop) w w (stop_process host id s w) (Kept-refl w)
          (stop_process-Kept host id s w (find_session-object id s w e)))
]

stop_all-Kept :
    (host : Host) (ids : List (String × Registered)) (w : Wrapper) → Kept w (stop_all host ids w)
unfolding stop_all
stop_all-Kept host [] w = Kept-refl w
stop_all-Kept host ((id, r) ∷ ids) w =
    Kept-trans w (stop_session host id w) (stop_all host ids (stop_session host id w))
      (stop_session-Kept host id w) (stop_all-Kept host ids (stop_session host id w))

pub stop_all_sessions-Kept : (host : Host) (w : Wrapper) → Kept w (stop_all_sessions host w)
unfolding stop_all_sessions
stop_all_sessions-Kept host w = stop_all-Kept host w.sessions w

timed_out-Kept :
    (stage : Option StopStage) (id : String) (s : CcSession) (w : Wrapper)
    → map_get id w.objects ≡ some s
    → Kept w (timed_out stage id s w)
unfolding timed_out
timed_out-Kept (some soft_wait) id s w e = terminate-Kept id s s w e (refl, λ h. h)
timed_out-Kept (some grace_wait) id s w e =
    ask_put-Kept _ id s (record s { stop = some finished }) w e (refl, λ h. h)
timed_out-Kept (some finished) id s w e = Kept-refl w
timed_out-Kept none id s w e = Kept-refl w

pub stop_timeout-Kept : (id : String) (w : Wrapper) → Kept w (stop_timeout id w)
unfolding stop_timeout
stop_timeout-Kept id w = elim (Option-cases (map_get id w.objects)) [
  | inl e ↦ rw (e, stop_timeout) (Kept-refl w)
  | inr (s, e) ↦ rw (e, stop_timeout) (timed_out-Kept s.stop id s w e)
]
