-- ===== src/Agent/Stops.antt =====
-- What stopping a session asks of its process (`stopSession`, `stopProcess` and
-- `waitForProcessExit` of cc-wrapper.ts).
use agent_workflow_platform.Prelude.{
  ℕ, String, Bool, true, false, ◌||◌, List, [], ◌∷◌, ◌++◌, Option, none, some, is_some, ◌≡◌, refl,
  sym, ◌∙◌, ap, if◌then◌else◌, Option-cases, inl, inr, map_get, map_get-set_self,
}
use agent_workflow_platform.Sse.Framing.{Units}
use agent_workflow_platform.Agent.Json.{Json}
use agent_workflow_platform.Agent.Session.{
  CcSession, Wrapper, Host, StopStage, soft_wait, grace_wait, finished, ProcessCall, write_shutdown,
  kill, sigterm, sigkill, exited,
}
use agent_workflow_platform.Agent.Registry.{
  find_session, is_exited, has_process_exited, put_object, ask, broadcast, forget, terminate,
  stop_process, stop_session, timed_out, stop_timeout, stop_on_exit,
}
use agent_workflow_platform.Agent.Process.{finish_exit, drain, on_exit}
use agent_workflow_platform.Agent.Owner.Exits.{report_exit-SameMaps}

-- What is asked of a process that never ends, the newest first.
abbrev pub escalation : Host → String → CcSession → List ProcessCall
escalation host id s =
    kill id sigkill
    ∷ kill id sigterm
    ∷ (if (if host.windows then s.proc.stdin_open else false) then write_shutdown id ∷ [] else [])

-- Both timers.
abbrev pub timeouts : String → Wrapper → Wrapper
timeouts id w = stop_timeout id (stop_timeout id w)

-- the timer that fires last, for a session that waits for the end behind SIGTERM
grace_over :
    (id : String) (s : CcSession) (w : Wrapper)
    → map_get id w.objects ≡ some s
    → s.stop ≡ some grace_wait
    → stop_timeout id w
      ≡ ask (kill id sigkill) (put_object id (record s { stop = some finished }) w)
unfolding stop_timeout timed_out
grace_over id s w e h = rw (e, h, stop_timeout, timed_out) refl

finished_over :
    (id : String) (s : CcSession) (w : Wrapper)
    → map_get id w.objects ≡ some s
    → s.stop ≡ some finished
    → stop_timeout id w ≡ w
unfolding stop_timeout timed_out
finished_over id s w e h = rw (e, h, stop_timeout, timed_out) refl

-- The state behind the last timer; more timers change nothing.
abbrev killed : String → CcSession → Wrapper → Wrapper
killed id s w = ask (kill id sigkill) (put_object id (record s { stop = some finished }) w)

killed-over :
    (id : String) (s : CcSession) (w : Wrapper) → stop_timeout id (killed id s w) ≡ killed id s w
unfolding ask put_object
killed-over id s w =
    finished_over id (record s { stop = some finished }) (killed id s w)
      (map_get-set_self id (record s { stop = some finished }) w.objects) refl

graced :
    (id : String) (s : CcSession) (w : Wrapper)
    → map_get id w.objects ≡ some s
    → s.stop ≡ some grace_wait
    → timeouts id w ≡ killed id s w
graced id s w e h = ap (stop_timeout id) (grace_over id s w e h) ∙ killed-over id s w

-- SIGTERM for a process that has not ended
terminate-waits :
    (id : String) (s : CcSession) (w : Wrapper)
    → has_process_exited s ≡ false
    → terminate id s w
      ≡ ask (kill id sigterm) (put_object id (record s { stop = some grace_wait }) w)
unfolding terminate
terminate-waits id s w h = rw (h, terminate) refl

-- the session that waits behind SIGTERM
abbrev waiting : String → CcSession → Wrapper → Wrapper
waiting id s w = ask (kill id sigterm) (put_object id (record s { stop = some grace_wait }) w)

terminated :
    (id : String) (s : CcSession) (w : Wrapper)
    → has_process_exited s ≡ false
    → timeouts id (terminate id s w)
      ≡ killed id (record s { stop = some grace_wait }) (waiting id s w)
unfolding put_object ask
terminated id s w h =
    ap (timeouts id) (terminate-waits id s w h)
    ∙ graced id (record s { stop = some grace_wait }) (waiting id s w)
        (map_get-set_self id (record s { stop = some grace_wait }) w.objects) refl

-- the first timer, for a session that waits for the end behind the line
soft_over :
    (id : String) (s : CcSession) (w : Wrapper)
    → map_get id w.objects ≡ some s
    → s.stop ≡ some soft_wait
    → stop_timeout id w ≡ terminate id s w
unfolding stop_timeout timed_out
soft_over id s w e h = rw (e, h, stop_timeout, timed_out) refl

or-false : (a b : Bool) → (a || b) ≡ false → a ≡ false
or-false true b h = h
or-false false b h = refl

-- where the process has not ended and no stop has begun, a stop begins
stop_session-begins :
    (host : Host) (id : String) (s : CcSession) (w : Wrapper)
    → find_session id w ≡ some s
    → has_process_exited s ≡ false
    → s.stop ≡ none
    → stop_session host id w ≡ stop_process host id s w
unfolding stop_session has_process_exited
stop_session-begins host id s w e h n =
    let not_exited =
      or-false (is_exited s.phase) (is_some s.proc.exit_code)
        (or-false (is_exited s.phase || is_some s.proc.exit_code) (is_some s.proc.signal_code) h) in
    rw (e, not_exited, n, stop_session) refl

-- `stopProcess` with its timers, by whether it writes the line
escalated :
    (host : Host) (id : String) (s : CcSession) (w : Wrapper) (b : Bool)
    → (if host.windows then s.proc.stdin_open else false) ≡ b
    → has_process_exited s ≡ false
    → (timeouts id (stop_timeout id (stop_process host id s w))).calls
      ≡ (kill id sigkill ∷ kill id sigterm ∷ (if b then write_shutdown id ∷ [] else [])) ++ w.calls
unfolding stop_process
escalated host id s w true e h =
    let soft = record s { stop_requested = true; stop = some soft_wait } in
    let v = ask (write_shutdown id) (put_object id soft w) in
    rw (e, h, stop_process)
      (ap (λ u. (timeouts id u).calls)
          (soft_over id soft v (unfold ask put_object in map_get-set_self id soft w.objects) refl)
        ∙ (ap (λ u. u.calls) (terminated id soft v (unfold has_process_exited in h))
            ∙ unfold ask put_object in refl))
escalated host id s w false e h =
    let asked = record s { stop_requested = true } in
    rw (e, stop_process)
      (ap (λ u. (stop_timeout id u).calls) (terminated id asked w (unfold has_process_exited in h))
        ∙ (ap (λ u. u.calls)
              (killed-over id (record asked { stop = some grace_wait }) (waiting id asked w))
            ∙ unfold ask put_object in refl))

-- A session that is stopped and whose process does not end is asked, in this order: to shut down by
-- a line, where the system is Windows and the standard input is open, then by SIGTERM, and by
-- SIGKILL. Two or three timers are enough for it.
pub stop_session-escalates :
    (host : Host) (id : String) (s : CcSession) (w : Wrapper)
    → find_session id w ≡ some s
    → has_process_exited s ≡ false
    → s.stop ≡ none
    → (timeouts id (stop_timeout id (stop_session host id w))).calls
      ≡ escalation host id s ++ w.calls
stop_session-escalates host id s w e h n =
    ap (λ u. (timeouts id (stop_timeout id u)).calls) (stop_session-begins host id s w e h n)
    ∙ escalated host id s w (if host.windows then s.proc.stdin_open else false) refl h

stop_on_exit-over :
    (stage : Option StopStage) (id : String) (s t : CcSession) (w : Wrapper)
    → s.stop ≡ stage
    → timed_out (stop_on_exit s).stop id t w ≡ w
unfolding stop_on_exit timed_out
stop_on_exit-over none id s t w e = rw (e, stop_on_exit, timed_out, e) refl
stop_on_exit-over (some soft_wait) id s t w e = rw (e, stop_on_exit, timed_out) refl
stop_on_exit-over (some grace_wait) id s t w e = rw (e, stop_on_exit, timed_out) refl
stop_on_exit-over (some finished) id s t w e = rw (e, stop_on_exit, timed_out, e) refl

over-by_object :
    (id : String) (s : CcSession) (w : Wrapper)
    → map_get id w.objects ≡ some s
    → timed_out s.stop id s w ≡ w
    → stop_timeout id w ≡ w
unfolding stop_timeout
over-by_object id s w e h = rw (e, stop_timeout) h

over-no_object : (id : String) (w : Wrapper) → map_get id w.objects ≡ none → stop_timeout id w ≡ w
unfolding stop_timeout
over-no_object id w e = rw (e, stop_timeout) refl

finish_exit-no_object :
    (host : Host) (id : String) (code : Option ℕ) (signal : Option String) (w : Wrapper)
    → map_get id w.objects ≡ none
    → finish_exit host id code signal w ≡ w
unfolding finish_exit
finish_exit-no_object host id code signal w e = rw (e, finish_exit) refl

-- the object behind the handler
finish_exit-object :
    (host : Host) (id : String) (code : Option ℕ) (signal : Option String) (s : CcSession)
    (w : Wrapper)
    → map_get id w.objects ≡ some s
    → map_get id (finish_exit host id code signal w).objects
      ≡ some (stop_on_exit (record s { phase = exited }))
unfolding finish_exit forget broadcast put_object
finish_exit-object host id code signal s w e =
    let over = stop_on_exit (record s { phase = exited }) in
    rw (e, finish_exit)
      (ap (map_get id)
          (report_exit-SameMaps host code signal (record s { phase = exited })
            (put_object id over w)).2
        ∙ map_get-set_self id over w.objects)

finish_exit-over :
    (host : Host) (id : String) (code : Option ℕ) (signal : Option String) (w : Wrapper)
    → stop_timeout id (finish_exit host id code signal w) ≡ finish_exit host id code signal w
finish_exit-over host id code signal w = elim (Option-cases (map_get id w.objects)) [
  | inl e ↦
      let same = finish_exit-no_object host id code signal w e in
      ap (stop_timeout id) same ∙ (over-no_object id w e ∙ sym same)
  | inr (s, e) ↦
      let over = record s { phase = exited } in
      let v = finish_exit host id code signal w in
      over-by_object id (stop_on_exit over) v (finish_exit-object host id code signal s w e)
        (stop_on_exit-over over.stop id over (stop_on_exit over) v refl)
]

module _ (parse_json : Units → Option Json) where
  -- Behind the exit of a session's process, a timer of a stop asks nothing of the process and changes
  -- nothing.
  pub stop_timeout-on_exit :
      (host : Host) (id : String) (code : Option ℕ) (signal : Option String) (tail : Units)
      (now : ℕ) (w : Wrapper)
      → stop_timeout id (on_exit parse_json host id code signal tail now w)
        ≡ on_exit parse_json host id code signal tail now w
  unfolding on_exit
  stop_timeout-on_exit host id code signal tail now w = elim (Option-cases (map_get id w.objects)) [
    | inl e ↦
        let same : on_exit parse_json host id code signal tail now w ≡ w = rw (e, on_exit) refl in
        ap (stop_timeout id) same ∙ (over-no_object id w e ∙ sym same)
    | inr (s, e) ↦
        let ended = record s {
          proc = record s.proc { exit_code = code; signal_code = signal };
          stdout_buffer = s.stdout_buffer ++ tail;
        } in
        rw (e, on_exit)
          (finish_exit-over host id code signal (drain parse_json host id now ended w))
  ]
