-- ===== src/Agent/Owner/Exits.antt =====
-- The two handlers that end a session, and the owners of the conversations (cc-wrapper.ts).
use mathlib.Core.Path.{subst}
use agent_workflow_platform.Prelude.{
  none≢some, ℕ, String, Bool, true, false, ◌&&◌, not, List, [], ◌∷◌, ◌++◌, Option, none, some, ◌≡◌,
  refl, sym, ◌∙◌, ap, if◌then◌else◌, Option-cases, inl, inr, map_get, map_delete, map_get-set_ne,
  present, String-cases, option_is,
}
use agent_workflow_platform.Sse.Framing.{Units, newline}
use agent_workflow_platform.Agent.Json.{Json}
use agent_workflow_platform.Agent.Session.{CcSession, Wrapper, Host, FailureReport, exited}
use agent_workflow_platform.Agent.Registry.{
  put_object, broadcast, emit_failure_telemetry, forget, stop_on_exit,
}
use agent_workflow_platform.Agent.Stdout.{is_blank, handle_stdout_chunk}
use agent_workflow_platform.Agent.Process.{
  end_reasons, exited_nonzero, report_early, report_abnormal, report_exit, finish_exit, drain,
  on_exit, on_error, recover,
}
use agent_workflow_platform.Agent.Owner.Frame.{Stays}
use agent_workflow_platform.Agent.Owner.Kept.{
  Twin, Twin-refl, Kept, Kept-trans, put_object-Kept, if-Kept,
}
use agent_workflow_platform.Agent.Owner.Reports.{Stays-Goes, handle_stdout_chunk-Kept}
use agent_workflow_platform.Agent.Owner.Ended.{
  IsOwned, Kept-IsOwned, Twin-forth, close, Ended, Ended-IsOwned, entry-Ended,
}

-- The maps and the objects are the same.
abbrev pub SameMaps : Wrapper → Wrapper → Type 0
SameMaps w v = (v.sessions ≡ w.sessions) × (v.by_conv ≡ w.by_conv) × (v.objects ≡ w.objects)

if-SameMaps :
    (b : Bool) (w x y : Wrapper) → SameMaps w x → SameMaps w y → SameMaps w (if b then x else y)
if-SameMaps true w x y h k = h
if-SameMaps false w x y h k = k

pub emit_failure_telemetry-SameMaps :
    (host : Host) (r : FailureReport) (w v : Wrapper)
    → SameMaps w v
    → SameMaps w (emit_failure_telemetry host r v)
unfolding emit_failure_telemetry
emit_failure_telemetry-SameMaps host r w v h = if-SameMaps host.telemetry w _ v h h

report_abnormal-SameMaps :
    (host : Host) (code : Option ℕ) (signal : Option String) (s : CcSession) (w : Wrapper)
    (reasons : List String)
    → end_reasons code s ≡ reasons
    → SameMaps w (report_abnormal host code signal s w)
unfolding report_abnormal
report_abnormal-SameMaps host code signal s w [] e = rw (e, report_abnormal) (refl, refl, refl)
report_abnormal-SameMaps host code signal s w (r ∷ rs) e =
    rw (e, report_abnormal) (emit_failure_telemetry-SameMaps host _ w w (refl, refl, refl))

pub report_exit-SameMaps :
    (host : Host) (code : Option ℕ) (signal : Option String) (s : CcSession) (w : Wrapper)
    → SameMaps w (report_exit host code signal s w)
unfolding report_exit report_early
report_exit-SameMaps host code signal s w =
    if-SameMaps (exited_nonzero code && not (present s.last_event_type)) w _ _
      (emit_failure_telemetry-SameMaps host _ w _ (refl, refl, refl))
      (report_abnormal-SameMaps host code signal s w (end_reasons code s) refl)

-- An object is replaced, nothing else in the maps changes, and the session is forgotten.
forget-Ended :
    (id conv : String) (t : CcSession) (w v : Wrapper)
    → SameMaps (put_object id t w) v
    → Ended id conv w (forget id conv v)
unfolding put_object forget
forget-Ended id conv t w v h = record {
  sessions = ap (map_delete id) h.0;
  by_conv = rw h.1 refl;
  others = λ j apart.
      subst (λ o. Twin (map_get j w.objects) (map_get j o)) (sym h.2)
        (rw (map_get-set_ne id j t w.objects apart) (Twin-refl (map_get j w.objects)));
}

finish_exit-Ended :
    (host : Host) (id : String) (code : Option ℕ) (signal : Option String) (s : CcSession)
    (w : Wrapper)
    → map_get id w.objects ≡ some s
    → Ended id s.conversation_id w (finish_exit host id code signal w)
unfolding finish_exit
finish_exit-Ended host id code signal s w e =
    let over = record s { phase = exited } in
    let put = put_object id (stop_on_exit over) w in
    rw (e, finish_exit)
      (forget-Ended id s.conversation_id (stop_on_exit over) w _
        (unfold broadcast in report_exit-SameMaps host code signal over put))

recover-SameMaps : (b : Bool) (w v : Wrapper) → SameMaps w v → SameMaps w (recover b v)
unfolding recover
recover-SameMaps b w v h = if-SameMaps b w _ v h h

-- One end, whatever the session was before it.
pub record Closes (id : String) (w v : Wrapper) : Type 0 where
  pub is_owned : IsOwned v
  pub entries : (conv : String) → map_get conv v.by_conv ≡ close id (λ c. map_get c w.by_conv) conv

Closes-Ended :
    (id : String) (s : CcSession) (w v : Wrapper)
    → IsOwned w
    → map_get id w.objects ≡ some s
    → Ended id s.conversation_id w v
    → Closes id w v
Closes-Ended id s w v h e k = record {
  is_owned = Ended-IsOwned id s w v h e k;
  entries = λ conv. entry-Ended id conv s w v h e k;
}

-- without an object there is nothing to end
Closes-nothing :
    (id : String) (w : Wrapper) → IsOwned w → map_get id w.objects ≡ none → Closes id w w
Closes-nothing id w h e = record {
  is_owned = h;
  entries = λ conv. unowned conv (map_get conv w.by_conv) refl;
}
  where
    unowned :
        (conv : String) (o : Option String)
        → map_get conv w.by_conv ≡ o
        → o ≡ (if option_is o id then none else o)
    unowned conv none f = refl
    unowned conv (some j) f = elim (String-cases j id) [
      | inl same ↦
          let (reg, s, was, fits) = h.live conv id (f ∙ ap some same) in
          (let r = sym e ∙ was in absurd (none≢some r))
      | inr other ↦ rw other refl
    ]

pub on_error-Closes :
    (host : Host) (managed : Bool) (id : String) (code : Option String) (message : String)
    (w : Wrapper)
    → IsOwned w
    → Closes id w (on_error host managed id code message w)
unfolding on_error
on_error-Closes host managed id code message w h = elim (Option-cases (map_get id w.objects)) [
  | inl e ↦ rw (e, on_error) (Closes-nothing id w h e)
  | inr (s, e) ↦
      let over = record s { phase = exited } in
      rw (e, on_error)
        (Closes-Ended id s w _ h e (
          forget-Ended id s.conversation_id over w _ (
            unfold broadcast in
            recover-SameMaps _ (put_object id over w) _ (
              emit_failure_telemetry-SameMaps host _ (put_object id over w) _ (refl, refl, refl)))))
]

module _ (parse_json : Units → Option Json) where
  -- the last output keeps the maps
  drain-Kept :
      (host : Host) (id : String) (now : ℕ) (s t : CcSession) (w : Wrapper)
      → map_get id w.objects ≡ some s
      → Stays s t
      → Kept w (drain parse_json host id now t w)
  unfolding drain
  drain-Kept host id now s t w e h =
      let line = record t { stdout_buffer = t.stdout_buffer ++ newline ∷ [] } in
      let put = put_object id line w in
      if-Kept (is_blank t.stdout_buffer) w (put_object id t w) _
        (put_object-Kept id s t w e (Stays-Goes s t h))
        (Kept-trans w put (handle_stdout_chunk parse_json host id [] now put)
          (put_object-Kept id s line w e (Stays-Goes s line h))
          (handle_stdout_chunk-Kept parse_json host id [] now put))

  -- first what keeps the maps, then the end
  Closes-Kept : (id : String) (w v u : Wrapper) → Kept w v → Closes id v u → Closes id w u
  Closes-Kept id w v u h k = record {
    is_owned = k.is_owned;
    entries = λ conv.
        subst (λ b. map_get conv u.by_conv ≡ close id (λ c. map_get c b) conv) h.by_conv
          (k.entries conv);
  }

  pub on_exit-Closes :
      (host : Host) (id : String) (code : Option ℕ) (signal : Option String) (tail : Units)
      (now : ℕ) (w : Wrapper)
      → IsOwned w
      → Closes id w (on_exit parse_json host id code signal tail now w)
  unfolding on_exit
  on_exit-Closes host id code signal tail now w h = elim (Option-cases (map_get id w.objects)) [
    | inl e ↦ rw (e, on_exit) (Closes-nothing id w h e)
    | inr (s, e) ↦
        let ended = record s {
          proc = record s.proc { exit_code = code; signal_code = signal };
          stdout_buffer = s.stdout_buffer ++ tail;
        } in
        let drained = drain parse_json host id now ended w in
        let kept = drain-Kept host id now s ended w e (refl, refl) in
        let (t, at_end, goes) =
          Twin-forth (map_get id w.objects) (map_get id drained.objects) s (kept.twins id) e in
        rw (e, on_exit)
          (Closes-Kept id w drained (finish_exit host id code signal drained) kept (
            Closes-Ended id t drained (finish_exit host id code signal drained)
              (Kept-IsOwned w drained kept h) at_end
              (finish_exit-Ended host id code signal t drained at_end)))
  ]
