-- ===== src/Stores/Activity/Invariant.antt =====
-- The list of events when one arrives (`_processEvent` of activity.ts).
use agent_workflow_platform.Prelude.{
  String, true, false, List, [], ◌∷◌, map, ◌≡◌, refl, arith, All, eq_iff, eq_refl, ap, ◌∙◌, ◌==◌,
  Bool-cases, inl, inr,
}
use agent_workflow_platform.Stores.Activity.{
  ActivityEvent, is_ended, upsert, is_superseded, complete, with_event,
}

-- No event of the list has the id.
abbrev pub Lacks : String → List ActivityEvent → Type 0
Lacks id es = All (λ e. (e.id == id) ≡ false) es

abbrev pub IsDistinct : List ActivityEvent → Type 0
IsDistinct [] = Unit
IsDistinct (e ∷ es) = Lacks e.id es × IsDistinct es

upsert-Lacks :
    (id : String) (evt : ActivityEvent) (es : List ActivityEvent)
    → (evt.id == id) ≡ false
    → Lacks id es
    → Lacks id (upsert evt es)
unfolding upsert
upsert-Lacks id evt [] h k = (h, tt)
upsert-Lacks id evt (e ∷ es) h k = ground (arith, upsert-Lacks id evt es h k.1)

upsert-IsDistinct :
    (evt : ActivityEvent) (es : List ActivityEvent) → IsDistinct es → IsDistinct (upsert evt es)
unfolding upsert
upsert-IsDistinct evt [] h = (tt, tt)
upsert-IsDistinct evt (e ∷ es) h = elim (Bool-cases (e.id == evt.id)) [
  | inl same ↦ rw (same, upsert) (rw ((eq_iff e.id evt.id).0 same) at h.0, h.1)
  | inr other ↦
      rw (other, upsert)
        (
          upsert-Lacks e.id evt es (ground (arith, eq_iff e.id evt.id, eq_iff evt.id e.id)) h.0,
          upsert-IsDistinct evt es h.1,
        )
]

pub id-complete : (evt e : ActivityEvent) → (complete evt e).id ≡ e.id
unfolding complete
id-complete evt e = ground arith

complete_settles : (evt e : ActivityEvent) → is_superseded evt (complete evt e) ≡ false
unfolding complete
complete_settles evt e = ground arith

complete_settled : (evt e : ActivityEvent) → is_superseded evt e ≡ false → complete evt e ≡ e
unfolding complete
complete_settled evt e h = rw (h, complete)

pub complete_self : (evt : ActivityEvent) → complete evt evt ≡ evt
unfolding complete
complete_self evt = ground (arith, eq_refl evt.id)

complete-Lacks :
    (id : String) (evt : ActivityEvent) (es : List ActivityEvent)
    → Lacks id es
    → Lacks id (map (complete evt) es)
complete-Lacks id evt [] h = tt
complete-Lacks id evt (e ∷ es) h = (rw (id-complete evt e) h.0, complete-Lacks id evt es h.1)

complete-IsDistinct :
    (evt : ActivityEvent) (es : List ActivityEvent)
    → IsDistinct es
    → IsDistinct (map (complete evt) es)
complete-IsDistinct evt [] h = tt
complete-IsDistinct evt (e ∷ es) h =
    (rw (id-complete evt e) (complete-Lacks e.id evt es h.0), complete-IsDistinct evt es h.1)

-- An event that arrives is listed once, whatever it reports.
pub with_event-IsDistinct :
    (evt : ActivityEvent) (es : List ActivityEvent) → IsDistinct es → IsDistinct (with_event evt es)
unfolding with_event
with_event-IsDistinct evt es h = elim (Bool-cases (is_ended evt.status)) [
  | inl ended ↦
      rw (ended, with_event) (complete-IsDistinct evt (upsert evt es) (upsert-IsDistinct evt es h))
  | inr going ↦ rw (going, with_event) (upsert-IsDistinct evt es h)
]

pub map-complete-IsSettled :
    (evt : ActivityEvent) (es : List ActivityEvent)
    → All (λ e. is_superseded evt e ≡ false) (map (complete evt) es)
map-complete-IsSettled evt [] = tt
map-complete-IsSettled evt (e ∷ es) = (complete_settles evt e, map-complete-IsSettled evt es)

pub map-complete-eq :
    (evt : ActivityEvent) (es : List ActivityEvent)
    → All (λ e. is_superseded evt e ≡ false) es
    → map (complete evt) es ≡ es
map-complete-eq evt [] h = refl
map-complete-eq evt (e ∷ es) h = cc (complete_settled evt e h.0, map-complete-eq evt es h.1)

-- When an event reports an end, no other event of its phase is left running.
pub with_event-IsSettled :
    (evt : ActivityEvent) (es : List ActivityEvent)
    → is_ended evt.status ≡ true
    → All (λ e. is_superseded evt e ≡ false) (with_event evt es)
unfolding with_event
with_event-IsSettled evt es h = rw (h, with_event) (map-complete-IsSettled evt (upsert evt es))

upsert_idem :
    (evt : ActivityEvent) (es : List ActivityEvent) → upsert evt (upsert evt es) ≡ upsert evt es
unfolding upsert
upsert_idem evt [] = rw (eq_refl evt.id)
upsert_idem evt (e ∷ es) = ground (arith, eq_refl evt.id, upsert_idem evt es)

upsert-complete :
    (evt : ActivityEvent) (es : List ActivityEvent)
    → upsert evt (map (complete evt) es) ≡ map (complete evt) (upsert evt es)
unfolding upsert
upsert-complete evt [] = cc (complete_self evt)
upsert-complete evt (e ∷ es) = elim (Bool-cases (e.id == evt.id)) [
  | inl same ↦ rw (same, id-complete evt e, same) (cc (complete_self evt))
  | inr other ↦ rw (other, id-complete evt e, other) (cc (upsert-complete evt es))
]

with_event_idem :
    (evt : ActivityEvent) (es : List ActivityEvent)
    → with_event evt (with_event evt es) ≡ with_event evt es
unfolding with_event
with_event_idem evt es = elim (Bool-cases (is_ended evt.status)) [
  | inl ended ↦
      rw (ended, with_event)
        (ap (map (complete evt))
            (upsert-complete evt (upsert evt es) ∙ ap (map (complete evt)) (upsert_idem evt es))
          ∙ map-complete-eq evt (map (complete evt) (upsert evt es))
              (map-complete-IsSettled evt (upsert evt es)))
  | inr going ↦ rw (going, with_event) (upsert_idem evt es)
]
