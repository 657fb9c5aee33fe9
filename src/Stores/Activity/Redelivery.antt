-- ===== src/Stores/Activity/Redelivery.antt =====
-- An event that is delivered again (activity.ts).
use agent_workflow_platform.Prelude.{
  true, false, List, [], ◌∷◌, map, ◌≡◌, ◌⊎◌, inl, inr, refl, sym, arith, All, eq_refl, ap, ◌∙◌,
  ◌==◌, Bool-cases, eq-false_sym,
}
use agent_workflow_platform.Stores.Activity.{
  Activity, ActivityEvent, is_ended, same_phase, upsert, is_superseded, complete, with_event,
  process_event, process_events,
}
use agent_workflow_platform.Stores.Activity.Invariant.{
  map-complete-eq, id-complete, complete_self, with_event-IsSettled,
}

-- The first event of the list with the id is the event itself.
abbrev pub Has : ActivityEvent → List ActivityEvent → Type 0
Has evt [] = ⊥
Has evt (e ∷ es) = (e ≡ evt) ⊎ (((e.id == evt.id) ≡ false) × Has evt es)

-- An event of another id and of another phase.
pub record IsApart (evt o : ActivityEvent) : Type 0 where
  pub other_id : (o.id == evt.id) ≡ false
  pub other_phase : same_phase o.phase evt.phase ≡ false

-- The event is in the list, and with it ended no other event of its phase runs.
record Settled (evt : ActivityEvent) (es : List ActivityEvent) : Type 0 where
  there : Has evt es
  ended : is_ended evt.status ≡ true → All (λ e. is_superseded evt e ≡ false) es

upsert-Has : (evt : ActivityEvent) (es : List ActivityEvent) → Has evt (upsert evt es)
unfolding upsert
upsert-Has evt [] = inl refl
upsert-Has evt (e ∷ es) = elim (Bool-cases (e.id == evt.id)) [
  | inl same ↦ rw (same, upsert) (inl refl)
  | inr other ↦ rw (other, upsert) (inr (other, upsert-Has evt es))
]

upsert_known : (evt : ActivityEvent) (es : List ActivityEvent) → Has evt es → upsert evt es ≡ es
unfolding upsert
upsert_known evt [] h = absurd h
upsert_known evt (e ∷ es) (inl h) =
    rw (ap (λ x. x.id == evt.id) h ∙ eq_refl evt.id, upsert) (ap (λ x. x ∷ es) (sym h))
upsert_known evt (e ∷ es) (inr (other, h)) = rw (other, upsert) (ap (◌∷◌ e) (upsert_known evt es h))

upsert_other-Has :
    (evt o : ActivityEvent) (es : List ActivityEvent)
    → IsApart evt o
    → Has evt es
    → Has evt (upsert o es)
unfolding upsert
upsert_other-Has evt o [] a h = absurd h
upsert_other-Has evt o (e ∷ es) a (inl h) =
    rw (ap (λ x. x.id == o.id) h ∙ eq-false_sym o.id evt.id a.other_id, upsert) (inl h)
upsert_other-Has evt o (e ∷ es) a (inr (other, h)) = elim (Bool-cases (e.id == o.id)) [
  | inl same ↦ rw (same, upsert) (inr (a.other_id, h))
  | inr n ↦ rw (n, upsert) (inr (other, upsert_other-Has evt o es a h))
]

complete-Has :
    (evt o : ActivityEvent) (es : List ActivityEvent)
    → complete o evt ≡ evt
    → Has evt es
    → Has evt (map (complete o) es)
complete-Has evt o [] same h = absurd h
complete-Has evt o (e ∷ es) same (inl h) = inl (ap (complete o) h ∙ same)
complete-Has evt o (e ∷ es) same (inr (other, h)) =
    inr (ap (λ i. i == evt.id) (id-complete o e) ∙ other, complete-Has evt o es same h)

complete_apart : (evt o : ActivityEvent) → IsApart evt o → complete o evt ≡ evt
unfolding complete
complete_apart evt o a = let apart = a.other_phase in ground arith

superseded_apart : (evt o : ActivityEvent) → IsApart evt o → is_superseded evt o ≡ false
unfolding is_superseded
superseded_apart evt o a = ground (arith, a.other_phase)

superseded-complete :
    (evt o e : ActivityEvent)
    → is_superseded evt e ≡ false
    → is_superseded evt (complete o e) ≡ false
unfolding is_superseded complete
superseded-complete evt o e h = ground (arith, h)

-- No event of the list is superseded.
abbrev Calm : ActivityEvent → List ActivityEvent → Type 0
Calm evt = All (λ e. is_superseded evt e ≡ false)

upsert-Calm :
    (evt o : ActivityEvent) (es : List ActivityEvent)
    → is_superseded evt o ≡ false
    → Calm evt es
    → Calm evt (upsert o es)
unfolding upsert
upsert-Calm evt o [] h k = (h, tt)
upsert-Calm evt o (e ∷ es) h k = elim (Bool-cases (e.id == o.id)) [
  | inl same ↦ rw (same, upsert) (h, k.1)
  | inr n ↦ rw (n, upsert) (k.0, upsert-Calm evt o es h k.1)
]

complete-Calm :
    (evt o : ActivityEvent) (es : List ActivityEvent) → Calm evt es → Calm evt (map (complete o) es)
complete-Calm evt o [] k = tt
complete-Calm evt o (e ∷ es) k = (superseded-complete evt o e k.0, complete-Calm evt o es k.1)

with_event-Settled :
    (evt : ActivityEvent) (es : List ActivityEvent) → Settled evt (with_event evt es)
unfolding with_event
with_event-Settled evt es = record {
  there = elim (Bool-cases (is_ended evt.status)) [
    | inl e ↦
        rw (e, with_event)
          (complete-Has evt evt (upsert evt es) (complete_self evt) (upsert-Has evt es))
    | inr n ↦ rw (n, with_event) (upsert-Has evt es)
  ];
  ended = λ e. with_event-IsSettled evt es e;
}

with_event_apart :
    (evt o : ActivityEvent) (es : List ActivityEvent)
    → IsApart evt o
    → Settled evt es
    → Settled evt (with_event o es)
unfolding with_event
with_event_apart evt o es a v =
    let there = upsert_other-Has evt o es a v.there in
    elim (Bool-cases (is_ended o.status)) [
      | inl e ↦
          rw (e, with_event)
            (record {
              there = complete-Has evt o (upsert o es) (complete_apart evt o a) there;
              ended = λ k.
                  complete-Calm evt o (upsert o es)
                    (upsert-Calm evt o es (superseded_apart evt o a) (v.ended k));
            })
      | inr n ↦
          rw (n, with_event)
            (record {
              there = there;
              ended = λ k. upsert-Calm evt o es (superseded_apart evt o a) (v.ended k);
            })
    ]

with_event_again :
    (evt : ActivityEvent) (es : List ActivityEvent) → Settled evt es → with_event evt es ≡ es
unfolding with_event
with_event_again evt es v = elim (Bool-cases (is_ended evt.status)) [
  | inl e ↦
      rw (e, with_event)
        (ap (map (complete evt)) (upsert_known evt es v.there) ∙ map-complete-eq evt es (v.ended e))
  | inr n ↦ rw (n, with_event) (upsert_known evt es v.there)
]

process_events-Settled :
    (evt : ActivityEvent) (others : List ActivityEvent) (s : Activity)
    → All (IsApart evt) others
    → Settled evt s.events
    → Settled evt (process_events others s).events
unfolding process_events
process_events-Settled evt [] s h v = v
process_events-Settled evt (o ∷ others) s h v =
    process_events-Settled evt others (process_event o s) h.1
      (with_event_apart evt o s.events h.0 v)

-- An event that is delivered again, at once or behind events that all have other ids and other phases,
-- leaves the list of events as it is; the listeners are told of it once more.
pub process_event_again :
    (evt : ActivityEvent) (others : List ActivityEvent) (s : Activity)
    → All (IsApart evt) others
    → ((process_event evt (process_events others (process_event evt s))).events
        ≡ (process_events others (process_event evt s)).events)
      × ((process_event evt (process_events others (process_event evt s))).told
          ≡ evt ∷ (process_events others (process_event evt s)).told)
unfolding process_event
process_event_again evt others s h =
    let first = process_event evt s in
    (
      with_event_again evt (process_events others first).events
          (process_events-Settled evt others first h (with_event-Settled evt s.events)),
      refl,
    )
