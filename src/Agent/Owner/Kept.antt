-- ===== src/Agent/Owner/Kept.antt =====
-- What leaves the maps of the sessions as they are (cc-wrapper.ts).
use agent_workflow_platform.Prelude.{
  String, Bool, true, false, Option, none, some, ◌≡◌, refl, sym, ◌∙◌, if◌then◌else◌, inl, inr,
  String-cases, map_get, map_set, map_get-set_self, map_get-set_ne,
}
use agent_workflow_platform.Agent.Session.{CcSession, Wrapper, Broadcast, ProcessCall}
use agent_workflow_platform.Agent.Registry.{is_exited, put_object, broadcast, ask}

-- An object that is not over keeps its conversation and is not over.
abbrev pub Goes : CcSession → CcSession → Type 0
Goes s t =
    (t.conversation_id ≡ s.conversation_id)
    × (is_exited s.phase ≡ false → is_exited t.phase ≡ false)

abbrev pub Twin : Option CcSession → Option CcSession → Type 0
Twin none none = Unit
Twin (some s) (some t) = Goes s t
Twin _ _ = ⊥

pub Twin-refl : (o : Option CcSession) → Twin o o
Twin-refl none = tt
Twin-refl (some s) = (refl, λ h. h)

Twin-trans : (o p q : Option CcSession) → Twin o p → Twin p q → Twin o q
Twin-trans none none none h k = tt
Twin-trans (some s) (some t) (some u) h k = (k.0 ∙ h.0, λ e. k.1 (h.1 e))
Twin-trans none (some t) q h k = absurd h
Twin-trans (some s) none q h k = absurd h
Twin-trans none none (some u) h k = absurd k
Twin-trans (some s) (some t) none h k = absurd k

-- The maps are the same, and so is each object but for what may change.
pub record Kept (w v : Wrapper) : Type 0 where
  pub sessions : v.sessions ≡ w.sessions
  pub by_conv : v.by_conv ≡ w.by_conv
  pub twins : (id : String) → Twin (map_get id w.objects) (map_get id v.objects)

pub Kept-refl : (w : Wrapper) → Kept w w
Kept-refl w = record {
  sessions = refl;
  by_conv = refl;
  twins = λ id. Twin-refl (map_get id w.objects);
}

pub Kept-trans : (w v u : Wrapper) → Kept w v → Kept v u → Kept w u
Kept-trans w v u h k = record {
  sessions = k.sessions ∙ h.sessions;
  by_conv = k.by_conv ∙ h.by_conv;
  twins = λ id.
      Twin-trans (map_get id w.objects) (map_get id v.objects) (map_get id u.objects) (h.twins id)
        (k.twins id);
}

Twin-put :
    (id j : String) (s t : CcSession) (w : Wrapper)
    → map_get id w.objects ≡ some s
    → Goes s t
    → Twin (map_get j w.objects) (map_get j (map_set id t w.objects))
Twin-put id j s t w e h = elim (String-cases id j) [
  | inl same ↦ rw (sym same, e, map_get-set_self id t w.objects) h
  | inr other ↦ rw (map_get-set_ne id j t w.objects other) (Twin-refl (map_get j w.objects))
]

pub put_object-Kept :
    (id : String) (s t : CcSession) (w : Wrapper)
    → map_get id w.objects ≡ some s
    → Goes s t
    → Kept w (put_object id t w)
unfolding put_object
put_object-Kept id s t w e h = record {
  sessions = refl;
  by_conv = refl;
  twins = λ j. Twin-put id j s t w e h;
}

-- Two states with the same maps and objects.
same-Kept :
    (w v : Wrapper)
    → v.sessions ≡ w.sessions
    → v.by_conv ≡ w.by_conv
    → v.objects ≡ w.objects
    → Kept w v
same-Kept w v a b c = record {
  sessions = a;
  by_conv = b;
  twins = λ id. rw c (Twin-refl (map_get id w.objects));
}

pub ask-Kept : (c : ProcessCall) (w : Wrapper) → Kept w (ask c w)
unfolding ask
ask-Kept c w = same-Kept w (ask c w) refl refl refl

pub broadcast-Kept : (b : Broadcast) (w : Wrapper) → Kept w (broadcast b w)
unfolding broadcast
broadcast-Kept b w = same-Kept w (broadcast b w) refl refl refl

-- a change of an object, then a request
pub ask_put-Kept :
    (c : ProcessCall) (id : String) (s t : CcSession) (w : Wrapper)
    → map_get id w.objects ≡ some s
    → Goes s t
    → Kept w (ask c (put_object id t w))
ask_put-Kept c id s t w e h =
    Kept-trans w (put_object id t w) (ask c (put_object id t w)) (put_object-Kept id s t w e h)
      (ask-Kept c (put_object id t w))

pub if-Kept : (b : Bool) (w x y : Wrapper) → Kept w x → Kept w y → Kept w (if b then x else y)
if-Kept true w x y h k = h
if-Kept false w x y h k = k
