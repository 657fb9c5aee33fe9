-- ===== src/Agent/Owner/Ended.antt =====
-- A session that ends, and the owners of the conversations (cc-wrapper.ts).
use mathlib.Core.Path.{subst}
use agent_workflow_platform.Prelude.{
  String, true, false, get_or, ◌==◌, Option, none, some, ◌≡◌, refl, sym, ◌∙◌, ap, if◌then◌else◌,
  Bool-cases, inl, inr, String-cases, eq-false_sym, map_get, map_delete, map_get-delete_self,
  map_get-delete_ne, option_is, eq_refl, eq_iff, List,
}
use agent_workflow_platform.Agent.Session.{CcSession, Wrapper, registered}
use agent_workflow_platform.Agent.Registry.{is_exited}
use agent_workflow_platform.Agent.Owner.Kept.{Goes, Twin, Kept}

-- The map and the conversations' entries fit: a session of the map is not over and is the one of its
-- conversation, and the entry of a conversation is a session of the map that is for it.
pub record IsOwned (w : Wrapper) : Type 0 where
  pub owned :
      (id : String) (s : CcSession)
      → map_get id w.sessions ≡ some registered
      → map_get id w.objects ≡ some s
      → (map_get s.conversation_id w.by_conv ≡ some id) × (is_exited s.phase ≡ false)
  pub live :
      (conv id : String)
      → map_get conv w.by_conv ≡ some id
      → (map_get id w.sessions ≡ some registered)
        × (s : CcSession) × (map_get id w.objects ≡ some s)
        × (s.conversation_id ≡ conv)

-- the object of one state from that of the other
pub Twin-back :
    (o : Option CcSession) (t : CcSession) (p : Option CcSession)
    → Twin o p
    → p ≡ some t
    → (s : CcSession) × (o ≡ some s) × Goes s t
Twin-back (some s) t (some u) h e = (s, refl, subst_goes s u t h (some_inj u t e))
  where
    some_inj : (u t : CcSession) → some u ≡ some t → u ≡ t
    some_inj u t e = ap (λ o. get_or o u) e

    subst_goes : (s u t : CcSession) → Goes s u → u ≡ t → Goes s t
    subst_goes s u t h e = subst (λ x. Goes s x) e h
Twin-back none t none h e = cc
Twin-back none t (some u) h e = absurd h
Twin-back (some s) t none h e = absurd h

pub Twin-forth :
    (o p : Option CcSession) (s : CcSession)
    → Twin o p
    → o ≡ some s
    → (t : CcSession) × (p ≡ some t) × Goes s t
Twin-forth (some u) (some t) s h e = (t, refl, subst (λ x. Goes x t) (ap (λ o. get_or o u) e) h)
Twin-forth none p s h e = cc
Twin-forth (some u) none s h e = absurd h

pub Kept-IsOwned : (w v : Wrapper) → Kept w v → IsOwned w → IsOwned v
Kept-IsOwned w v k h = record {
  owned = λ id t reg obj.
      let (s, was, goes) =
        Twin-back (map_get id w.objects) t (map_get id v.objects) (k.twins id) obj in
      let r = h.owned id s (ap (map_get id) (sym k.sessions) ∙ reg) was in
      (
        ap (λ c. map_get c v.by_conv) goes.0 ∙ (ap (map_get s.conversation_id) k.by_conv ∙ r.0),
        goes.1 r.1,
      );
  live = λ conv id e.
      let (reg, s, was, fits) = h.live conv id (ap (map_get conv) (sym k.by_conv) ∙ e) in
      let (t, now, goes) =
        Twin-forth (map_get id w.objects) (map_get id v.objects) s (k.twins id) was in
      (ap (map_get id) k.sessions ∙ reg, t, now, goes.0 ∙ fits);
}

-- the entries of the conversations behind `forget`
abbrev pub entries_without : String → String → List (String × String) → List (String × String)
entries_without id conv entries =
    if option_is (map_get conv entries) id then map_delete conv entries else entries

-- the session is no conversation's any more
abbrev pub close : String → (String → Option String) → String → Option String
close id f conv = if option_is (f conv) id then none else f conv

-- One conversation, by what its entry was.
entry-without :
    (id : String) (s : CcSession) (w : Wrapper) (conv : String)
    → IsOwned w
    → map_get id w.objects ≡ some s
    → (o : Option String) → map_get conv w.by_conv ≡ o
    → map_get conv (entries_without id s.conversation_id w.by_conv)
      ≡ (if option_is o id then none else o)
entry-without id s w conv h obj none e =
    elim (Bool-cases (option_is (map_get s.conversation_id w.by_conv) id)) [
      | inl t ↦ rw t (elim (String-cases s.conversation_id conv) [
        | inl same ↦ rw same (map_get-delete_self conv w.by_conv)
        | inr other ↦ map_get-delete_ne s.conversation_id conv w.by_conv other ∙ e
      ])
      | inr f ↦ rw f e
    ]
entry-without id s w conv h obj (some j) e = elim (String-cases j id) [
  | inl same ↦
      let at_id : map_get conv w.by_conv ≡ some id = e ∙ ap some same in
      let (reg, u, was, fits) = h.live conv id at_id in
      let one : s ≡ u = ap (λ o. get_or o s) (sym obj ∙ was) in
      let here : s.conversation_id ≡ conv = ap (λ x. x.conversation_id) one ∙ fits in
      rw (here, at_id, eq_refl id, (eq_iff j id).1 same) (map_get-delete_self conv w.by_conv)
  | inr other ↦ rw other (elim (Bool-cases (option_is (map_get s.conversation_id w.by_conv) id)) [
    | inl t ↦ rw t (elim (String-cases s.conversation_id conv) [
      | inl same ↦
          let r : option_is (map_get conv w.by_conv) id ≡ true = rw same at t in
          let q : (j == id) ≡ true = rw e at r in cc
      | inr apart ↦ map_get-delete_ne s.conversation_id conv w.by_conv apart ∙ e
    ])
    | inr f ↦ rw f e
  ])
]

-- What the end of a session changes: its entries are gone, and the other objects are the same.
pub record Ended (id conv : String) (w v : Wrapper) : Type 0 where
  pub sessions : v.sessions ≡ map_delete id w.sessions
  pub by_conv : v.by_conv ≡ entries_without id conv w.by_conv
  pub others : (j : String) → (id == j) ≡ false → Twin (map_get j w.objects) (map_get j v.objects)

pub entry-Ended :
    (id conv : String) (s : CcSession) (w v : Wrapper)
    → IsOwned w
    → map_get id w.objects ≡ some s
    → Ended id s.conversation_id w v
    → map_get conv v.by_conv ≡ close id (λ c. map_get c w.by_conv) conv
entry-Ended id conv s w v h obj k =
    ap (map_get conv) k.by_conv ∙ entry-without id s w conv h obj (map_get conv w.by_conv) refl

close-some :
    (id j : String) (o : Option String)
    → (if option_is o id then none else o) ≡ some j
    → (o ≡ some j) × ((id == j) ≡ false)
close-some id j none e = cc
close-some id j (some i) e = elim (Bool-cases (i == id)) [
  | inl t ↦ (let r = rw t at e in cc)
  | inr f ↦
      let r : some i ≡ some j = rw f at e in
      (r, eq-false_sym j id (rw (ap (λ o. get_or o i) r) at f))
]

deleted-some :
    (id j : String) (w : Wrapper)
    → map_get j (map_delete id w.sessions) ≡ some registered
    → ((id == j) ≡ false) × (map_get j w.sessions ≡ some registered)
deleted-some id j w e = elim (String-cases id j) [
  | inl same ↦ (let r = rw same at e in let q = map_get-delete_self j w.sessions in cc)
  | inr other ↦ (other, sym (map_get-delete_ne id j w.sessions other) ∙ e)
]

Ended-owned :
    (id : String) (s : CcSession) (w v : Wrapper)
    → IsOwned w
    → map_get id w.objects ≡ some s
    → Ended id s.conversation_id w v
    → (j : String) (t : CcSession) → map_get j v.sessions ≡ some registered
    → map_get j v.objects ≡ some t
    → (map_get t.conversation_id v.by_conv ≡ some j) × (is_exited t.phase ≡ false)
Ended-owned id s w v h obj k j t reg now =
    let (apart, was_reg) = deleted-some id j w (ap (map_get j) (sym k.sessions) ∙ reg) in
    let (u, was, goes) =
      Twin-back (map_get j w.objects) t (map_get j v.objects) (k.others j apart) now in
    let r = h.owned j u was_reg was in
    let entry : map_get t.conversation_id w.by_conv ≡ some j =
      ap (λ c. map_get c w.by_conv) goes.0 ∙ r.0 in
    (
      entry-Ended id t.conversation_id s w v h obj k ∙ rw (entry, eq-false_sym id j apart) refl,
      goes.1 r.1,
    )

Ended-live :
    (id : String) (s : CcSession) (w v : Wrapper)
    → IsOwned w
    → map_get id w.objects ≡ some s
    → Ended id s.conversation_id w v
    → (conv j : String) → map_get conv v.by_conv ≡ some j
    → (map_get j v.sessions ≡ some registered)
      × (t : CcSession) × (map_get j v.objects ≡ some t)
      × (t.conversation_id ≡ conv)
Ended-live id s w v h obj k conv j e =
    let (entry, apart) =
      close-some id j (map_get conv w.by_conv) (sym (entry-Ended id conv s w v h obj k) ∙ e) in
    let (reg, u, was, fits) = h.live conv j entry in
    let (t, now, goes) =
      Twin-forth (map_get j w.objects) (map_get j v.objects) u (k.others j apart) was in
    (
      ap (map_get j) k.sessions ∙ (map_get-delete_ne id j w.sessions apart ∙ reg),
      t,
      now,
      goes.0 ∙ fits,
    )

pub Ended-IsOwned :
    (id : String) (s : CcSession) (w v : Wrapper)
    → IsOwned w
    → map_get id w.objects ≡ some s
    → Ended id s.conversation_id w v
    → IsOwned v
Ended-IsOwned id s w v h obj k = record {
  owned = Ended-owned id s w v h obj k;
  live = Ended-live id s w v h obj k;
}
