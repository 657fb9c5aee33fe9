-- ===== src/Agent/Environment/Sources.antt =====
-- Where the variables of the agent's process come from (`buildCcEnv` of cc-wrapper.ts).
use agent_workflow_platform.Prelude.{
  String, true, List, [], ◌∷◌, some, get_or, ◌==◌, ◌≡◌, ◌⊎◌, refl, sym, ◌∙◌, ap, arith,
  Option-cases, inl, inr, String-cases, map_get, map_set, map_get-set_self, map_get-set_ne, any,
  eq_iff,
}
use agent_workflow_platform.Agent.Json.{str, Fields, end, field}
use agent_workflow_platform.Agent.Config.{Env}
use agent_workflow_platform.Agent.Environment.{copy_keys, spread}

-- An entry of a list, and a text of an object.
abbrev pub HasEntry : String → String → List (String × String) → Type 0
HasEntry k v [] = ⊥
HasEntry k v ((j, w) ∷ rest) = ((j ≡ k) × (w ≡ v)) ⊎ HasEntry k v rest

abbrev pub HasText : String → String → Fields → Type 0
HasText k v end = ⊥
HasText k v (field j (str w) rest) = ((j ≡ k) × (w ≡ v)) ⊎ HasText k v rest
HasText k v (field j _ rest) = HasText k v rest

some_inj : {a b : String} → some a ≡ some b → a ≡ b
some_inj {a = a} e = ap (λ o. get_or o a) e

-- A value of a map that was set is the one that was set, or was there.
get-set :
    (k v key item : String) (m : List (String × String))
    → map_get k (map_set key item m) ≡ some v
    → ((key ≡ k) × (item ≡ v)) ⊎ (map_get k m ≡ some v)
get-set k v key item m e = elim (String-cases key k) [
  | inl same ↦ inl (
    same,
    some_inj
        (sym (map_get-set_self key item m) ∙ (ap (λ x. map_get x (map_set key item m)) same ∙ e)),
  )
  | inr other ↦ inr (sym (map_get-set_ne key k item m other) ∙ e)
]

pub entry-set :
    (k v key item : String) (m : List (String × String))
    → HasEntry k v (map_set key item m)
    → ((key ≡ k) × (item ≡ v)) ⊎ HasEntry k v m
unfolding map_set
entry-set k v key item [] (inl h) = inl h
entry-set k v key item [] (inr h) = absurd h
entry-set k v key item ((j, w) ∷ rest) h = elim (String-cases j key) [
  | inl same ↦
      let t : (j == key) ≡ true = (eq_iff j key).1 same in
      elim (rw t at h) [ inl hit ↦ inl (sym same ∙ hit.0, hit.1) | inr more ↦ inr (inr more) ]
  | inr other ↦ elim (rw other at h) [
    | inl hit ↦ inr (inl hit)
    | inr more ↦ elim (entry-set k v key item rest more) [
      | inl new ↦ inl new
      | inr old ↦ inr (inr old)
    ]
  ]
]

pub copied :
    (env : Env) (k v : String) (keys : List String) (built : List (String × String))
    → map_get k (copy_keys env keys built) ≡ some v
    → ((any (λ x. x == k) keys ≡ true) × (env k ≡ some v)) ⊎ (map_get k built ≡ some v)
unfolding copy_keys
copied env k v [] built e = inr e
copied env k v (key ∷ keys) built e = elim (Option-cases (env key)) [
  | inl n ↦ elim (copied env k v keys built (rw (n, copy_keys) at e)) [
    | inl found ↦ inl (ground (arith, found.0), found.1)
    | inr was ↦ inr was
  ]
  | inr (value, f) ↦ elim (copied env k v keys (map_set key value built) (rw (f, copy_keys) at e)) [
    | inl found ↦ inl (ground (arith, found.0), found.1)
    | inr was ↦ elim (get-set k v key value built was) [
      | inl new ↦ inl (rw ((eq_iff key k).1 new.0) refl, ap env (sym new.0) ∙ (f ∙ ap some new.1))
      | inr old ↦ inr old
    ]
  ]
]

pub spread-source :
    (k v : String) (b a : List (String × String))
    → map_get k (spread a b) ≡ some v
    → HasEntry k v b ⊎ (map_get k a ≡ some v)
unfolding spread
spread-source k v [] a e = inr e
spread-source k v ((key, value) ∷ rest) a e =
    elim (spread-source k v rest (map_set key value a) e) [
      | inl found ↦ inl (inr found)
      | inr was ↦ elim (get-set k v key value a was) [ inl new ↦ inl (inl new) | inr old ↦ inr old ]
    ]
