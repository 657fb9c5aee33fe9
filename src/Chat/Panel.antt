-- ===== src/Chat/Panel.antt =====
-- The list of steps in the task panel (`_addTodoItem` of apps/desktop/src/stores/chat.ts).
use agent_workflow_platform.Prelude.{
  String, true, false, List, [], ◌∷◌, ◌++◌, Option, some, ◌≡◌, refl, arith, any, All, All-append,
  Bool-cases, inl, inr, last?, last?-concat, if◌then◌else◌,
}
use agent_workflow_platform.Chat.Types.{TodoItem}
use agent_workflow_platform.Chat.Background.{finish_last, same_step, add_todo_item}

-- Every step but the last is done.
abbrev pub IsOrderly : List TodoItem → Type 0
IsOrderly [] = Unit
IsOrderly (x ∷ []) = Unit
IsOrderly (x ∷ y ∷ xs) = (x.done ≡ true) × IsOrderly (y ∷ xs)

-- No step is listed twice.
abbrev pub AreDistinct : List TodoItem → Type 0
AreDistinct [] = Unit
AreDistinct (x ∷ xs) = All (λ y. same_step y.label y.tool x ≡ false) xs × AreDistinct xs

finish_last-All : (xs : List TodoItem) → IsOrderly xs → All (λ x. x.done ≡ true) (finish_last xs)
unfolding finish_last
finish_last-All [] h = tt
finish_last-All (x ∷ []) h = (refl, tt)
finish_last-All (x ∷ y ∷ xs) h = (h.0, finish_last-All (y ∷ xs) h.1)

IsOrderly-concat :
    (xs : List TodoItem) (y : TodoItem) → All (λ x. x.done ≡ true) xs → IsOrderly (xs ++ y ∷ [])
IsOrderly-concat [] y h = tt
IsOrderly-concat (x ∷ []) y h = (h.0, tt)
IsOrderly-concat (x ∷ z ∷ xs) y h = (h.0, IsOrderly-concat (z ∷ xs) y h.1)

IsOrderly-of_All : (xs : List TodoItem) → All (λ x. x.done ≡ true) xs → IsOrderly xs
IsOrderly-of_All [] h = tt
IsOrderly-of_All (x ∷ []) h = tt
IsOrderly-of_All (x ∷ y ∷ xs) h = (h.0, IsOrderly-of_All (y ∷ xs) h.1)

-- Marking the last step keeps what depends on labels and tools alone.
finish_last-same :
    (P : String → Option String → Type 0) (xs : List TodoItem)
    → All (λ x. P x.label x.tool) xs
    → All (λ x. P x.label x.tool) (finish_last xs)
unfolding finish_last
finish_last-same P [] h = tt
finish_last-same P (x ∷ []) h = h
finish_last-same P (x ∷ y ∷ xs) h = (h.0, finish_last-same P (y ∷ xs) h.1)

finish_last-AreDistinct : (xs : List TodoItem) → AreDistinct xs → AreDistinct (finish_last xs)
unfolding finish_last
finish_last-AreDistinct [] h = tt
finish_last-AreDistinct (x ∷ []) h = h
finish_last-AreDistinct (x ∷ y ∷ xs) h = (
  finish_last-same (λ l t. same_step l t x ≡ false) (y ∷ xs) h.0,
  finish_last-AreDistinct (y ∷ xs) h.1,
)

All-of_any :
    (label : String) (tool : Option String) (xs : List TodoItem)
    → any (same_step label tool) xs ≡ false
    → All (λ x. same_step label tool x ≡ false) xs
All-of_any label tool [] h = tt
All-of_any label tool (x ∷ xs) h = (ground arith, All-of_any label tool xs (ground arith))

AreDistinct-concat :
    (xs : List TodoItem) (y : TodoItem)
    → AreDistinct xs
    → All (λ x. same_step y.label y.tool x ≡ false) xs
    → AreDistinct (xs ++ y ∷ [])
AreDistinct-concat [] y h k = (tt, tt)
AreDistinct-concat (x ∷ xs) y h k = (
  All-append (λ z. same_step z.label z.tool x ≡ false) xs (y ∷ []) h.0 (k.0, tt),
  AreDistinct-concat xs y h.1 k.1,
)

-- A tool step that is added leaves all steps before the last done and no step listed twice; if it
-- is new, it is the one that is not done, and otherwise all are done.
pub add_todo_item-IsOrderly :
    (label : String) (tool : Option String) (xs : List TodoItem)
    → IsOrderly xs
    → AreDistinct xs
    → IsOrderly (add_todo_item label tool xs)
      × AreDistinct (add_todo_item label tool xs)
      × (if any (same_step label tool) xs
          then All (λ x. x.done ≡ true) (add_todo_item label tool xs)
          else (last? (add_todo_item label tool xs)
              ≡ some (record { label = label; done = false; tool = tool })))
unfolding add_todo_item
add_todo_item-IsOrderly label tool xs h k = elim (Bool-cases (any (same_step label tool) xs)) [
  | inl old ↦
      rw (old, add_todo_item)
        (
          IsOrderly-of_All (finish_last xs) (finish_last-All xs h),
          finish_last-AreDistinct xs k,
          finish_last-All xs h,
        )
  | inr new ↦
      rw (new, add_todo_item)
        (
          IsOrderly-concat (finish_last xs) _ (finish_last-All xs h),
          AreDistinct-concat (finish_last xs) _ (finish_last-AreDistinct xs k) (
              finish_last-same
                (λ l t. same_step label tool (record { label = l; done = false; tool = t }) ≡ false)
                xs (All-of_any label tool xs new)),
          last?-concat (finish_last xs) _,
        )
]
