-- ===== src/Tasks/Laws.antt =====
-- The title of a task, saved from its row.
use wuflow.Base.{
  String, Bool, true, false, not, ◌&&◌, Option, none, some, [], ◌∷◌, ◌≡◌, refl, ap, Bool-cases, inl,
  inr,
}
use wuflow.Model.{Text, User}
use wuflow.Text.{trim, is_empty, text_eq}
use wuflow.Permissions.{user_can, update_task}
use wuflow.Tasks.{Call, put_task, Row, error, TitleSaved, title_ends, with_title, do_save_task}

-- A title is due to be saved: it is not blank, it is new, and the user may change tasks.
abbrev pub is_title_due : Option User → Row → Bool
is_title_due user r =
    let t = trim r.title_input in
    not (is_empty t) && (not (text_eq t r.task.title) && user_can user update_task)

abbrev pub Answered : Row → TitleSaved → Option String → Type 0
Answered r d none =
    (d.saved ≡ true)
    × ((d.handled.row.editing ≡ false)
        × (d.handled.row.task ≡ record (r.task) { title = trim r.title_input }))
Answered r d (some m) =
    (d.saved ≡ false) × ((d.handled.row ≡ r) × (d.handled.notices ≡ error m ∷ []))

-- By whether the title is due
abbrev pub TitleSettled : (Call → Option String) → Row → TitleSaved → Bool → Type 0
TitleSettled answer r d true =
    let q = put_task (record (r.task) { title = trim r.title_input }) in
    (d.handled.calls ≡ q ∷ []) × Answered r d (answer q)
TitleSettled answer r d false =
    (d.handled.calls ≡ [])
    × ((d.saved ≡ true)
        × ((d.handled.row.editing ≡ false)
            × ((d.handled.row.task ≡ r.task) × (d.handled.notices ≡ []))))

title_ends-Answered :
    (o : Option String) (q : Call) (r : Row)
    → r.original_title ≡ r.task.title
    → Answered r (title_ends o q (with_title (trim r.title_input) r)) o
title_ends-Answered none q r e = (refl, (refl, refl))
title_ends-Answered (some m) q r e =
    (refl, (ap (λ (t : Text). record r { task = record (r.task) { title = t } }) e, refl))

title_ends_calls :
    (o : Option String) (q : Call) (r : Row) → (title_ends o q r).handled.calls ≡ q ∷ []
title_ends_calls none q r = refl
title_ends_calls (some m) q r = refl

-- The title of a task is saved from its row, which is being edited and remembers the title from before,
-- while no other handler runs. Text that is not blank once trimmed and is not the title, typed by a user
-- who may change tasks, is sent as the title in one request for the task. Where the server takes it,
-- the save resolves to true, the field is left, and the task has that title; where it refuses, the
-- save resolves to false, a toast shows the failure, the task is as it was, and the field still holds
-- what was typed. In every other case nothing is sent or shown, the field is left, the task is as it
-- was, and the save resolves to true.
pub do_save_task-TitleSettled :
    (answer : Call → Option String) (user : Option User) (r : Row)
    → r.original_title ≡ r.task.title
    → TitleSettled answer r (do_save_task answer (λ (x : Row). x) user r) (is_title_due user r)
unfolding do_save_task
do_save_task-TitleSettled answer user r e = elim (Bool-cases (is_empty (trim r.title_input))) [
  | inl t ↦ rw t (refl, (refl, (refl, (refl, refl))))
  | inr t ↦ elim (Bool-cases (text_eq (trim r.title_input) r.task.title)) [
    | inl u ↦ rw (t, u) (refl, (refl, (refl, (refl, refl))))
    | inr u ↦ elim (Bool-cases (user_can user update_task)) [
      | inl v ↦
          let q = put_task (record (r.task) { title = trim r.title_input }) in
          rw (t, u, v)
            (
              title_ends_calls (answer q) q (with_title (trim r.title_input) r),
              title_ends-Answered (answer q) q r e,
            )
      | inr v ↦ rw (t, u, v) (refl, (refl, (refl, (refl, refl))))
    ]
  ]
]
