-- ===== src/Tests/Rows.antt =====
-- The tasks of an issue, and its comments.
use wuflow.Base.{ℕ, true, false, String, none, some, Option, List, [], ◌∷◌, ◌≡◌, refl}
use wuflow.Model.{Task}
use wuflow.Text.{trim, text_eq}
use wuflow.StatusConfig.{text}
use wuflow.Permissions.{user_can}
use wuflow.Tasks
use wuflow.Tasks.Order.{save_task_order}
use wuflow.Tasks.Undo.{save_task_order-undo}
use wuflow.Tasks.Laws.{is_title_due, TitleSettled, do_save_task-TitleSettled}
use wuflow.Activity
use wuflow.Activity.Lost.{handle_all-comments_lost}
use wuflow.Tests.Data.{somebody}

abbrev task : ℕ → ℕ → Task
task id position = record {
  id = id;
  title = text "old";
  done = false;
  position = position;
  deadline = none;
}

abbrev overloaded : Tasks.Call → Option String
overloaded q = some "overloaded"

-- The last task is dragged to the front.
save_task_order-undo_example :
    (save_task_order overloaded
      (some somebody)
      (3 ∷ 1 ∷ 2 ∷ [])
      (task 1 0 ∷ task 2 1 ∷ task 3 2 ∷ [])).tasks
    ≡ task 1 0 ∷ task 2 1 ∷ task 3 2 ∷ []
save_task_order-undo_example =
    save_task_order-undo overloaded (some somebody) (3 ∷ 1 ∷ 2 ∷ [])
      (task 1 0 ∷ task 2 1 ∷ task 3 2 ∷ []) "overloaded" (refl, (refl, (refl, tt))) (λ q. refl)

abbrev row : Tasks.Row
row = record {
  task = task 1 0;
  checked = false;
  title_input = text " new";
  editing = true;
  original_title = text "old";
  deadline_input = none;
}

do_save_task-TitleSettled_example :
    TitleSettled overloaded row
      (Tasks.do_save_task overloaded (λ r. r) (some somebody) row)
      (is_title_due (some somebody) row)
do_save_task-TitleSettled_example = do_save_task-TitleSettled overloaded (some somebody) row refl

-- The new title is sent.
title_sent :
    (Tasks.do_save_task overloaded (λ r. r) (some somebody) row).handled.calls
    ≡ Tasks.put_task (record (row.task) { title = text "new" }) ∷ []
unfolding Tasks.do_save_task trim text_eq user_can
title_sent = refl

abbrev nothing_open : Activity.Context
nothing_open = record {
  issue = none;
  comments = [];
  history = [];
  seq = 0;
  asked = λ _. 0;
  editor = Activity.no_editor;
  new_text = [];
  blocked = false;
  toasts = [];
}

abbrev entry : ℕ → Activity.Entry
entry issue = record { issue_id = issue; event = text "created" }

abbrev comment : ℕ → ℕ → Activity.Comment
comment issue id = record { id = id; issue_id = issue; body = text "Hello" }

-- Issue 1 is opened, then issue 2, whose comments come before those of issue 1.
abbrev two_opened : List Activity.Event
two_opened =
    Activity.loads 1
    ∷ Activity.loads 2
    ∷ Activity.loaded 2 (Activity.gives (entry 2 ∷ [], comment 2 8 ∷ []))
    ∷ Activity.loaded 1 (Activity.gives (entry 1 ∷ [], comment 1 5 ∷ []))
    ∷ []

abbrev loads_comment : Activity.Answer (List Activity.Entry × List Activity.Comment)
loads_comment = Activity.gives (entry 4 ∷ [], comment 4 9 ∷ [])

handle_all-comments_lost_example :
    (Activity.handle_all
      (Activity.loads 4
        ∷ Activity.refreshes_history
        ∷ Activity.loaded 1 loads_comment
        ∷ Activity.history_answer 2 (Activity.gives (entry 4 ∷ []))
        ∷ [])
      nothing_open).comments
    ≡ []
handle_all-comments_lost_example =
    handle_all-comments_lost 4 nothing_open loads_comment (Activity.gives (entry 4 ∷ []))
