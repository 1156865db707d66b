-- ===== src/Tasks.antt =====
-- static/js/components/tasks.js and the task handlers of static/js/components/modal.js: what the controls
-- of a task do. `answer` is the server's answer to a request, none if it takes it, and a handler's
-- row is the task with what its controls show.
pub mod Order
pub mod Undo
pub mod Laws
use wuflow.Base.{
  ℕ, suc, ◌+◌, String, Bool, true, false, not, ◌&&◌, ◌||◌, Option, none, some, List, [], ◌∷◌, ◌++◌,
  map, ◌==◌, ltb, leb, if◌then◌else◌, length, filter_by, find, sort_by,
}
use wuflow.Model.{Text, Issue, Task, User}
use wuflow.Text.{trim, is_empty, text_eq}
use wuflow.Deadlines.{Lateness, get_task_deadline_status}
use wuflow.Permissions.{user_can, create_task, update_task, delete_task}

pub data Call : Type 0 where
  put_task : Task → Call
  post_task : Task → Call
  remove_task : ℕ → Call
  put_task_positions : List (ℕ × ℕ) → Call

-- The row of a task: its checkbox, its title field, and its date field
pub record Row : Type 0 where
  pub task : Task
  pub checked : Bool
  pub title_input : Text
  pub editing : Bool
  pub original_title : Text
  pub deadline_input : Option ℕ

pub data Notice : Type 0 where
  marked_done marked_not_done task_updated task_deleted : Notice
  deadline_updated task_created : Lateness → Notice
  error : String → Notice
  too_long : Notice

pub record Handled : Type 0 where
  pub row : Row
  pub calls : List Call
  pub notices : List Notice

abbrev quietly : Row → Handled
quietly r = record { row = r; calls = []; notices = [] }

abbrev pub with_done : Bool → Row → Row
with_done d r = record r { task = record (r.task) { done = d } }

-- The failure goes by the checkbox as it is then.
abbrev checked_ends : Bool → Option String → Call → Row → Handled
checked_ends d none q r = record {
  row = r;
  calls = q ∷ [];
  notices = (if r.task.done then marked_done else marked_not_done) ∷ [];
}
checked_ends d (some m) q r = record {
  row = record (with_done (not r.checked) r) { checked = not r.checked };
  calls = q ∷ [];
  notices = error m ∷ [];
}

abbrev pub with_title : Text → Row → Row
with_title t r = record r { task = record (r.task) { title = t } }

abbrev pub exit_edit_mode : Row → Row
exit_edit_mode r = record r { editing = false }

abbrev pub cancel_edit : Row → Row
cancel_edit r = exit_edit_mode (record r { title_input = r.original_title })

-- With what `doSaveTask` resolves
pub record TitleSaved : Type 0 where
  pub handled : Handled
  pub saved : Bool

abbrev pub title_ends : Option String → Call → Row → TitleSaved
title_ends none q r = record {
  handled = record { row = exit_edit_mode r; calls = q ∷ []; notices = task_updated ∷ [] };
  saved = true;
}
title_ends (some m) q r = record {
  handled = record { row = with_title r.original_title r; calls = q ∷ []; notices = error m ∷ [] };
  saved = false;
}

abbrev pub with_deadline : Option ℕ → Row → Row
with_deadline d r = record r { task = record (r.task) { deadline = d } }

abbrev deadline_ends : ℕ → Option Issue → Option ℕ → Option String → Call → Row → Handled
deadline_ends today issue before none q r = record {
  row = r;
  calls = q ∷ [];
  notices = deadline_updated (get_task_deadline_status today r.task.deadline issue) ∷ [];
}
deadline_ends today issue before (some m) q r = record {
  row = record (with_deadline before r) { deadline_input = before };
  calls = q ∷ [];
  notices = error m ∷ [];
}

module _ (answer : Call → Option String) (while_saving : Row → Row) where
  -- The change of the checkbox, which shows the new value already
  unfoldable pub change_done : Option User → Row → Handled
  change_done user r =
      if not (user_can user update_task)
      then quietly (record r { checked = not r.checked })
      else (let r' = with_done r.checked r in
          let q = put_task r'.task in checked_ends r.checked (answer q) q (while_saving r'))

  unfoldable pub do_save_task : Option User → Row → TitleSaved
  do_save_task user r =
      let title = trim r.title_input in
      if is_empty title
      then record { handled = quietly (cancel_edit r); saved = true }
      else if text_eq title r.task.title
      then record { handled = quietly (exit_edit_mode r); saved = true }
      else if not (user_can user update_task)
      then record { handled = quietly (cancel_edit r); saved = true }
      else (let r' = with_title title r in
          let q = put_task r'.task in title_ends (answer q) q (while_saving r'))

  -- The change of the date field
  unfoldable pub change_deadline : Option User → ℕ → Option Issue → Row → Handled
  change_deadline user today issue r =
      if not (user_can user update_task)
      then quietly r
      else (let r' = with_deadline r.deadline_input r in
          let q = put_task r'.task in
          deadline_ends today issue r.task.deadline (answer q) q (while_saving r'))

-- The tasks of the open issue after a handler
pub record Listed : Type 0 where
  pub tasks : List Task
  pub calls : List Call
  pub notices : List Notice
  pub done_ok : Bool

-- `currentIssue.tasks.splice(index, 1)` at the first task with the id
abbrev pub without_task : ℕ → List Task → List Task
without_task id [] = []
without_task id (t ∷ ts) = if t.id == id then ts else t ∷ without_task id ts

abbrev unlisted : Notice → List Call → List Task → Listed
unlisted n qs ts = record { tasks = ts; calls = qs; notices = n ∷ []; done_ok = false }

abbrev untouched : List Task → Listed
untouched ts = record { tasks = ts; calls = []; notices = []; done_ok = false }

abbrev deleted : Option String → ℕ → List Task → Listed
deleted none id ts = record {
  tasks = without_task id ts;
  calls = remove_task id ∷ [];
  notices = task_deleted ∷ [];
  done_ok = true;
}
deleted (some m) id ts = unlisted (error m) (remove_task id ∷ []) ts

-- The delete button, with the user's answer to the question
unfoldable pub delete_task_clicked :
    (Call → Option String) → Option User → Bool → ℕ → List Task → Listed
delete_task_clicked answer user confirmed id ts =
    if not (user_can user delete_task)
    then untouched ts
    else if not confirmed
    then untouched ts
    else deleted (answer (remove_task id)) id ts

-- The number of code points of a text: a low surrogate behind a high one belongs to it.
abbrev pub is_high_surrogate : ℕ → Bool
is_high_surrogate c = leb 55296 c && leb c 56319

abbrev pub is_low_surrogate : ℕ → Bool
is_low_surrogate c = leb 56320 c && leb c 57343

abbrev pub codepoints_behind : Bool → Text → ℕ
codepoints_behind high [] = 0
codepoints_behind high (c ∷ s) =
    if high && is_low_surrogate c
    then codepoints_behind false s
    else suc (codepoints_behind (is_high_surrogate c) s)

unfoldable pub count_codepoints : Text → ℕ
count_codepoints s = codepoints_behind false s

abbrev pub max_title_length : ℕ
max_title_length = 100

-- What `createTask` gives
pub data Created : Type 0 where
  refuses : String → Created
  gives : Task → Created

abbrev new_task : Text → Option ℕ → List Task → Task
new_task title deadline ts = record {
  id = 0;
  title = title;
  done = false;
  position = length ts;
  deadline = deadline;
}

abbrev created : Created → Call → Lateness → List Task → Listed
created (refuses m) q late ts = unlisted (error m) (q ∷ []) ts
created (gives t) q late ts = record {
  tasks = ts ++ t ∷ [];
  calls = q ∷ [];
  notices = task_created late ∷ [];
  done_ok = true;
}

-- `handleTaskSubmit`; the task that is sent has no id yet, for which 0 stands.
unfoldable pub handle_task_submit :
    (Call → Created) → Option User → ℕ → Text → Option ℕ → Issue → Listed
unfolding count_codepoints
handle_task_submit answer user today title deadline issue =
    if not (user_can user create_task)
    then untouched issue.tasks
    else if is_empty (trim title)
    then untouched issue.tasks
    else if ltb max_title_length (count_codepoints title)
    then unlisted too_long [] issue.tasks
    else (let q = post_task (new_task title deadline issue.tasks) in
        created (answer q) q (get_task_deadline_status today deadline (some issue)) issue.tasks)
