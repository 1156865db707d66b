-- ===== src/Tests/Helpers.antt =====
-- Boxes under a dragged card, deadlines, escaped text, and the drop on the archive.
use wuflow.Base.{ℕ, false, true, none, some, [], ◌∷◌, ◌<◌, arith, ◌≡◌, refl, All}
use wuflow.Model.{Issue, todo, archive, Release, opened}
use wuflow.StatusConfig.{text}
use wuflow.Drag.{Box}
use wuflow.Deadlines.{on_time, get_deadline_status, get_task_deadline_status}
use wuflow.Html.{escape_html, escaped_text, is_markup, escape_html-IsPlain}
use wuflow.Archiving.{archive_validation, may_be_archived, section_drop-archiving}
use wuflow.Store.{Heap}
use wuflow.Drop.{Zone, section_drop}
use wuflow.Tests.Data.{page, issue_at, accepting, callbacks, somebody}

-- Three cards of 40 pixels; the pointer stands in the lower half of the first.
abbrev box : ℕ → ℕ → Box
box element middle = record { element = element; middle = middle }

boxes_below : (40 < 120) × ((120 < 200) × Unit {0})
boxes_below = (omega arith, (omega arith, tt))

abbrev release : Release
release = record {
  id = 5;
  project_id = 7;
  name = [];
  description = none;
  status = opened;
  owner_id = none;
  release_date = some 20260320;
  closed_at = none;
  created_at = 0;
}

-- Due on the 15th, released on the 20th, with a task for the 12th; today is the 10th.
abbrev released : Issue
released = record (issue_at todo 1 0) { deadline = some 20260315; release = some release }

issue_on_time : get_deadline_status 20260310 (some released) ≡ on_time
unfolding get_deadline_status
issue_on_time = refl

task_on_time : get_task_deadline_status 20260310 (some 20260312) (some released) ≡ on_time
unfolding get_task_deadline_status
task_on_time = refl

escape_html-IsPlain_example :
    (escape_html (some (text "<a b=\"&\">")) ≡ escaped_text (text "<a b=\"&\">"))
    × All (λ c. is_markup c ≡ false) (escape_html (some (text "<a b=\"&\">")))
escape_html-IsPlain_example = escape_html-IsPlain (text "<a b=\"&\">")

-- Issue 1 has an open task.
abbrev busy_page : Heap
busy_page r = record (page r) {
  tasks = record { id = 1; title = []; done = false; position = 0; deadline = none } ∷ [];
}

abbrev archive_section : Zone
archive_section = record {
  visible = true;
  target = archive;
  card = some 1;
  validate = some (archive_validation (some somebody));
  while_validating = λ (h : Heap). h;
  has_on_drop = false;
  callbacks = callbacks;
}

not_yet : may_be_archived (some somebody) (busy_page 1) ≡ false
not_yet = ground arith

section_drop-archiving_example :
    ((section_drop accepting archive_section (0 ∷ 1 ∷ []) busy_page).requests ≡ [])
    × ((section_drop accepting archive_section (0 ∷ 1 ∷ []) busy_page).heap ≡ busy_page)
section_drop-archiving_example =
    section_drop-archiving accepting archive_section (0 ∷ 1 ∷ []) busy_page 1 (some somebody) refl
      refl refl refl refl refl not_yet
