-- ===== src/Activity.antt =====
-- static/js/components/activity.js: the comments and the history of the open issue, and the one editor of
-- a comment. A request is named by its number, as `nextSeq` gives it, and a failed one shows a toast.
pub mod Laws
pub mod Lost
use wuflow.Base.{
  ℕ, suc, ◌+◌, String, Bool, true, false, not, ◌&&◌, ◌||◌, Option, none, some, List, [], ◌∷◌, ◌++◌,
  ◌==◌, opt_eq, if◌then◌else◌,
}
use wuflow.Model.{Text, User}
use wuflow.Text.{trim, is_empty}

pub record Comment : Type 0 where
  pub id : ℕ
  pub issue_id : ℕ
  pub body : Text

pub record Entry : Type 0 where
  pub issue_id : ℕ
  pub event : Text

-- Which editor is open: that of a new comment, or that of a comment
pub data Editor : Type 0 where
  no_editor new_comment : Editor
  comment_editor : ℕ → Editor

-- `ctx` and `requestSeq`, with the issue that each request asked for, the field of the new comment, and the
-- toasts, the newest first
pub record Context : Type 0 where
  pub issue : Option ℕ
  pub comments : List Comment
  pub history : List Entry
  pub seq : ℕ
  pub asked : ℕ → ℕ
  pub editor : Editor
  pub new_text : Text
  pub blocked : Bool
  pub toasts : List String

abbrev pub is_stale : ℕ → Context → Bool
is_stale n s = not (n == s.seq)

-- `nextSeq` for a request about an issue
abbrev pub next_seq : ℕ → Context → Context
next_seq issue s = record s {
  seq = suc s.seq;
  asked = λ n. if suc s.seq == n then issue else s.asked n;
}

-- `closeNewCommentForm({ clear: true })`
abbrev pub close_open_form : Editor → Context → Context
close_open_form new_comment s = record s { editor = no_editor }
close_open_form no_editor s = s
close_open_form (comment_editor id) s = s

unfoldable pub close_new_comment_form : Context → Context
close_new_comment_form s = let s' = record s { new_text = [] } in close_open_form s'.editor s'

-- `finish` of the editor of a comment
abbrev pub finish_edit : Context → Context
finish_edit s = record s { editor = no_editor; blocked = false }

-- `ctx.draft?.discard()`
abbrev pub discard_draft : Editor → Context → Context
discard_draft no_editor s = s
discard_draft new_comment s = close_new_comment_form s
discard_draft (comment_editor id) s = finish_edit s

unfoldable pub close_comment_editors : Context → Context
unfolding close_new_comment_form
close_comment_editors s = close_new_comment_form (discard_draft s.editor s)

-- `loadActivity` before its requests, and once they are answered
unfoldable pub load_activity : ℕ → Context → Context
unfolding close_comment_editors
load_activity issue s =
    close_comment_editors
      (record (next_seq issue s) { issue = some issue; history = []; comments = [] })

abbrev pub add_toast : String → Context → Context
add_toast m s = record s { toasts = m ∷ s.toasts }

-- What the server answers a fetch
pub data Answer (A : Type 0) : Type 0 where
  gives : A → Answer A
  refuses : String → Answer A

abbrev pub show_loaded : Answer (List Entry × List Comment) → Context → Context
show_loaded (gives (history, comments)) s = record s { history = history; comments = comments }
show_loaded (refuses m) s = add_toast m s

unfoldable pub activity_loaded : ℕ → Answer (List Entry × List Comment) → Context → Context
activity_loaded n a s = if is_stale n s then s else show_loaded a s

-- `refreshHistory` and `refreshComments`, and their answers
abbrev pub refresh : Option ℕ → Context → Context
refresh none s = s
refresh (some issue) s = next_seq issue s

unfoldable pub refresh_history : Context → Context
refresh_history s = refresh s.issue s

unfoldable pub refresh_comments : Context → Context
refresh_comments s = refresh s.issue s

abbrev pub show_history : Answer (List Entry) → Context → Context
show_history (gives history) s = record s { history = history }
show_history (refuses m) s = add_toast m s

unfoldable pub history_refreshed : ℕ → Answer (List Entry) → Context → Context
history_refreshed n a s = if is_stale n s then s else show_history a s

abbrev pub show_comments : Answer (List Comment) → Context → Context
show_comments (gives comments) s = record s { comments = comments }
show_comments (refuses m) s = add_toast m s

unfoldable pub comments_refreshed : ℕ → Answer (List Comment) → Context → Context
comments_refreshed n a s = if is_stale n s then s else show_comments a s

-- `openNewCommentForm`
abbrev pub open_form : Editor → Context → Context
open_form no_editor s = record s { editor = new_comment }
open_form new_comment s = s
open_form (comment_editor id) s = s

unfoldable pub open_new_comment_form : Context → Context
open_new_comment_form s = open_form s.editor s

-- `enterCommentEdit`
abbrev pub enter_edit : ℕ → Editor → Context → Context
enter_edit id no_editor s = record s { editor = comment_editor id; blocked = true }
enter_edit id new_comment s = add_toast "Finish the new comment first" s
enter_edit id (comment_editor other) s = add_toast "Finish editing the other comment first" s

unfoldable pub enter_comment_edit : ℕ → Context → Context
enter_comment_edit id s = enter_edit id s.editor s

-- `isOtherCommentActive`
abbrev pub is_other_comment_active : ℕ → Editor → Bool
is_other_comment_active id no_editor = false
is_other_comment_active id new_comment = true
is_other_comment_active id (comment_editor other) = not (other == id)

-- `submitNewComment` and `saveEdit` of a text, once the server has answered; a text of spaces is not sent.
unfoldable pub submit_new_comment : Text → Option String → Context → Context
unfolding close_new_comment_form refresh_comments
submit_new_comment body answer s =
    if is_empty (trim body)
    then add_toast "Comment must not be empty" s
    else elim answer [ none ↦ refresh_comments (close_new_comment_form s) | some m ↦ add_toast m s ]

unfoldable pub save_edit : Text → Option String → Context → Context
unfolding refresh_comments
save_edit body answer s =
    if is_empty (trim body)
    then add_toast "Comment must not be empty" s
    else elim answer [ none ↦ refresh_comments (finish_edit s) | some m ↦ add_toast m s ]

-- `removeComment` once the user has confirmed and the server has answered
unfoldable pub remove_comment : Option String → Context → Context
unfolding refresh_comments
remove_comment answer s = elim answer [ none ↦ refresh_comments s | some m ↦ add_toast m s ]

pub data Event : Type 0 where
  loads : ℕ → Event
  refreshes_history : Event
  loaded : ℕ → Answer (List Entry × List Comment) → Event
  history_answer : ℕ → Answer (List Entry) → Event
  comments_answer : ℕ → Answer (List Comment) → Event
  opens_form closes_form closes_editors : Event
  types : Text → Event
  enters_edit : ℕ → Event
  submits saves : Text → Option String → Event
  removes : Option String → Event

unfoldable pub handle : Event → Context → Context
unfolding load_activity refresh_history activity_loaded history_refreshed comments_refreshed
    open_new_comment_form close_new_comment_form close_comment_editors enter_comment_edit
    submit_new_comment save_edit remove_comment
handle (loads issue) s = load_activity issue s
handle refreshes_history s = refresh_history s
handle (loaded n a) s = activity_loaded n a s
handle (history_answer n a) s = history_refreshed n a s
handle (comments_answer n a) s = comments_refreshed n a s
handle opens_form s = open_new_comment_form s
handle closes_form s = close_new_comment_form s
handle closes_editors s = close_comment_editors s
handle (types t) s = record s { new_text = t }
handle (enters_edit id) s = enter_comment_edit id s
handle (submits body a) s = submit_new_comment body a s
handle (saves body a) s = save_edit body a s
handle (removes a) s = remove_comment a s

unfoldable pub handle_all : List Event → Context → Context
unfolding handle
handle_all [] s = s
handle_all (e ∷ es) s = handle_all es (handle e s)
