-- ===== src/Dialog.antt =====
-- static/js/components/modal.js: the dialog of an issue, how it gets its ETag and how it saves. An ETag
-- is the instant of the last change (backend/handlers.go), an issue object is named by a number, and
-- an event is a call, or the end of an await. Tasks are saved by their own requests.
pub mod Invariant
pub mod Load
pub mod Saves
pub mod Race
pub mod Done
use wuflow.Base.{
  ℕ, suc, String, Bool, true, false, Option, none, some, List, [], ◌∷◌, ◌++◌, ◌==◌, opt_eq,
  if◌then◌else◌,
}
use wuflow.Model.{Issue, User}

-- What the server sends for an issue; its ETag is that of `updated_at`.
pub record Copy : Type 0 where
  pub issue : Issue
  pub updated_at : ℕ

-- `stale` is STALE_ETAG.
pub data Tag : Type 0 where
  at : ℕ → Tag
  stale : Tag

-- `checkIfMatchConflict`, and the test for a missing header before it.
unfoldable pub if_match_conflict : Option Tag → Copy → Bool
if_match_conflict none current = false
if_match_conflict (some stale) current = true
if_match_conflict (some (at t)) current = if t == current.updated_at then false else true

-- `state.currentIssue`
pub record Held : Type 0 where
  pub ref : ℕ
  pub copy : Copy

-- A PUT of the issue, and the copy that it was built from.
pub record Request : Type 0 where
  pub base : Copy
  pub sent : Issue
  pub tag : Option Tag

-- A queued write: the issue it is for, and its changes.
pub record Write : Type 0 where
  pub issue_id : Option ℕ
  pub change : Issue → Issue

-- A write that has started: the object and the copy that it found, and its changes.
pub record Job : Type 0 where
  pub ref : ℕ
  pub base : Copy
  pub change : Issue → Issue

-- Where the write that runs is: it waits for a revalidation, for the answer to its request, for the
-- user's answer to the question of a conflict, or for the fresh issue.
pub data Phase : Type 0 where
  idle reloading : Phase
  waiting : ℕ → Job → Phase
  saving asking : Job → Phase

-- How `saveIssueChanges` resolves; a failed save rejects.
pub data Outcome : Type 0 where
  saved not_saved : Outcome
  failed : String → Outcome

-- `currentIssue`, `currentEtag`, `issueLoad` and its number, whether an inline editor is open, the next
-- object, `issueSaveChain`, the write that runs, and what was sent and resolved, the newest first.
pub record Dialog : Type 0 where
  pub current : Option Held
  pub etag : Option Tag
  pub load : Option ℕ
  pub load_seq : ℕ
  pub editing : Bool
  pub next_ref : ℕ
  pub queue : List Write
  pub phase : Phase
  pub requests : List Request
  pub outcomes : List Outcome

-- `setCurrentIssue` with an object of its own
abbrev pub hold : Copy → Dialog → Dialog
hold c s = record s {
  current = some (record { ref = s.next_ref; copy = c });
  next_ref = suc s.next_ref;
}

-- `openModal` for an issue, or for a new one
unfoldable pub open_modal : Option Copy → Dialog → Dialog
open_modal none s = record s { etag = none; load_seq = suc s.load_seq; load = none; current = none }
open_modal (some c) s = record (hold c s) {
  etag = none;
  load_seq = suc s.load_seq;
  load = some (suc s.load_seq);
}

-- `closeModal`, which leaves the inline editors
unfoldable pub close_modal : Dialog → Dialog
close_modal s = record s {
  editing = false;
  current = none;
  etag = none;
  load = none;
  load_seq = suc s.load_seq;
}

abbrev pub is_held : Option Held → ℕ → Bool
is_held none r = false
is_held (some h) r = h.ref == r

abbrev pub updated_at_of : Option Held → Option ℕ
updated_at_of none = none
updated_at_of (some h) = some h.copy.updated_at

abbrev pub same_version : Option Held → Copy → Bool
same_version none c = false
same_version (some h) c = c.updated_at == h.copy.updated_at

-- `revalidateIssue` once the issue is there; nothing fetched means not found, or a failure.
abbrev pub revalidated : Option Copy → Dialog → Dialog
revalidated none s = close_modal (record s { load = none })
revalidated (some c) s =
    if same_version s.current c
    then record s { load = none; etag = some (at c.updated_at) }
    else if s.editing
    then record s { load = none; etag = some stale }
    else hold c (record s { load = none; etag = some (at c.updated_at) })

unfoldable pub revalidate_issue : ℕ → Option Copy → Dialog → Dialog
unfolding close_modal
revalidate_issue seq answer s = if seq == s.load_seq then revalidated answer s else s

-- `updateIssue` with the tag of `etagForSave`
abbrev pub send : Option Tag → Job → Dialog → Dialog
send tag j s = record s {
  phase = saving j;
  requests = record { base = j.base; sent = j.change j.base.issue; tag = tag } ∷ s.requests;
}

-- The end of `await issueLoad` in `etagForSave`
abbrev pub tag_after_load : Job → Dialog → Option Tag
tag_after_load j s = if is_held s.current j.ref then s.etag else some stale

abbrev pub resume : ℕ → Phase → Dialog → Dialog
resume seq idle s = s
resume seq reloading s = s
resume seq (saving j) s = s
resume seq (asking j) s = s
resume seq (waiting n j) s = if n == seq then send (tag_after_load j s) j s else s

-- The revalidation's answer, and the write that waits for it
unfoldable pub load_ends : ℕ → Option Copy → Dialog → Dialog
unfolding revalidate_issue
load_ends seq answer s = let s' = revalidate_issue seq answer s in resume seq s'.phase s'

abbrev current_id : Option Held → Option ℕ
current_id none = none
current_id (some h) = some h.copy.issue.id

-- `saveIssueChanges`, which queues the write by `enqueueIssueWrite`
unfoldable pub save_issue_changes : (Issue → Issue) → Dialog → Dialog
save_issue_changes change s = record s {
  queue = s.queue ++ record { issue_id = current_id s.current; change = change } ∷ [];
}

abbrev pub ends : Outcome → Dialog → Dialog
ends o s = record s { phase = idle; outcomes = o ∷ s.outcomes }

-- `etagForSave` before its await
abbrev pub start_job : Option ℕ → Job → Dialog → Dialog
start_job none j s = send s.etag j s
start_job (some n) j s = record s { phase = waiting n j }

abbrev pub start_write : Option Held → Write → Dialog → Dialog
start_write none w s = ends not_saved s
start_write (some h) w s =
    if opt_eq w.issue_id (some h.copy.issue.id)
    then start_job s.load (record { ref = h.ref; base = h.copy; change = w.change }) s
    else ends not_saved s

-- The next write starts once the one before has settled.
abbrev pub next_write : Phase → List Write → Dialog → Dialog
next_write idle (w ∷ ws) s = start_write s.current w (record s { queue = ws })
next_write idle [] s = s
next_write reloading ws s = s
next_write (waiting n j) ws s = s
next_write (saving j) ws s = s
next_write (asking j) ws s = s

unfoldable pub enqueued_starts : Dialog → Dialog
enqueued_starts s = next_write s.phase s.queue s

-- What `updateIssue` gives
pub data Answer : Type 0 where
  updated : Copy → Answer
  conflict : Answer
  fails : String → Answer

abbrev or_else : Option User → Option User → Option User
or_else none b = b
or_else (some a) b = some a

-- `Object.assign` of the changes and of the server's copy, which leaves `assignee` out where there is
-- none; the tasks stay.
abbrev pub assigned_saved : Job → Copy → Held → Held
assigned_saved j c h = record h {
  copy = record {
    issue = record (c.issue) {
      tasks = h.copy.issue.tasks;
      assignee = or_else c.issue.assignee (j.change h.copy.issue).assignee;
    };
    updated_at = c.updated_at;
  };
}

abbrev pub assign_saved : Job → Copy → Option Held → Option Held
assign_saved j c none = none
assign_saved j c (some h) = if h.ref == j.ref then some (assigned_saved j c h) else some h

-- `saveIssueWithConflictCheck` and the rest of the write, once the server has answered
abbrev pub answer_to : Answer → Job → Dialog → Dialog
answer_to (updated c) j s =
    ends saved (record s { etag = some (at c.updated_at); current = assign_saved j c s.current })
answer_to conflict j s = record s { phase = asking j }
answer_to (fails m) j s = ends (failed m) s

abbrev pub save_answered : Phase → Answer → Dialog → Dialog
save_answered (saving j) a s = answer_to a j s
save_answered idle a s = s
save_answered reloading a s = s
save_answered (waiting n j) a s = s
save_answered (asking j) a s = s

-- The user's answer to the question of a conflict
abbrev pub decide : Phase → Bool → Dialog → Dialog
decide (asking j) true s = record s { phase = reloading }
decide (asking j) false s = ends not_saved s
decide idle b s = s
decide reloading b s = s
decide (waiting n j) b s = s
decide (saving j) b s = s

-- The reload in place
abbrev pub reload : Phase → Option Copy → Dialog → Dialog
reload reloading none s = ends not_saved s
reload reloading (some c) s = ends not_saved (hold c (record s { etag = some (at c.updated_at) }))
reload idle c s = s
reload (waiting n j) c s = s
reload (saving j) c s = s
reload (asking j) c s = s

pub data Event : Type 0 where
  opens : Option Copy → Event
  closes : Event
  edits : Bool → Event
  loads : ℕ → Option Copy → Event
  asks_save : (Issue → Issue) → Event
  starts : Event
  answers : Answer → Event
  decides : Bool → Event
  reloads : Option Copy → Event

unfoldable pub handle : Event → Dialog → Dialog
unfolding open_modal close_modal load_ends save_issue_changes enqueued_starts
handle (opens c) s = open_modal c s
handle closes s = close_modal s
handle (edits b) s = record s { editing = b }
handle (loads seq c) s = load_ends seq c s
handle (asks_save change) s = save_issue_changes change s
handle starts s = enqueued_starts s
handle (answers a) s = save_answered s.phase a s
handle (decides b) s = decide s.phase b s
handle (reloads c) s = reload s.phase c s

unfoldable pub handle_all : List Event → Dialog → Dialog
unfolding handle
handle_all [] s = s
handle_all (e ∷ es) s = handle_all es (handle e s)
