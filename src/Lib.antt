-- ===== src/Lib.antt =====
-- Verification of the browser client of wuflow, an issue tracker (static/js).
--
-- The client keeps the issues of the selected projects as objects that all views share, edits them
-- in place, and saves each edit by a request; a failed request takes the edit back. The parts:
--
-- - Model, Store: the data (static/js/domain-constants.js, static/js/status-config.js) and the heap of
--   issue objects. A view holds references to them, so that one assignment shows in every list.
-- - Api (static/js/api.js): Api/Fetch is `rawFetch` over a world that holds what the network is
--   going to answer and the trace of what was sent; Api/Auth is `renewSession`, `authFetch` and the
--   calls that log in and out; Api/Endpoints has every exported call, under its own name; Api/Calls
--   has the writes as one type, to state what holds of all of them.
-- - Order (static/js/list-utils.js): `applyOrderChange`, `saveIssueOrder`, `updatePositions`,
--   `handleMoveTop`, `handleMoveBottom`. Rollback, Positions, Moves and Outcome are its theorems.
-- - Drop (static/js/list-utils.js, static/js/components/board.js): `getListUpdates`,
--   `getBoardUpdates`, and the drop handlers of a board column and of a section.
-- - Edit (static/js/list-utils.js): `handleTogglePriority`, `handleAssignToMe`; View: the callbacks
--   and toasts of all these handlers.
-- - Filters (static/js/filters.js), State (static/js/state.js), StatusConfig
--   (static/js/status-config.js), Text (the string methods that they use). Filters/Meets says what each
--   criterion means, Text/Occurs what `includes` does.
-- - Permissions (static/js/permissions.js), with Permissions/Backend for backend/permissions.go.
-- - IssueLists (static/js/issue-lists.js): the lazy loading of issue lists, as events that come in any
--   order. A promise is a number; `activeLoad` is named by its generation.
-- - Drag (static/js/drag.js), Deadlines and Html (static/js/utils.js): helpers of the views. A box
--   stands by its middle in half pixels, a day is a number that grows with the calendar.
-- - Archiving (static/js/components/archive.js): which drops the archive view lets through.
-- - Planning (static/js/components/planning.js): the effective deadline, and how a card gets and loses a
--   day of the plan. Dates, Drops and Deadline are its theorems.
-- - Session (static/js/session.js): the dialog that logs in again and the check of the session, as
--   events in any order. A promise that the dialog gives out is a number.
-- - Guards (static/js/utils.js): `singleFlight` and `markBusy`, as calls and ends in any order.
-- - Board (static/js/components/board.js): which cards the board shows, with which buttons and counts.
-- - Dialog (static/js/components/modal.js, with the ETag check of backend/handlers.go): how the dialog
--   of an issue is opened, revalidated, saved and closed, as events in any order. Invariant, Load,
--   Saves and Race are its theorems; Done is `handleDone` with the saves that it awaits, those
--   of static/js/components/tasks.js and static/js/components/activity.js too.
-- - Editor (static/js/components/modal.js, static/js/utils.js): the commands of the description
--   editor on a text with its selection; Lines has texts as lines, Lists what Enter does in a
--   list; Selection and Tab are the theorems.
-- - Planning/Panel (static/js/components/planning.js): what the plan lists, and the deadline badge.
--   A day counts from a fixed one, and `west` says that the browser's clock is behind Greenwich.
-- - Releases (static/js/components/releases.js, static/js/list-utils.js): the list of releases and the
--   dialog that saves one; Close has how one is deleted, closed and opened again.
-- - Backlog, ArchiveView (static/js/components/backlog.js, static/js/components/archive.js): what these
--   views list, and the drop on a release lane.
-- - Tasks (static/js/components/tasks.js, static/js/components/modal.js): the controls of a task;
--   Tasks/Order is the order after a drag, Tasks/Undo its
--   theorem.
-- - Activity (static/js/components/activity.js): the comments and the history of the open issue, as
--   events in any order.
-- - Users (static/js/components/system-settings.js): the dialog of a user. Confirm and Password/Agree
--   compare it with backend/handlers.go, backend/models.go and backend/validation.go, where Go's
--   functions on strings are parameters; Submit says what is sent.
-- - App (static/js/app.js, with the user filter of static/js/components/toolbar.js): the shell of the
--   page, with timers and the ends of requests as events; a refresh is its loads, each an event, and
--   what it does when all have ended. Shown refines it to the open view and the issues.
-- - Base: lists, tests and sorting over native numbers. Tests: runs at concrete inputs.
--
-- How the code is read. Ids, positions and instants are natural numbers. A handler that awaits a
-- request is a function of its surroundings: the server's answer to each request, and what other
-- handlers do to the heap while it waits. Requests of one `Promise.all` are answered independently;
-- the failure that is reported is the first in the list. `fetch` past the end of the listed answers
-- fails, as it does offline, so that every call ends. `String(n)` has as many steps as n + 1, and
-- the digits of n are fewer. `String.prototype.toLowerCase` is a parameter of the filters.
--
-- Not modelled: the DOM that the views build, the dialogs of projects, labels and status names, the
-- login page, the server but for its permission table, its ETag check and its checks of users and
-- passwords, and the libraries marked and DOMPurify.
pub mod Base
pub mod Api
pub mod Model
pub mod Permissions
pub mod Text
pub mod StatusConfig
pub mod Filters
pub mod Store
pub mod Order
pub mod View
pub mod Edit
pub mod Drop
pub mod State
pub mod Tests
pub mod IssueLists
pub mod Drag
pub mod Deadlines
pub mod Html
pub mod Archiving
pub mod Planning
pub mod Session
pub mod Guards
pub mod Board
pub mod Dialog
pub mod Editor
pub mod Releases
pub mod Backlog
pub mod ArchiveView
pub mod Tasks
pub mod Activity
pub mod Users
pub mod App
