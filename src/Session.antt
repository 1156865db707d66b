-- ===== src/Session.antt =====
-- static/js/session.js: the dialog that logs in again, and the check of the session when the user comes
-- back. A promise of `showReauthDialog` is a number; an event is a call, or the end of an await.
pub mod Waiting
pub mod Throttle
use wuflow.Base.{
  ℕ, suc, ◌-◌, String, Bool, true, false, not, ◌&&◌, ◌||◌, Option, none, some, List, [], ◌∷◌, ◌==◌,
  leb, ltb, str_eq, if◌then◌else◌,
}

-- What is started: `fetchCurrentUser` at a time, and `hasValidSession`.
pub data Probe : Type 0 where
  current_user : ℕ → Probe
  valid_session : Probe

-- `pendingReauth`, which promises are resolved, whether the dialog is shown, its error, whether its
-- button is disabled, whether a check by `closeDialogIfSessionValid` is running, the two times, and
-- what was started, the newest first. `next` is the number of the next promise.
pub record Session : Type 0 where
  pub pending : Option ℕ
  pub next : ℕ
  pub resolved : ℕ → Bool
  pub shown : Bool
  pub error : String
  pub submitting : Bool
  pub checking : Bool
  pub last_probe_at : ℕ
  pub last_interaction_at : ℕ
  pub probes : List Probe

abbrev pub probe_throttle_ms : ℕ
probe_throttle_ms = 60000

abbrev pub idle_threshold_ms : ℕ
idle_threshold_ms = 600000

-- `showReauthDialog`: the dialog of a pending promise is shared.
abbrev pub show_dialog : Option ℕ → Session → Session
show_dialog (some n) s = s
show_dialog none s = record s { pending = some s.next; next = suc s.next; shown = true; error = "" }

unfoldable pub show_reauth_dialog : Session → Session
show_reauth_dialog s = show_dialog s.pending s

-- The promise that it returns.
abbrev pub dialog_promise : Session → ℕ
dialog_promise s = elim s.pending [ none ↦ s.next | some n ↦ n ]

-- `finishReauth` at a time
abbrev pub finish_dialog : ℕ → Option ℕ → Session → Session
finish_dialog now none s = s
finish_dialog now (some n) s = record s {
  pending = none;
  shown = false;
  last_probe_at = now;
  resolved = λ j. if n == j then true else s.resolved j;
}

unfoldable pub finish_reauth : ℕ → Session → Session
finish_reauth now s = finish_dialog now s.pending s

-- `submitReauth` before and after `reauthenticate`, which gives an error or none. An empty error
-- counts as none.
unfoldable pub submit_starts : Session → Session
submit_starts s = record s { error = ""; submitting = true }

abbrev enable_submit : Session → Session
enable_submit s = record s { submitting = false }

abbrev pub submitted : ℕ → Option String → Session → Session
submitted now none s = finish_reauth now s
submitted now (some e) s = if str_eq e "" then finish_reauth now s else record s { error = e }

unfoldable pub submit_ends : ℕ → Option String → Session → Session
unfolding finish_reauth
submit_ends now answer s = enable_submit (submitted now answer s)

-- `probeSession`
abbrev pub probe : ℕ → Session → Session
probe now s = record s { last_probe_at = now; probes = current_user now ∷ s.probes }

unfoldable pub probe_session : Bool → ℕ → Session → Session
probe_session force now s =
    if not force && ltb (now - s.last_probe_at) probe_throttle_ms then s else probe now s

-- `closeDialogIfSessionValid`, which runs once at a time, and its end
abbrev pub check_session : Session → Session
check_session s =
    if s.checking then s else record s { checking = true; probes = valid_session ∷ s.probes }

unfoldable pub check_ends : ℕ → Bool → Session → Session
unfolding finish_reauth
check_ends now valid s =
    if valid
    then record (finish_reauth now s) { checking = false }
    else record s { checking = false }

-- `onReturn`
abbrev pub returns : Option ℕ → Bool → ℕ → Session → Session
returns (some n) force now s = check_session s
returns none force now s = probe_session force now s

unfoldable pub on_return : Bool → ℕ → Session → Session
unfolding probe_session
on_return force now s = returns s.pending force now s

-- `onInteraction`
unfoldable pub on_interaction : ℕ → Session → Session
unfolding probe_session
on_interaction now s =
    let s' = record s { last_interaction_at = now } in
    if leb idle_threshold_ms (now - s.last_interaction_at) then probe_session true now s' else s'

pub data Event : Type 0 where
  expires : Event
  submits : Event
  submit_answer : ℕ → Option String → Event
  check_answer : ℕ → Bool → Event
  comes_back : Bool → ℕ → Event
  interacts : ℕ → Event

unfoldable pub handle : Event → Session → Session
handle expires s = show_reauth_dialog s
handle submits s = submit_starts s
handle (submit_answer now answer) s = submit_ends now answer s
handle (check_answer now valid) s = check_ends now valid s
handle (comes_back force now) s = on_return force now s
handle (interacts now) s = on_interaction now s

unfoldable pub handle_all : List Event → Session → Session
unfolding handle
handle_all [] s = s
handle_all (e ∷ es) s = handle_all es (handle e s)
