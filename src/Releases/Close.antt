-- ===== src/Releases/Close.antt =====
-- static/js/components/releases.js: how a release is deleted, closed and opened again. An attempt is what is
-- typed into the dialog for the administrator's password, which is cancelled once there are no more.
use wuflow.Base.{
  ℕ, String, Bool, true, false, not, ◌&&◌, Option, none, some, List, [], ◌∷◌, ◌++◌, if◌then◌else◌,
  length, filter_by, is_filled,
}
use wuflow.Model.{Text, Issue, Release, Status, done, archive, status_eq, User}
use wuflow.Text.{is_empty}
use wuflow.Permissions.{user_can, delete_release, trigger_release}
use wuflow.Releases.{merge_release, remove_release, issues_of, build_status_breakdown}

pub data Call : Type 0 where
  sends_delete : ℕ → ℕ → Text → Call
  sends_trigger : ℕ → ℕ → Bool → Call
  sends_reopen : ℕ → ℕ → Call
  loads_issues : Call

-- A failure, the release as it is now, or no more than success
pub data Answer : Type 0 where
  refuses : String → Answer
  gives : Release → Answer
  succeeds : Answer

pub data Notice : Type 0 where
  release_deleted release_closed release_reopened : Notice
  error : String → Notice

-- With whether the view is drawn again, and what a handler that does not catch rejects with
pub record Handled : Type 0 where
  pub releases : List Release
  pub calls : List Call
  pub notices : List Notice
  pub rerenders : Bool
  pub rejection : Option String

abbrev quiet : List Call → List Release → Handled
quiet qs rs = record {
  releases = rs;
  calls = qs;
  notices = [];
  rerenders = false;
  rejection = none;
}

abbrev shown : Notice → List Call → List Release → Handled
shown n qs rs = record (quiet qs rs) { notices = n ∷ []; rerenders = true }

abbrev failed : String → List Call → List Release → Handled
failed m qs rs = record (quiet qs rs) { notices = error m ∷ [] }

-- What the administrator's password was sent for, and whether the server took it
abbrev on_try : Answer → Call → List Call × Bool → List Call × Bool
on_try (refuses m) q (qs, b) = (q ∷ qs, b)
on_try (gives r) q rest = (q ∷ [], true)
on_try succeeds q rest = (q ∷ [], true)

module _ (answer : Call → Answer) where
  abbrev tried : (Text → Call) → List Text → List Call × Bool
  tried call [] = ([], false)
  tried call (p ∷ ps) =
      let rest = tried call ps in
      if is_empty p then rest else on_try (answer (call p)) (call p) rest

  -- `refreshIssuesAfterReleaseSideEffect`, which `handleDeleteRelease` does not catch
  abbrev after_delete : Answer → List Call → List Release → Handled
  after_delete (refuses m) qs rs = record (quiet qs rs) { rejection = some m }
  after_delete (gives r) qs rs = shown release_deleted qs rs
  after_delete succeeds qs rs = shown release_deleted qs rs

  abbrev delete_ends : Release → List Release → List Call × Bool → Handled
  delete_ends rel rs (qs, false) = quiet qs rs
  delete_ends rel rs (qs, true) =
      after_delete (answer loads_issues) (qs ++ loads_issues ∷ []) (remove_release rel.id rs)

  unfoldable pub handle_delete_release : Option User → Release → List Text → List Release → Handled
  handle_delete_release current rel attempts rs =
      if user_can current delete_release
      then delete_ends rel rs (tried (sends_delete rel.project_id rel.id) attempts)
      else quiet [] rs

  abbrev reloaded : Answer → Notice → List Call → List Release → Handled
  reloaded (refuses m) n qs rs = failed m qs rs
  reloaded (gives r) n qs rs = shown n qs rs
  reloaded succeeds n qs rs = shown n qs rs

  abbrev triggered : Answer → Call → List Release → Handled
  triggered (refuses m) q rs = failed m (q ∷ []) rs
  triggered (gives r) q rs =
      reloaded (answer loads_issues) release_closed (q ∷ loads_issues ∷ []) (merge_release r rs)
  triggered succeeds q rs = reloaded (answer loads_issues) release_closed (q ∷ loads_issues ∷ []) rs

  -- The button that confirms `handleTriggerReleaseDialog`, with its checkbox
  unfoldable pub trigger_confirmed : Release → Bool → List Release → Handled
  trigger_confirmed rel archive_done rs =
      let q = sends_trigger rel.project_id rel.id archive_done in triggered (answer q) q rs

  abbrev reopened : Answer → Call → List Release → Handled
  reopened (refuses m) q rs = failed m (q ∷ []) rs
  reopened (gives r) q rs = shown release_reopened (q ∷ []) (merge_release r rs)
  reopened succeeds q rs = shown release_reopened (q ∷ []) rs

  -- The button that opens a release again, with the user's answer to the question
  unfoldable pub reopen_clicked : Option User → Bool → Release → List Release → Handled
  reopen_clicked current confirmed rel rs =
      let q = sends_reopen rel.project_id rel.id in
      if user_can current trigger_release && confirmed
      then reopened (answer q) q rs
      else quiet [] rs

-- What `handleTriggerReleaseDialog` shows
pub record Dialog : Type 0 where
  pub total : ℕ
  pub breakdown : List (Status × ℕ)
  pub warns : Bool
  pub can_archive : Bool

unfoldable pub trigger_dialog : List Issue → Release → Dialog
unfolding build_status_breakdown
trigger_dialog all rel =
    let is = issues_of rel.id all in
    record {
      total = length is;
      breakdown = build_status_breakdown is;
      warns = is_filled (
          filter_by
            (λ (i : Issue). not (status_eq i.status done) && not (status_eq i.status archive)) is);
      can_archive = is_filled (filter_by (λ (i : Issue). status_eq i.status done) is);
    }
