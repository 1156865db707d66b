-- ===== src/Releases.antt =====
-- static/js/components/releases.js: which releases the view shows, and what the dialog of a release saves.
-- static/js/list-utils.js: `sortReleasesByDate`.
pub mod Laws
pub mod Dialog
pub mod Close
use wuflow.Base.{
  ℕ, suc, ◌+◌, String, Bool, true, false, not, ◌&&◌, ◌||◌, Option, none, some, List, [], ◌∷◌, ◌++◌,
  map, ◌==◌, leb, ltb, opt_eq, if◌then◌else◌, length, filter_by, find, is_filled, sort_by,
  sort_with, group_by,
}
use wuflow.Model.{
  Text, Issue, Release, ReleaseStatus, opened, closed, Status, status_eq, open_, todo, stage1,
  stage2, stage3, stage4, done, archive, User,
}
use wuflow.Text.{trim, is_empty, contains}
use wuflow.Filters.{AssigneeChoice, me, unassigned, not_a_number, with_id}
use wuflow.State.{State}
use wuflow.Board.{user_id}
use wuflow.Permissions.{user_can, trigger_release}

-- `sortReleasesByDate`: the dated ones by their dates, behind them the others by their creation.
abbrev pub by_dates : Option ℕ → ℕ → Option ℕ → ℕ → Bool
by_dates (some a) _ (some b) _ = leb a b
by_dates (some a) _ none _ = true
by_dates none _ (some b) _ = false
by_dates none made none made' = leb made made'

abbrev pub comes_before : Release → Release → Bool
comes_before a b = by_dates a.release_date a.created_at b.release_date b.created_at

unfoldable pub sort_releases_by_date : List Release → List Release
sort_releases_by_date rs = sort_with comes_before rs

abbrev pub is_open : Release → Bool
is_open r = elim r.status [ opened ↦ true | closed ↦ false ]

-- The tests of the owner and of the search
abbrev is_mine : Option ℕ → Option ℕ → Bool
is_mine none user = false
is_mine (some o) none = false
is_mine (some o) (some u) = o == u

abbrev pub has_owner : Option AssigneeChoice → Option ℕ → Option ℕ → Bool
has_owner none user owner = true
has_owner (some me) user owner = is_mine owner user
has_owner (some unassigned) user owner = opt_eq owner none
has_owner (some not_a_number) user owner = false
has_owner (some (with_id id)) user owner = opt_eq owner (some id)

-- The list of a section, and the two numbers of its count
pub record Section : Type 0 where
  pub releases : List Release
  pub total : ℕ

-- There is no section of closed releases if there are none.
pub record ReleasesView : Type 0 where
  pub open_section : Section
  pub closed_section : Option Section

module _ (lower : Text → Text) where
  abbrev in_description : Text → Option Text → Bool
  in_description term none = false
  in_description term (some d) = contains term (lower d)

  abbrev pub release_matches : Text → Release → Bool
  release_matches term r =
      if is_filled term
      then contains term (lower r.name) || in_description term r.description
      else true

  abbrev pub shown_releases : State → List Release
  shown_releases s =
      filter_by
        (λ (r : Release).
          has_owner s.filter.release_owner (user_id s.current_user) r.owner_id
          && release_matches (lower (trim s.filter.release_search)) r)
        s.releases

  abbrev closed_time : Option ℕ → ℕ
  closed_time none = 0
  closed_time (some t) = t

  -- The last closed one comes first.
  abbrev pub closed_before : Release → Release → Bool
  closed_before a b = leb (closed_time b.closed_at) (closed_time a.closed_at)

  -- `renderReleasesView`
  unfoldable pub render_releases_view : State → ReleasesView
  unfolding sort_releases_by_date
  render_releases_view s =
      let shown = shown_releases s in
      let closed_ones =
        sort_with closed_before (filter_by (λ (r : Release). not (is_open r)) shown) in
      let total = length (filter_by (λ (r : Release). not (is_open r)) s.releases) in
      record {
        open_section = record {
          releases = sort_releases_by_date (filter_by is_open shown);
          total = length (filter_by is_open s.releases);
        };
        closed_section =
            if is_filled closed_ones || ltb 0 total
            then some (record { releases = closed_ones; total = total })
            else none;
      }

-- `mergeReleaseIntoState` and `removeReleaseFromState`
abbrev pub merge_release : Release → List Release → List Release
merge_release new [] = []
merge_release new (r ∷ rs) = if r.id == new.id then new ∷ rs else r ∷ merge_release new rs

abbrev pub remove_release : ℕ → List Release → List Release
remove_release id [] = []
remove_release id (r ∷ rs) = if r.id == id then rs else r ∷ remove_release id rs

-- The issues of a release, and how many stand in each status, in the order of the statuses
abbrev pub issues_of : ℕ → List Issue → List Issue
issues_of id = filter_by (λ (i : Issue). opt_eq i.release_id (some id))

abbrev pub status_index : Status → ℕ
status_index open_ = 0
status_index todo = 1
status_index stage1 = 2
status_index stage2 = 3
status_index stage3 = 4
status_index stage4 = 5
status_index done = 6
status_index archive = 7

-- `counts[i.status] = (counts[i.status] ?? 0) + 1`
abbrev pub count_status : Status → List (Status × ℕ) → List (Status × ℕ)
count_status status [] = (status, 1) ∷ []
count_status status ((st, n) ∷ counts) =
    if status_eq st status then (st, suc n) ∷ counts else (st, n) ∷ count_status status counts

abbrev pub count_issues : List Issue → List (Status × ℕ) → List (Status × ℕ)
count_issues [] counts = counts
count_issues (i ∷ is) counts = count_issues is (count_status i.status counts)

-- `buildStatusBreakdown`
unfoldable pub build_status_breakdown : List Issue → List (Status × ℕ)
build_status_breakdown is = sort_by (λ (c : Status × ℕ). status_index c.0) (count_issues is [])

abbrev is_in_progress : Status → Bool
is_in_progress stage1 = true
is_in_progress stage2 = true
is_in_progress stage3 = true
is_in_progress stage4 = true
is_in_progress _ = false

-- The numbers of `buildReleaseRow`, and whether it has the button that releases
pub record Row : Type 0 where
  pub done : ℕ
  pub in_progress : ℕ
  pub total : ℕ
  pub has_trigger : Bool

unfoldable pub build_release_row : Option User → List Issue → Release → Bool → Row
build_release_row user all r is_open_section =
    let is = issues_of r.id all in
    record {
      done = length (
          filter_by (λ (i : Issue). status_eq i.status Status.done || status_eq i.status archive)
            is);
      in_progress = length (filter_by (λ (i : Issue). is_in_progress i.status) is);
      total = length is;
      has_trigger = is_open_section && user_can user trigger_release;
    }

-- The fields of the dialog, and what is sent of them
pub record Form : Type 0 where
  pub name : Text
  pub description : Text
  pub start_date : Option ℕ
  pub release_date : Option ℕ
  pub owner_id : Option ℕ

pub data Call : Type 0 where
  put_release : ℕ → ℕ → Form → Call
  post_release : ℕ → Form → Call
  get_releases : ℕ → Call

-- What the server answers: a message of a failure, a release, or all of them.
pub data Answer : Type 0 where
  refuses : String → Answer
  gives : Release → Answer
  lists : List Release → Answer

pub data Outcome : Type 0 where
  closes_dialog name_required wrong_order updated created : Outcome
  shows_error : String → Outcome

pub record Submitted : Type 0 where
  pub releases : List Release
  pub calls : List Call
  pub outcome : Outcome

abbrev pub in_wrong_order : Option ℕ → Option ℕ → Bool
in_wrong_order none _ = false
in_wrong_order (some a) none = false
in_wrong_order (some a) (some b) = ltb b a

-- The saved release takes its place, and after a creation the list is fetched. Any other answer than a
-- failure has what the call asks for.
abbrev pub put_answer : Call → Answer → List Release → Submitted
put_answer q (refuses m) rs = record { releases = rs; calls = q ∷ []; outcome = shows_error m }
put_answer q (gives r) rs = record {
  releases = merge_release r rs;
  calls = q ∷ [];
  outcome = updated;
}
put_answer q (lists rs') rs = record { releases = rs; calls = q ∷ []; outcome = updated }

abbrev pub list_answer : List Call → Answer → List Release → Submitted
list_answer qs (refuses m) rs = record { releases = rs; calls = qs; outcome = shows_error m }
list_answer qs (lists rs') rs = record { releases = rs'; calls = qs; outcome = created }
list_answer qs (gives r) rs = record { releases = rs; calls = qs; outcome = created }

abbrev pub post_answer : (Call → Answer) → Call → Call → Answer → List Release → Submitted
post_answer answer q fetch (refuses m) rs = record {
  releases = rs;
  calls = q ∷ [];
  outcome = shows_error m;
}
post_answer answer q fetch (gives r) rs = list_answer (q ∷ fetch ∷ []) (answer fetch) rs
post_answer answer q fetch (lists rs') rs = list_answer (q ∷ fetch ∷ []) (answer fetch) rs

abbrev pub save_release : (Call → Answer) → ℕ → Option ℕ → Form → List Release → Submitted
save_release answer project (some id) form rs =
    put_answer (put_release project id form) (answer (put_release project id form)) rs
save_release answer project none form rs =
    post_answer answer (post_release project form) (get_releases project)
      (answer (post_release project form)) rs

abbrev pub trimmed : Form → Form
trimmed f = record f { name = trim f.name; description = trim f.description }

abbrev pub unsent : Outcome → List Release → Submitted
unsent o rs = record { releases = rs; calls = []; outcome = o }

abbrev pub is_closed : Option Release → Bool
is_closed none = false
is_closed (some r) = not (is_open r)

abbrev pub edited_release : Option ℕ → List Release → Option Release
edited_release none rs = none
edited_release (some id) rs = find (λ (r : Release). r.id == id) rs

-- `handleReleaseSubmit` of the dialog that edits a release, or none for a new one
unfoldable pub handle_release_submit :
    (Call → Answer) → ℕ → Option ℕ → Form → List Release → Submitted
handle_release_submit answer project editing form rs =
    if is_closed (edited_release editing rs)
    then unsent closes_dialog rs
    else if is_empty (trim form.name)
    then unsent name_required rs
    else if in_wrong_order form.start_date form.release_date
    then unsent wrong_order rs
    else save_release answer project editing (trimmed form) rs
