-- ===== src/ArchiveView.antt =====
-- static/js/components/archive.js, `renderArchive`: the archived issues by month and the done issues. The
-- time of an issue's last change and the number of its month's name are parameters: the first is a
-- field that `Issue` leaves out, the second the browser's.
use wuflow.Base.{
  ℕ, ◌&&◌, Option, none, some, List, ◌==◌, if◌then◌else◌, length, filter_by, filter_by-filter_by,
  sort_with, descending, SortedDown, sort_with-SortedDown, sort_with-perm, group_by, group_of,
  group_by-group_of, ◌≡◌, ap, subst, ◌∙◌,
}
use mathlib.Core.List.{Perm}
use wuflow.Model.{Text, Issue, Status, archive, status_eq}
use wuflow.Filters.{filter_issues, filter_by_status, sort_by_position}
use wuflow.Filters.Laws.{passes, filter_issues-passes}
use wuflow.State.{State, is_filter_active}
use wuflow.Board.{user_id}

pub record ArchiveView : Type 0 where
  pub groups : List (ℕ × List Issue)
  pub archived : List Issue
  pub done : List Issue
  pub archive_total : Option ℕ
  pub done_total : Option ℕ

module _ (lower : Text → Text) (updated_at : Issue → ℕ) (month : ℕ → ℕ) where
  abbrev shown_of : State → Status → List Issue
  shown_of s status =
      filter_by_status
        (some (filter_issues lower (some s.issues) s.filter (user_id s.current_user))) status

  abbrev total_of : State → Status → Option ℕ
  total_of s status =
      if is_filter_active s.filter
      then some (length (filter_by_status (some s.issues) status))
      else none

  -- `groupByMonth`
  abbrev pub group_by_month : List Issue → List (ℕ × List Issue)
  group_by_month = group_by (λ (i : Issue). month (updated_at i))

  -- `renderArchive`; the counts are the lengths of the two lists.
  unfoldable pub render_archive : State → ArchiveView
  render_archive s =
      let archived = sort_with (descending updated_at) (shown_of s archive) in
      record {
        groups = group_by_month archived;
        archived = archived;
        done = sort_by_position (some (shown_of s Status.done));
        archive_total = total_of s archive;
        done_total = total_of s Status.done;
      }

  abbrev pub archived_due : State → List Issue
  archived_due s =
      filter_by
        (λ (i : Issue).
          passes lower s.filter (user_id s.current_user) i && status_eq i.status archive)
        s.issues

  -- The archive lists exactly the archived issues that pass the filter, the last changed first, and each
  -- month holds those that were last changed in it, in that order.
  pub render_archive-months :
      (s : State)
      → let v = render_archive s in
        Perm v.archived (archived_due s)
        × (SortedDown updated_at v.archived
            × ((m : ℕ)
                → group_of (λ (i : Issue). month (updated_at i)) m v.groups
                  ≡ filter_by (λ (i : Issue). month (updated_at i) == m) v.archived))
  unfolding render_archive filter_by_status
  render_archive-months s = (
    subst (λ (is : List Issue). Perm (sort_with (descending updated_at) (shown_of s archive)) is)
        shown (sort_with-perm (descending updated_at) (shown_of s archive)),
    (
      sort_with-SortedDown updated_at (shown_of s archive),
      group_by-group_of (λ (i : Issue). month (updated_at i)) _,
    ),
  )
    where
      shown : shown_of s archive ≡ archived_due s
      shown =
          ap (filter_by (λ (i : Issue). status_eq i.status archive))
            (filter_issues-passes lower s.issues s.filter (user_id s.current_user))
          ∙ filter_by-filter_by (passes lower s.filter (user_id s.current_user))
              (λ (i : Issue). status_eq i.status archive) s.issues
