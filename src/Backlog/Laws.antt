-- ===== src/Backlog/Laws.antt =====
-- What the backlog shows, and what a drop on one of its lanes leaves behind.
use wuflow.Base.{
  ℕ, true, false, ◌&&◌, Option, none, some, List, [], ◌∷◌, map, ◌==◌, opt_eq, if◌then◌else◌, length,
  filter_by, filter_by-filter_by, sort_by, ◌≡◌, refl, ap, ◌∙◌,
}
use wuflow.Model.{Text, Issue, Status, open_, todo, status_eq, User}
use wuflow.Store.{Ref, Heap, Sent, put_issue, update_lem}
use wuflow.Filters.{filter_by_status, filter_issues, sort_by_position}
use wuflow.Filters.Laws.{passes, filter_issues-passes}
use wuflow.State.{State, has_id, prune_release_filter_ids}
use wuflow.State.Laws.{has_id-filter_by}
use wuflow.Board.{CardView, card_view, user_id}
use wuflow.Board.Laws.{map-issue, due}
use wuflow.Permissions.{update_issue, user_can}
use wuflow.Drop.{find_issue}
use wuflow.Backlog.{
  ListView, valid_release_ids, listed_issues, list_view, render_backlog, Answer, refuses, conflict,
  gives, LaneDrop, with_release_id, assign_issue, lane_answer, lane_drop,
}

-- The issues of a list, and its count
abbrev pub listed : ListView → List Issue × ℕ
listed v = (map (λ (c : CardView). c.issue) v.cards, v.count)

listed_issues-due :
    (lower : Text → Text) (s : State) (status : Status)
    → listed_issues lower s status ≡ due lower s status
unfolding sort_by_position filter_by_status filter_issues
listed_issues-due lower s status =
    ap
      (λ is.
        sort_by (λ (i : Issue). i.position)
          (filter_by (λ (i : Issue). status_eq i.status status) is))
      (filter_issues-passes lower s.issues s.filter (user_id s.current_user))
    ∙ ap (sort_by (λ (i : Issue). i.position)) (
        filter_by-filter_by (passes lower s.filter (user_id s.current_user))
          (λ (i : Issue). status_eq i.status status) s.issues)

list_view-due :
    (lower : Text → Text) (s : State) (status : Status)
    → listed (list_view lower s status) ≡ (due lower s status, length (due lower s status))
list_view-due lower s status =
    let is = listed_issues-due lower s status in
    λ k. (
      (map-issue (card_view s.current_user (listed_issues lower s status))
              (listed_issues lower s status) (λ i. refl)
            ∙ is)
          k,
      length (is k),
    )

-- Each list of the backlog shows exactly the loaded issues of its status that pass the filter, in the
-- order of their positions, and its count is theirs. The filter is the one from before, less the
-- releases that are not open any more.
pub render_backlog-due :
    (lower : Text → Text) (s : State)
    → let v = render_backlog lower s in
      (listed v.open_list ≡ (due lower v.state open_, length (due lower v.state open_)))
      × ((listed v.todo_list ≡ (due lower v.state todo, length (due lower v.state todo)))
          × ((v.state ≡ record s {
            filter = record (s.filter) { release_ids = v.state.filter.release_ids };
          })
              × ((id : Option ℕ)
                  → has_id v.state.filter.release_ids id
                    ≡ (has_id s.filter.release_ids id && has_id (valid_release_ids s) id))))
unfolding render_backlog prune_release_filter_ids
render_backlog-due lower s =
    let s' = prune_release_filter_ids (valid_release_ids s) s in
    (
      list_view-due lower s' open_,
      (
        list_view-due lower s' todo,
        (refl, has_id-filter_by (has_id (valid_release_ids s)) s.filter.release_ids),
      ),
    )

-- What the answer to the request of a lane makes of the page.
abbrev pub LaneSettled : Option ℕ → Ref → Heap → Answer → LaneDrop → Type 0
LaneSettled lane r h (refuses m) d = ((j : Ref) → d.heap j ≡ h j) × (d.failure ≡ some m)
LaneSettled lane r h conflict d = ((j : Ref) → d.heap j ≡ h j) × (d.failure ≡ none)
LaneSettled lane r h (gives new) d =
    ((j : Ref) → d.heap j ≡ (if r == j then assign_issue new (h r) else h j)) × (d.failure ≡ none)

lane_answer-LaneSettled :
    (lane : Option ℕ) (a : Answer) (q : Sent) (r : Ref) (h : Heap)
    → LaneSettled lane r h a (lane_answer a q r h)
lane_answer-LaneSettled lane (refuses m) q r h = (λ j. refl, refl)
lane_answer-LaneSettled lane conflict q r h = (λ j. refl, refl)
lane_answer-LaneSettled lane (gives new) q r h =
    (λ j. update_lem r j (assign_issue new (h r)) h, refl)

lane_answer_requests :
    (a : Answer) (q : Sent) (r : Ref) (h : Heap) → (lane_answer a q r h).requests ≡ q ∷ []
lane_answer_requests (refuses m) q r h = refl
lane_answer_requests conflict q r h = refl
lane_answer_requests (gives new) q r h = refl

-- A card that is dropped on a lane of another release, by a user who may edit issues and while no other
-- handler runs: one request is sent, for the issue with the lane's release. The issue becomes the
-- server's answer, and nothing else changes; if the server refuses, nothing changes at all.
pub lane_drop-LaneSettled :
    (answer : Sent → Answer) (user : Option User) (lane : Option ℕ) (card : ℕ) (issues : List Ref)
    (h : Heap) (r : Ref)
    → user_can user update_issue ≡ true
    → find_issue h issues card ≡ some r
    → opt_eq (h r).release_id lane ≡ false
    → let q = put_issue (h r).project_id (with_release_id lane (h r)) in
      let d = lane_drop answer (λ (k : Heap). k) user lane (some card) issues h in
      (d.requests ≡ q ∷ []) × LaneSettled lane r h (answer q) d
unfolding lane_drop
lane_drop-LaneSettled answer user lane card issues h r may found other =
    let q = put_issue (h r).project_id (with_release_id lane (h r)) in
    rw (may, found, other)
      (lane_answer_requests (answer q) q r h, lane_answer-LaneSettled lane (answer q) q r h)
