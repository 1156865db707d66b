-- ===== src/Tests/Loading.antt =====
-- A backlog whose list of open issues arrives before the active issues.
use wuflow.Base.{false, none, some, List, [], ◌∷◌, map, ◌≡◌, refl}
use wuflow.Model.{Issue, todo, open_}
use wuflow.IssueLists.{
  open_issues, idle, Cache, load_issues, merge_into, load, active_answer, list_answer, list_merge,
  step, play,
}
use wuflow.IssueLists.Laws.{NoDuplicates, play-NoDuplicates}
use wuflow.IssueLists.Laws.AnyOrder.{
  active_arrives, list_arrives, list_continues, event_of, load_issues-any_order,
}
use wuflow.Tests.Data.{issue_at}

-- As the module starts.
abbrev start : Cache
start = record {
  issues = [];
  generation = 0;
  awaited = λ _. false;
  open_list = none;
  archived_list = none;
  loads = λ _. record { kind = open_issues; generation = 0; phase = idle };
  next = 0;
}

-- Issue 1 was moved to Todo between the two answers, so that both have it.
abbrev active : List Issue
active = issue_at todo 1 0 ∷ issue_at todo 2 1 ∷ []

abbrev open_ones : List Issue
open_ones = issue_at open_ 1 0 ∷ issue_at open_ 3 1 ∷ []

load_issues-any_order_example :
    (step (list_merge 0) (
      play
        (map (event_of 1 0 active open_ones) (list_arrives ∷ list_continues ∷ active_arrives ∷ []))
        (load_issues (open_issues ∷ []) start))).issues
    ≡ merge_into active open_ones
load_issues-any_order_example =
    load_issues-any_order open_issues start active open_ones
      (list_arrives ∷ list_continues ∷ active_arrives ∷ []) refl refl

merged_once :
    merge_into active open_ones ≡ issue_at todo 1 0 ∷ issue_at todo 2 1 ∷ issue_at open_ 3 1 ∷ []
unfolding merge_into
merged_once = refl

play-NoDuplicates_example : NoDuplicates (
    play
      (load (open_issues ∷ [])
        ∷ list_answer 0 (some open_ones)
        ∷ active_answer 1 (some active)
        ∷ [])
      start)
play-NoDuplicates_example =
    play-NoDuplicates
      (load (open_issues ∷ [])
        ∷ list_answer 0 (some open_ones)
        ∷ active_answer 1 (some active)
        ∷ [])
      start (tt, ((refl, (refl, tt)), ((refl, (refl, tt)), tt))) (tt, λ n. tt)
