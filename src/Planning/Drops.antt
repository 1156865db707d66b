-- ===== src/Planning/Drops.antt =====
-- What a drop on the plan, and the removal of a day, leave behind.
use wuflow.Base.{
  ℕ, String, true, false, not, ◌&&◌, ◌||◌, Option, none, some, List, [], ◌∷◌, ◌==◌, ==_refl, opt_eq,
  if◌then◌else◌, includes, find, Distinct, SortedBy, ◌≡◌, refl, sym, ap, subst, ◌∙◌, Bool-cases,
  inl, inr,
}
use wuflow.Model.{Issue, User}
use wuflow.Store.{Ref, Heap, update, update_lem, put_issue}
use wuflow.Permissions.{update_issue, user_can}
use wuflow.Order.{Surroundings}
use wuflow.Order.Rollback.{IsQuiet}
use wuflow.View.{Effect, rerender, refresh, toast, Callbacks}
use wuflow.Edit.{Edited}
use wuflow.Edit.Laws.{EditSettled, button-EditSettled}
use wuflow.Planning.Dates.{moved_dates-includes}
use wuflow.Drop.{find_issue}
use wuflow.Planning.{
  Card, moved_dates, with_dates, without_day, drop_ends, plan, process_dropped_card,
  handle_planning_drop, remove_planned_day,
}

-- The issue has its new days, and one request for it is sent.
abbrev Planned : Callbacks → Ref → (Issue → Issue) → Heap → Surroundings → Edited → Type 0
Planned cb r edit h s d =
    (d.requests ≡ put_issue (h r).project_id (edit (h r)) ∷ [])
    × (((j : Ref) → d.heap j ≡ (if r == j then edit (h r) else h j))
        × (d.effects ≡ drop_ends cb (s.answer (put_issue (h r).project_id (edit (h r))))))

plan-Planned :
    (s : Surroundings) (cb : Callbacks) (source : Option ℕ) (target : ℕ) (r : Ref) (h : Heap)
    → IsQuiet s
    → Planned cb r
        (with_dates (moved_dates source target (h r).planned_dates))
        h
        s
        (plan s cb source target r h)
plan-Planned s cb source target r h quiet =
    let edit = with_dates (moved_dates source target (h r).planned_dates) in
    let h' = update r (edit (h r)) h in
    let same : h' r ≡ edit (h r) = rw (update_lem, ==_refl r) in
    (
      ap (λ (x : Issue). put_issue x.project_id x ∷ []) same,
      (
        λ j. ap (λ (k : Heap). k j) (quiet.0 h') ∙ update_lem r j (edit (h r)) h,
        ap (λ (x : Issue). drop_ends cb (s.answer (put_issue x.project_id x))) same,
      ),
    )

-- The issue that a drop plans, with the day that its card comes from and the day that it goes to: a card is
-- dragged to a day, there is an issue with its id, that is not planned on the day yet, and the user may
-- edit issues.
abbrev planned_from : Option User → Option ℕ → ℕ → Heap → Option Ref → Option (Ref × (Option ℕ × ℕ))
planned_from user source target h none = none
planned_from user source target h (some r) =
    if not (includes (h r).planned_dates target) && user_can user update_issue
    then some (r, (source, target))
    else none

abbrev pub to_plan :
    Option User → Option Card → Option ℕ → List Ref → Heap → Option (Ref × (Option ℕ × ℕ))
to_plan user card none issues h = none
to_plan user none (some target) issues h = none
to_plan user (some card) (some target) issues h =
    planned_from user card.source target h (find (λ (r : Ref). (h r).id == card.id) issues)

-- The days of before, without the source and with the target, in order
abbrev pub AreMoved : Option ℕ → ℕ → List ℕ → List ℕ → Type 0
AreMoved source target old new =
    Distinct new
    × (SortedBy (λ (d : ℕ). d) new
        × ((a : ℕ)
            → includes new a ≡ ((includes old a && not (opt_eq source (some a))) || (target == a))))

abbrev pub Tells : Callbacks → Option String → List Effect → Type 0
Tells cb none effects = effects ≡ (if cb.has_rerender then rerender ∷ [] else [])
Tells cb (some m) effects = effects ≡ toast m ∷ (if cb.has_refresh then refresh ∷ [] else [])

-- By the issue that is planned
abbrev pub Ended : Surroundings → Callbacks → Heap → Edited → Option (Ref × (Option ℕ × ℕ)) → Type 0
Ended s cb h d none = (d.requests ≡ []) × ((d.heap ≡ h) × (d.effects ≡ []))
Ended s cb h d (some (r, (source, target))) =
    (dates : List ℕ) × (AreMoved source target (h r).planned_dates dates
      × (let i = record (h r) { planned_dates = dates } in
          (d.requests ≡ put_issue i.project_id i ∷ [])
          × (((j : Ref) → d.heap j ≡ (if r == j then i else h j))
              × Tells cb (s.answer (put_issue i.project_id i)) d.effects)))

drop_ends-Tells : (cb : Callbacks) (o : Option String) → Tells cb o (drop_ends cb o)
drop_ends-Tells cb none = refl
drop_ends-Tells cb (some m) = refl

module _ (s : Surroundings) (cb : Callbacks) (user : Option User) (h : Heap) (quiet : IsQuiet s)
    (distinct : (r : Ref) → Distinct (h r).planned_dates) where
  plan-Ended :
      (source : Option ℕ) (target : ℕ) (r : Ref)
      → includes (h r).planned_dates target ≡ false
      → Ended s cb h (plan s cb source target r h) (some (r, (source, target)))
  plan-Ended source target r new =
      let dates = moved_dates source target (h r).planned_dates in
      let (sent, (kept, told)) = plan-Planned s cb source target r h quiet in
      (
        dates,
        (
          moved_dates-includes source target (h r).planned_dates (distinct r) new,
          (
            sent,
            (
              kept,
              subst
                  (λ (es : List Effect).
                    Tells cb (s.answer (put_issue (h r).project_id (with_dates dates (h r)))) es)
                  (sym told)
                  (drop_ends-Tells cb
                    (s.answer (put_issue (h r).project_id (with_dates dates (h r))))),
            ),
          ),
        ),
      )

  process-Ended :
      (source : Option ℕ) (target : ℕ) (o : Option Ref)
      → Ended s cb h
          (process_dropped_card s cb user source target o h)
          (planned_from user source target h o)
  process-Ended source target none = (refl, (refl, refl))
  process-Ended source target (some r) = elim (Bool-cases (includes (h r).planned_dates target)) [
    | inl t ↦ rw t (refl, (refl, refl))
    | inr t ↦ elim (Bool-cases (user_can user update_issue)) [
      | inl u ↦ rw (t, u) (plan-Ended source target r t)
      | inr u ↦ rw (t, u) (refl, (refl, refl))
    ]
  ]

-- A card is dropped on the plan, no issue has a day twice, and no other handler runs meanwhile. If the box
-- stands for no day, no card is dragged, there is no issue with its id, the issue is planned on the day
-- already, or the user may not edit issues, nothing is sent, changed or shown. Else the issue has the
-- days of before, without the one that the card comes from and with the new one, in order and none
-- twice; one request is sent, for the issue with these days, and nothing else differs, whatever the
-- server answers; if it refuses, a toast shows the failure and the page is loaded again, else the view
-- is drawn again.
pub handle_planning_drop-Planned :
    (s : Surroundings) (cb : Callbacks) (user : Option User) (card : Option Card)
    (target : Option ℕ) (issues : List Ref) (h : Heap)
    → IsQuiet s
    → ((r : Ref) → Distinct (h r).planned_dates)
    → Ended s cb h
        (handle_planning_drop s cb user card target issues h)
        (to_plan user card target issues h)
unfolding handle_planning_drop
handle_planning_drop-Planned s cb user card none issues h quiet distinct = (refl, (refl, refl))
handle_planning_drop-Planned s cb user none (some target) issues h quiet distinct =
    (refl, (refl, refl))
handle_planning_drop-Planned s cb user (some card) (some target) issues h quiet distinct =
    process-Ended s cb user h quiet distinct card.source target (find_issue h issues card.id)

-- The button of a day of the plan removes that day from its issue, or, if the server refuses, leaves
-- everything as it was and shows the failure. The user may edit issues, and no other handler runs
-- meanwhile.
pub remove_planned_day-EditSettled :
    (s : Surroundings) (cb : Callbacks) (user : Option User) (day : ℕ) (r : Ref) (h : Heap)
    → IsQuiet s
    → user_can user update_issue ≡ true
    → let edit = with_dates (without_day day (h r).planned_dates) in
      EditSettled cb r edit h
        (s.answer (put_issue (h r).project_id (edit (h r))))
        (remove_planned_day s cb user day r h)
unfolding remove_planned_day
remove_planned_day-EditSettled s cb user day r h quiet may = rw may (
    button-EditSettled cb r (with_dates (without_day day (h r).planned_dates))
      (with_dates (h r).planned_dates) h refl s quiet)
