-- ===== src/Archiving.antt =====
-- static/js/components/archive.js: which drops of cards the archive view lets through.
use wuflow.Base.{
  ℕ, Bool, true, false, not, ◌&&◌, Option, none, some, List, [], any, is_filled, if◌then◌else◌, ◌≡◌,
  ap, ◌∙◌, Bool-cases, inl, inr, arith,
}
use wuflow.Model.{Issue, Status, archive, status_eq, User, Task}
use wuflow.Permissions.{archive_issue, user_can}
use wuflow.Deadlines.{Archivable, allowed, can_archive}
use wuflow.Store.{Ref, Heap}
use wuflow.Order.{Surroundings}
use wuflow.Drop.{Zone, find_issue, section_drop}
use wuflow.Drop.Section.{lets_through, section_refused}

-- What `validateArchiveDrop` answers, with the dialog that it shows; `blocked` opens the issue too.
pub data Verdict : Type 0 where
  pass stay no_permission : Verdict
  blocked : Archivable → Verdict

abbrev by_check : Archivable → Verdict
by_check allowed = pass
by_check reason = blocked reason

-- `validateArchiveDrop`, for an issue that was found
unfoldable pub validate_archive_drop : Option User → Issue → Status → Verdict
validate_archive_drop user i target =
    if status_eq i.status archive && not (status_eq target archive)
    then stay
    else if status_eq target archive && not (status_eq i.status archive)
    then if user_can user archive_issue then by_check (can_archive (some i)) else no_permission
    else pass

abbrev pub is_pass : Verdict → Bool
is_pass pass = true
is_pass _ = false

-- As `onValidate`. Without an issue it throws, which ends the handler as a refusal does.
abbrev pub archive_validation : Option User → Option Issue → Status → Bool
archive_validation user none target = false
archive_validation user (some i) target = is_pass (validate_archive_drop user i target)

-- The user may archive, all tasks are done, and nothing is planned.
abbrev pub may_be_archived : Option User → Issue → Bool
may_be_archived user i =
    user_can user archive_issue
    && not (any (λ (t : Task). not t.done) i.tasks)
    && not (is_filled i.planned_dates)

validate_archive_drop-archive :
    (user : Option User) (i : Issue)
    → status_eq i.status archive ≡ false
    → archive_validation user (some i) archive ≡ may_be_archived user i
unfolding validate_archive_drop can_archive
validate_archive_drop-archive user i h = elim (Bool-cases (user_can user archive_issue)) [
  | inl t ↦ elim (Bool-cases (any (λ (t : Task). not t.done) i.tasks)) [
    | inl u ↦ rw (h, t, u) (ground arith)
    | inr u ↦ elim (Bool-cases (is_filled i.planned_dates)) [
      | inl v ↦ rw (h, t, u, v) (ground arith)
      | inr v ↦ rw (h, t, u, v) (ground arith)
    ]
  ]
  | inr t ↦ rw (h, t) (ground arith)
]

-- A card of another status dropped on the archive of the archive view is archived only if the user may
-- archive, and the issue has no open tasks and no planned dates; else no request is sent, and no
-- issue changes but by what other handlers do meanwhile.
pub section_drop-archiving :
    (s : Surroundings) (z : Zone) (issues : List Ref) (h : Heap) (r : Ref) (user : Option User)
    {card : ℕ}
    → z.visible ≡ true
    → z.card ≡ some card
    → find_issue h issues card ≡ some r
    → status_eq (h r).status archive ≡ false
    → z.target ≡ archive
    → z.validate ≡ some (archive_validation user)
    → may_be_archived user (h r) ≡ false
    → ((section_drop s z issues h).requests ≡ [])
      × ((section_drop s z issues h).heap ≡ z.while_validating h)
section_drop-archiving s z issues h r user v d f e t a m =
    let refused = section_refused s z issues h r v d f (ap (status_eq (h r).status) t ∙ e) turned in
    (ap (λ p. p.requests) refused, ap (λ p. p.heap) refused)
  where
    turned : lets_through z.validate (h r) z.target ≡ false
    turned = rw (a, t) (validate_archive_drop-archive user (h r) e ∙ m)
