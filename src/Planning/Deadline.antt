-- ===== src/Planning/Deadline.antt =====
-- The effective deadline is the earliest of those that count.
use wuflow.Base.{
  ℕ, ◌≤◌, Bool, true, false, Option, none, some, List, [], ◌∷◌, ◌++◌, ltb, includes,
  includes-append, All, All-append, All-map, ==_refl, ◌≡◌, refl, sym, subst, Bool-cases, inl, inr,
  arith,
}
use mathlib.Core.List.{append-nil, append_assoc}
use wuflow.Model.{Issue, Task}
use wuflow.Planning.{Info, own_info, task_info, tasks_info, get_effective_deadline_info}

-- The deadlines that count: the issue's own, and those of its open tasks.
abbrev pub listed : Option ℕ → List ℕ
listed none = []
listed (some d) = d ∷ []

abbrev pub open_deadline : Bool → Option ℕ → List ℕ
open_deadline true deadline = []
open_deadline false deadline = listed deadline

abbrev pub open_deadlines : List Task → List ℕ
open_deadlines [] = []
open_deadlines (t ∷ ts) = open_deadline t.done t.deadline ++ open_deadlines ts

abbrev pub deadlines_of : Issue → List ℕ
deadlines_of i = listed i.deadline ++ open_deadlines i.tasks

-- One of the deadlines, and none is earlier; or there is none.
abbrev pub Earliest : List ℕ → Option Info → Type 0
Earliest ds none = ds ≡ []
Earliest ds (some info) = (includes ds info.date ≡ true) × All (λ d. info.date ≤ d) ds

own_info-Earliest : (deadline : Option ℕ) → Earliest (listed deadline) (own_info deadline)
own_info-Earliest none = refl
own_info-Earliest (some d) = (ground (arith, ==_refl d), (omega arith, tt))

task_info-Earliest :
    (done : Bool) (deadline : Option ℕ) (ds : List ℕ) (info : Option Info)
    → Earliest ds info
    → Earliest (ds ++ open_deadline done deadline) (task_info done deadline info)
task_info-Earliest true deadline ds info e =
    subst (λ (es : List ℕ). Earliest es info) (sym (append-nil ds)) e
task_info-Earliest false none ds info e =
    subst (λ (es : List ℕ). Earliest es info) (sym (append-nil ds)) e
task_info-Earliest false (some d) ds none e = rw e (ground (arith, ==_refl d), (omega arith, tt))
task_info-Earliest false (some d) ds (some info) (i, a) = elim (Bool-cases (ltb d info.date)) [
  | inl t ↦
      let before : d ≤ info.date = ground arith in
      rw t (
        ground (arith, includes-append ds (d ∷ []) d, ==_refl d),
        All-append _ ds (d ∷ []) (All-map _ _ ds (λ x h. omega arith) a) (omega arith, tt),
      )
  | inr t ↦
      let not_before : info.date ≤ d = ground arith in
      rw t (
        ground (arith, includes-append ds (d ∷ []) info.date),
        All-append _ ds (d ∷ []) a (omega arith, tt),
      )
]

tasks_info-Earliest :
    (ts : List Task) (ds : List ℕ) (info : Option Info)
    → Earliest ds info
    → Earliest (ds ++ open_deadlines ts) (tasks_info ts info)
tasks_info-Earliest [] ds info e = subst (λ (es : List ℕ). Earliest es info) (sym (append-nil ds)) e
tasks_info-Earliest (t ∷ ts) ds info e =
    subst (λ (es : List ℕ). Earliest es (tasks_info (t ∷ ts) info))
      (append_assoc ds (open_deadline t.done t.deadline) (open_deadlines ts))
      (tasks_info-Earliest ts (ds ++ open_deadline t.done t.deadline)
        (task_info t.done t.deadline info) (task_info-Earliest t.done t.deadline ds info e))

-- The effective deadline of an issue is one of its own deadline and those of its open tasks, and none
-- of these is earlier; there is no effective deadline only if there are none of these.
pub get_effective_deadline_info-Earliest :
    (i : Issue) → Earliest (deadlines_of i) (get_effective_deadline_info i)
unfolding get_effective_deadline_info
get_effective_deadline_info-Earliest i =
    tasks_info-Earliest i.tasks (listed i.deadline) (own_info i.deadline)
      (own_info-Earliest i.deadline)
