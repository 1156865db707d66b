-- ===== src/IssueLists.antt =====
-- static/js/issue-lists.js: the issues of the selected project, loaded list by list. Promises are
-- named: the load of the active issues by its generation, the load of a list by its number. An
-- event is a call of the module, or what a promise does; any order of events can happen.
pub mod Laws
use wuflow.Base.{
  ℕ, suc, Bool, true, false, not, ◌&&◌, Option, none, some, List, [], ◌∷◌, ◌++◌, map, ◌==◌, opt_eq,
  if◌then◌else◌, filter_by, includes,
}
use wuflow.Model.{Issue}

pub data Kind : Type 0 where
  open_issues archived_issues : Kind

-- Whether a load still fetches, has its issues and awaits the active ones, or has ended.
pub data Phase : Type 0 where
  idle fetching loaded failed : Phase
  waiting : List Issue → Phase

pub record Load : Type 0 where
  pub kind : Kind
  pub generation : ℕ
  pub phase : Phase

-- `generation`, `activeLoad` as the generations whose load has not settled, `lists`, and
-- `state.issues`. `next` is the number of the next load of a list.
pub record Cache : Type 0 where
  pub issues : List Issue
  pub generation : ℕ
  pub awaited : ℕ → Bool
  pub open_list : Option ℕ
  pub archived_list : Option ℕ
  pub loads : ℕ → Load
  pub next : ℕ

abbrev pub set_at {ℓ} : {A : Type ℓ} → ℕ → A → (ℕ → A) → ℕ → A
set_at n a f = λ j. if n == j then a else f j

abbrev pub ids : List Issue → List ℕ
ids is = map (λ (i : Issue). i.id) is

-- `mergeIntoIssues`: `existingIds` is taken before the loop.
unfoldable pub merge_into : List Issue → List Issue → List Issue
merge_into existing new =
    existing ++ filter_by (λ (i : Issue). not (includes (ids existing) i.id)) new

-- `lists[kind]`, and a write to it
abbrev pub list_of : Kind → Cache → Option ℕ
list_of open_issues c = c.open_list
list_of archived_issues c = c.archived_list

abbrev pub set_list : Kind → Option ℕ → Cache → Cache
set_list open_issues l c = record c { open_list = l }
set_list archived_issues l c = record c { archived_list = l }

abbrev start : Kind → Cache → Cache
start kind c = set_list kind (some c.next) (record c {
  loads =
      set_at c.next (record { kind = kind; generation = c.generation; phase = fetching }) c.loads;
  next = suc c.next;
})

abbrev pub ensure_list : Kind → Option ℕ → Cache → Cache
ensure_list kind (some n) c = c
ensure_list kind none c = start kind c

-- `ensureIssueLists`
unfoldable pub ensure_issue_lists : List Kind → Cache → Cache
ensure_issue_lists [] c = c
ensure_issue_lists (kind ∷ kinds) c = ensure_issue_lists kinds (ensure_list kind (list_of kind c) c)

-- `loadIssues`
unfoldable pub load_issues : List Kind → Cache → Cache
unfolding ensure_issue_lists
load_issues kinds c = ensure_issue_lists kinds (record c {
  generation = suc c.generation;
  open_list = none;
  archived_list = none;
  awaited = set_at (suc c.generation) true c.awaited;
})

-- `resetIssueLists`; the promise that it stores is resolved.
unfoldable pub reset_issue_lists : Cache → Cache
reset_issue_lists c = record c {
  generation = suc c.generation;
  open_list = none;
  archived_list = none;
  awaited = set_at (suc c.generation) false c.awaited;
}

-- The load of the active issues of a generation settles: `none` is a failure.
abbrev pub put_active : ℕ → Option (List Issue) → Cache → Cache
put_active g none c = c
put_active g (some is) c = if g == c.generation then record c { issues = is } else c

unfoldable pub active_settles : ℕ → Option (List Issue) → Cache → Cache
active_settles g answer c =
    if c.awaited g then put_active g answer (record c { awaited = set_at g false c.awaited }) else c

abbrev pub set_phase : ℕ → Phase → Cache → Cache
set_phase n phase c = record c { loads = set_at n (record (c.loads n) { phase = phase }) c.loads }

-- `if (lists[kind] === load) delete lists[kind]`
abbrev pub forget_list : ℕ → Kind → Cache → Cache
forget_list n kind c = if opt_eq (list_of kind c) (some n) then set_list kind none c else c

abbrev pub fetch_ends : ℕ → Option (List Issue) → Cache → Cache
fetch_ends n (some is) c = set_phase n (waiting is) c
fetch_ends n none c = forget_list n (c.loads n).kind (set_phase n failed c)

abbrev pub answered : ℕ → Phase → Option (List Issue) → Cache → Cache
answered n fetching answer c = fetch_ends n answer c
answered n phase answer c = c

-- The fetch of a list settles.
unfoldable pub list_settles : ℕ → Option (List Issue) → Cache → Cache
list_settles n answer c = answered n (c.loads n).phase answer c

-- A list whose fetch is done goes on behind `await base`.
abbrev pub merged : ℕ → Phase → Cache → Cache
merged n (waiting is) c =
    if c.awaited (c.loads n).generation
    then c
    else if (c.loads n).generation == c.generation
    then record (set_phase n loaded c) { issues = merge_into c.issues is }
    else set_phase n loaded c
merged n phase c = c

unfoldable pub list_goes_on : ℕ → Cache → Cache
unfolding merge_into
list_goes_on n c = merged n (c.loads n).phase c

pub data Event : Type 0 where
  load : List Kind → Event
  ensure : List Kind → Event
  reset : Event
  active_answer : ℕ → Option (List Issue) → Event
  list_answer : ℕ → Option (List Issue) → Event
  list_merge : ℕ → Event

unfoldable pub step : Event → Cache → Cache
step (load kinds) c = load_issues kinds c
step (ensure kinds) c = ensure_issue_lists kinds c
step reset c = reset_issue_lists c
step (active_answer g a) c = active_settles g a c
step (list_answer n a) c = list_settles n a c
step (list_merge n) c = list_goes_on n c

-- The events of a list, from the first to the last.
unfoldable pub play : List Event → Cache → Cache
unfolding step
play [] c = c
play (e ∷ es) c = play es (step e c)
