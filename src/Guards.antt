-- ===== src/Guards.antt =====
-- static/js/utils.js: `singleFlight` and `markBusy`, which `guardSubmit` combines so that a save is
-- not sent twice and its field takes no input while it runs.
use wuflow.Base.{
  ℕ, suc, ◌+◌, ◌-◌, ◌≤◌, Bool, true, false, not, Option, none, some, List, [], ◌∷◌, ◌==◌,
  if◌then◌else◌, ◌≡◌, sym, ap, subst, Option-cases, inl, inr, arith,
}

-- `busySaves` of a field, and whether it has its mark and its three listeners.
pub record Field : Type 0 where
  pub saves : ℕ
  pub busy : Bool

-- `markBusy` before and after the save.
unfoldable pub mark_busy : Field → Field
mark_busy f = record { saves = suc f.saves; busy = if f.saves == 0 then true else f.busy }

unfoldable pub unmark_busy : Field → Field
unmark_busy f =
    let left = f.saves - 1 in record { saves = left; busy = if left == 0 then false else f.busy }

-- A save of the field starts, or settles.
pub data Turn : Type 0 where
  starts settles : Turn

abbrev take_turn : Turn → Field → Field
take_turn starts f = mark_busy f
take_turn settles f = unmark_busy f

unfoldable pub take_turns : List Turn → Field → Field
unfolding mark_busy unmark_busy
take_turns [] f = f
take_turns (t ∷ ts) f = take_turns ts (take_turn t f)

-- No more saves settle than are running.
abbrev pub Possible : ℕ → List Turn → Type 0
Possible n [] = Unit
Possible n (starts ∷ ts) = Possible (suc n) ts
Possible n (settles ∷ ts) = (1 ≤ n) × Possible (n - 1) ts

abbrev pub started_of : List Turn → ℕ
started_of [] = 0
started_of (starts ∷ ts) = suc (started_of ts)
started_of (settles ∷ ts) = started_of ts

abbrev pub settled_of : List Turn → ℕ
settled_of [] = 0
settled_of (starts ∷ ts) = settled_of ts
settled_of (settles ∷ ts) = suc (settled_of ts)

-- However the saves of a field overlap, the count is that of the saves that are running, and the field
-- is busy just while there is one.
pub take_turns-busy :
    (ts : List Turn) (f : Field)
    → f.busy ≡ not (f.saves == 0)
    → Possible f.saves ts
    → ((take_turns ts f).saves + settled_of ts ≡ f.saves + started_of ts)
      × ((take_turns ts f).busy ≡ not ((take_turns ts f).saves == 0))
unfolding take_turns
take_turns-busy [] f b p = (omega arith, b)
take_turns-busy (starts ∷ ts) f b p =
    let (n, c) = take_turns-busy ts (mark_busy f) marked p in (omega (arith, n), c)
  where
    marked : (mark_busy f).busy ≡ not ((mark_busy f).saves == 0)
    marked = ground arith
take_turns-busy (settles ∷ ts) f b (l, p) =
    let (n, c) = take_turns-busy ts (unmark_busy f) unmarked p in (omega (arith, n, l), c)
  where
    unmarked : (unmark_busy f).busy ≡ not ((unmark_busy f).saves == 0)
    unmarked = ground arith

-- `inFlight` of a function that `singleFlight` has wrapped, and how often the function was started.
pub record Flight : Type 0 where
  pub in_flight : Option ℕ
  pub started : ℕ

abbrev pub join : Option ℕ → Flight → Flight
join (some n) s = s
join none s = record { in_flight = some s.started; started = suc s.started }

-- A call of the wrapped function, and the end of the run in flight.
unfoldable pub single_flight : Flight → Flight
single_flight s = join s.in_flight s

unfoldable pub flight_ends : Flight → Flight
flight_ends s = record s { in_flight = none }

pub data Step : Type 0 where
  calls ends : Step

abbrev take_step : Step → Flight → Flight
take_step calls s = single_flight s
take_step ends s = flight_ends s

unfoldable pub take_steps : List Step → Flight → Flight
unfolding single_flight flight_ends
take_steps [] s = s
take_steps (e ∷ es) s = take_steps es (take_step e s)

abbrev pub ends_of : List Step → ℕ
ends_of [] = 0
ends_of (calls ∷ es) = ends_of es
ends_of (ends ∷ es) = suc (ends_of es)

abbrev flying : Option ℕ → ℕ
flying none = 0
flying (some _) = 1

flying_le : (o : Option ℕ) → flying o ≤ 1
flying_le none = omega arith
flying_le (some n) = omega arith

by_flight :
    (s : Flight) (es : List Step) {o p : Option ℕ}
    → o ≡ p
    → (take_steps es (join o s)).started + flying o ≤ s.started + (1 + ends_of es)
    → (take_steps es (join p s)).started + flying p ≤ s.started + (1 + ends_of es)
by_flight s es e h =
    subst
      (λ (q : Option ℕ).
        (take_steps es (join q s)).started + flying q ≤ s.started + (1 + ends_of es))
      e h

steps-flying :
    (es : List Step) (s : Flight)
    → (take_steps es s).started + flying s.in_flight ≤ s.started + (1 + ends_of es)
unfolding take_steps
steps-flying [] s = let f = flying_le s.in_flight in omega (arith, f)
steps-flying (calls ∷ es) s = elim (Option-cases s.in_flight) [
  | inl e ↦ let h = steps-flying es (join none s) in by_flight s es (sym e) (omega (arith, h))
  | inr (n, e) ↦
      let h = steps-flying es s in
      let now : flying s.in_flight ≡ 1 = ap flying e in
      by_flight s es (sym e) (omega (arith, h, now))
]
steps-flying (ends ∷ es) s =
    let h = steps-flying es (flight_ends s) in let f = flying_le s.in_flight in omega (arith, h, f)

-- However often the function is called, and whenever its runs end: it is started at most once, and once
-- more for each run that has ended.
pub take_steps-started :
    (es : List Step) (s : Flight) → (take_steps es s).started ≤ s.started + (1 + ends_of es)
take_steps-started es s = let h = steps-flying es s in omega (arith, h)
