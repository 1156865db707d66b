-- ===== src/IssueLists/Laws/AnyOrder.antt =====
-- One load of a view with one list: its answers, in whatever order they come.
use wuflow.Base.{
  ℕ, suc, Bool, true, false, ◌||◌, some, List, [], ◌∷◌, map, ◌==◌, ==_refl, any, ◌≡◌, refl, ap,
  subst, ◌∙◌, ◌⊎◌, inl, inr, arith,
}
use wuflow.Model.{Issue}
use wuflow.IssueLists.{
  Kind, open_issues, archived_issues, fetching, loaded, waiting, Cache, merge_into, load_issues,
  active_settles, list_settles, list_goes_on, Event, active_answer, list_answer, list_merge, step,
  play,
}

-- What can happen: the active issues arrive, the list arrives, or the list tries to go on.
pub data Arrival : Type 0 where
  active_arrives list_arrives list_continues : Arrival

abbrev pub is_active : Arrival → Bool
is_active active_arrives = true
is_active _ = false

abbrev pub is_list : Arrival → Bool
is_list list_arrives = true
is_list _ = false

-- Whether one of the arrivals was there before, or is among these.
seen : (Arrival → Bool) → Bool → List Arrival → Bool
seen p a [] = a
seen p a (e ∷ es) = seen p (a || p e) es

seen-any : (p : Arrival → Bool) (a : Bool) (es : List Arrival) → seen p a es ≡ (a || any p es)
unfolding seen
seen-any p a [] = ground arith
seen-any p a (e ∷ es) = ground (arith, seen-any p (a || p e) es)

module _ (g n : ℕ) (active listed : List Issue) where
  abbrev pub event_of : Arrival → Event
  event_of active_arrives = active_answer g (some active)
  event_of list_arrives = list_answer n (some listed)
  event_of list_continues = list_merge n

  -- Where the load stands once the active issues, or the list, or both have arrived.
  abbrev Stage : Bool → Bool → Cache → Type 0
  Stage false false c = (c.awaited g ≡ true) × ((c.loads n).phase ≡ fetching)
  Stage false true c = (c.awaited g ≡ true) × ((c.loads n).phase ≡ waiting listed)
  Stage true false c =
      (c.awaited g ≡ false) × (((c.loads n).phase ≡ fetching) × (c.issues ≡ active))
  Stage true true c =
      (c.awaited g ≡ false)
      × ((((c.loads n).phase ≡ waiting listed) × (c.issues ≡ active))
          ⊎ (((c.loads n).phase ≡ loaded) × (c.issues ≡ merge_into active listed)))

  abbrev Current : Cache → Type 0
  Current c = (c.generation ≡ g) × ((c.loads n).generation ≡ g)

  current : (c : Cache) → c.generation ≡ g → (g == c.generation) ≡ true
  current c x = rw x (==_refl g)

  step-Stage :
      (e : Arrival) (a l : Bool) (c : Cache)
      → Current c
      → Stage a l c
      → Current (step (event_of e) c)
        × Stage (a || is_active e) (l || is_list e) (step (event_of e) c)
  unfolding step active_settles list_settles list_goes_on
  step-Stage active_arrives false false c (x, y) (w, p) =
      rw (w, current c x) ((x, y), (rw (==_refl g) refl, (p, refl)))
  step-Stage active_arrives false true c (x, y) (w, p) =
      rw (w, current c x) ((x, y), (rw (==_refl g) refl, inl (p, refl)))
  step-Stage active_arrives true false c (x, y) (w, p) = rw w ((x, y), (w, p))
  step-Stage active_arrives true true c (x, y) (w, p) = rw w ((x, y), (w, p))
  step-Stage list_arrives false false c (x, y) (w, p) = rw p (rw (==_refl n) ((x, y), (w, refl)))
  step-Stage list_arrives false true c (x, y) (w, p) = rw p ((x, y), (w, p))
  step-Stage list_arrives true false c (x, y) (w, (p, q)) =
      rw p (rw (==_refl n) ((x, y), (w, inl (refl, q))))
  step-Stage list_arrives true true c (x, y) (w, inl (p, q)) = rw p ((x, y), (w, inl (p, q)))
  step-Stage list_arrives true true c (x, y) (w, inr (p, q)) = rw p ((x, y), (w, inr (p, q)))
  step-Stage list_continues false false c (x, y) (w, p) = rw p ((x, y), (w, p))
  step-Stage list_continues false true c (x, y) (w, p) = rw (p, y, w) ((x, y), (w, p))
  step-Stage list_continues true false c (x, y) (w, (p, q)) = rw p ((x, y), (w, (p, q)))
  step-Stage list_continues true true c (x, y) (w, inl (p, q)) =
      rw (p, y, w)
        (rw (current c x) (
          (x, rw (==_refl n) refl),
          (w, inr (rw (==_refl n) refl, ap (λ (is : List Issue). merge_into is listed) q)),
        ))
  step-Stage list_continues true true c (x, y) (w, inr (p, q)) = rw p ((x, y), (w, inr (p, q)))

  play-Stage :
      (es : List Arrival) (a l : Bool) (c : Cache)
      → Current c
      → Stage a l c
      → let c' = play (map event_of es) c in
        Current c' × Stage (seen is_active a es) (seen is_list l es) c'
  unfolding play seen
  play-Stage [] a l c k s = (k, s)
  play-Stage (e ∷ es) a l c k s =
      let (k', s') = step-Stage e a l c k s in play-Stage es _ _ (step (event_of e) c) k' s'

  both_there : (a l : Bool) (c : Cache) → a ≡ true → l ≡ true → Stage a l c → Stage true true c
  both_there a l c e f s =
      subst (λ (b : Bool). Stage b true c) e (subst (λ (b : Bool). Stage a b c) f s)

  merged_last :
      (c : Cache)
      → Current c
      → Stage true true c
      → (step (list_merge n) c).issues ≡ merge_into active listed
  unfolding step list_goes_on
  merged_last c (x, y) (w, inl (p, q)) =
      rw (p, y, w) (rw (current c x) (ap (λ (is : List Issue). merge_into is listed) q))
  merged_last c (x, y) (w, inr (p, q)) = rw p q

-- The start of the load.
started :
    (kind : Kind) (c : Cache) (active listed : List Issue)
    → let c' = load_issues (kind ∷ []) c in
      Current (suc c.generation) c.next active listed c'
      × Stage (suc c.generation) c.next active listed false false c'
unfolding load_issues
started open_issues c active listed = (
  (refl, rw (==_refl c.next) refl),
  (rw (==_refl (suc c.generation)) refl, rw (==_refl c.next) refl),
)
started archived_issues c active listed = (
  (refl, rw (==_refl c.next) refl),
  (rw (==_refl (suc c.generation)) refl, rw (==_refl c.next) refl),
)

-- A view that needs one list besides the active issues: however the two answers are ordered, however
-- often either comes again, and however often the list has tried to go on, once both are there the
-- page shows the active issues and those of the list that are not among them.
pub load_issues-any_order :
    (kind : Kind) (c : Cache) (active listed : List Issue) (es : List Arrival)
    → any is_active es ≡ true
    → any is_list es ≡ true
    → (step (list_merge c.next) (
        play
          (map (event_of (suc c.generation) c.next active listed) es)
          (load_issues (kind ∷ []) c))).issues
      ≡ merge_into active listed
load_issues-any_order kind c active listed es a l =
    let (k, s) = started kind c active listed in
    let (k', s') = play-Stage (suc c.generation) c.next active listed es false false _ k s in
    merged_last (suc c.generation) c.next active listed _ k' (
      both_there (suc c.generation) c.next active listed (seen is_active false es)
        (seen is_list false es) _ (seen-any is_active false es ∙ a) (seen-any is_list false es ∙ l)
        s')
