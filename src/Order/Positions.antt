-- ===== src/Order/Positions.antt =====
-- What a saved reorder sends and leaves.
use wuflow.Base.{
  ℕ, suc, true, false, not, Option, none, some, List, [], ◌∷◌, map, ◌==◌, ◌≡◌, refl, sym, ap, subst,
  ◌∙◌, ◌⊎◌, inl, inr, if◌then◌else◌, arith, Bool-cases, ==_iff, ==_refl, includes, Distinct, String,
  filter_by, All,
}
use wuflow.Model.{Issue, status_eq_refl}
use wuflow.Store.{Ref, Heap, Sent, put_positions, update, update_lem}
use wuflow.Order.{
  Change, assign, apply_order_change, Surroundings, finish, wait, send_order, first_failure,
  order_requests, positions, status_changed, entry, save_issue_order, renumber, save_changes,
  update_positions,
}
use wuflow.Order.Rollback.{IsQuiet}

-- The issue at `j` once the list has been numbered from `n`.
abbrev pub numbered : ℕ → List Ref → Ref → Issue → Issue
numbered n [] j x = x
numbered n (r ∷ rs) j x = if r == j then assign x.status n x else numbered (suc n) rs j x

-- The references whose position is not their place in the list, with that place.
abbrev pub moved : ℕ → List Ref → Heap → List (Ref × ℕ)
moved n [] h = []
moved n (r ∷ rs) h = if (h r).position == n then moved (suc n) rs h else (r, n) ∷ moved (suc n) rs h

-- One request for all of them, or none.
abbrev pub order_request : Heap → List (Ref × ℕ) → List Sent
order_request h [] = []
order_request h ((r, n) ∷ ms) =
    put_positions (h r).project_id (map (λ m. ((h m.0).id, m.1)) ((r, n) ∷ ms)) ∷ []

numbered_absent :
    (n : ℕ) (rs : List Ref) (j : Ref) (x : Issue) → includes rs j ≡ false → numbered n rs j x ≡ x
numbered_absent n [] j x a = refl
numbered_absent n (r ∷ rs) j x a = ground (arith, numbered_absent (suc n) rs j x)

assign_same : (x : Issue) (n : ℕ) → x.position ≡ n → assign x.status n x ≡ x
assign_same x n p = λ i. assign x.status (sym p i) x

renumber-numbered :
    (n : ℕ) (rs : List Ref) (h : Heap) (j : Ref)
    → Distinct rs
    → (renumber n rs h).1 j ≡ numbered n rs j (h j)
unfolding renumber
renumber-numbered n [] h j d = refl
renumber-numbered n (r ∷ rs) h j (a, d) = elim (Bool-cases ((h r).position == n)) [
  | inl t ↦ rw t (renumber-numbered (suc n) rs h j d ∙ kept (Bool-cases (r == j)) t)
  | inr t ↦ rw t (
      renumber-numbered (suc n) rs (update r (assign (h r).status n (h r)) h) j d
      ∙ changed (Bool-cases (r == j)))
]
  where
    kept :
        ((r == j) ≡ true) ⊎ ((r == j) ≡ false)
        → ((h r).position == n) ≡ true
        → numbered (suc n) rs j (h j) ≡ numbered n (r ∷ rs) j (h j)
    kept (inl t) k =
        subst (λ (i : Ref). numbered (suc n) rs i (h i) ≡ numbered n (r ∷ rs) i (h i))
          ((==_iff r j).0 t)
          (rw (==_refl r)
            (numbered_absent (suc n) rs r (h r) a ∙ sym (assign_same (h r) n ((==_iff _ _).0 k))))
    kept (inr t) k = rw t

    changed :
        ((r == j) ≡ true) ⊎ ((r == j) ≡ false)
        → numbered (suc n) rs j (update r (assign (h r).status n (h r)) h j)
          ≡ numbered n (r ∷ rs) j (h j)
    changed (inl t) =
        subst
          (λ (i : Ref).
            numbered (suc n) rs i (update r (assign (h r).status n (h r)) h i)
            ≡ numbered n (r ∷ rs) i (h i))
          ((==_iff r j).0 t) (rw (update_lem, ==_refl r) (numbered_absent (suc n) rs r _ a))
    changed (inr t) = rw (update_lem, t)

status-update :
    (r j : Ref) (n : ℕ) (h : Heap)
    → (update r (assign (h r).status n (h r)) h j).status ≡ (h j).status
status-update r j n h = elim (Bool-cases (r == j)) [
  | inl t ↦ rw (update_lem, t) (ap (λ (i : Ref). (h i).status) ((==_iff r j).0 t))
  | inr t ↦ rw (update_lem, t)
]

-- No status changes: neither in the heap nor against what a change remembers.
renumber-status :
    (n : ℕ) (rs : List Ref) (h : Heap) (j : Ref) → ((renumber n rs h).1 j).status ≡ (h j).status
unfolding renumber
renumber-status n [] h j = refl
renumber-status n (r ∷ rs) h j = elim (Bool-cases ((h r).position == n)) [
  | inl t ↦ rw t (renumber-status (suc n) rs h j)
  | inr t ↦ rw t (
      renumber-status (suc n) rs (update r (assign (h r).status n (h r)) h) j
      ∙ status-update r j n h)
]

abbrev OnlyMoves : Heap → List Change → Type 0
OnlyMoves g = All (λ c. (g c.issue).status ≡ c.previous_status)

renumber-OnlyMoves :
    (n : ℕ) (rs : List Ref) (h g : Heap)
    → ((j : Ref) → (g j).status ≡ (h j).status)
    → OnlyMoves g (renumber n rs h).0
unfolding renumber
renumber-OnlyMoves n [] h g same = tt
renumber-OnlyMoves n (r ∷ rs) h g same = elim (Bool-cases ((h r).position == n)) [
  | inl t ↦ rw t (renumber-OnlyMoves (suc n) rs h g same)
  | inr t ↦
      let h' = (apply_order_change r (h r).status n h).1 in
      rw t (same r, renumber-OnlyMoves (suc n) rs h' g (λ j. same j ∙ sym (status-update r j n h)))
]

module _ (g : Heap) where
  no_edits : (cs : List Change) → OnlyMoves g cs → filter_by (status_changed g) cs ≡ []
  no_edits [] m = refl
  no_edits (c ∷ cs) (e, m) = rw (e, status_eq_refl c.previous_status) (no_edits cs m)

  all_moves :
      (cs : List Change) → OnlyMoves g cs → filter_by (λ c. not (status_changed g c)) cs ≡ cs
  all_moves [] m = refl
  all_moves (c ∷ cs) (e, m) = rw (e, status_eq_refl c.previous_status) (ap (c ∷◌) (all_moves cs m))

-- Two heaps agree on a list.
abbrev Agree : Heap → Heap → List Ref → Type 0
Agree h k = All (λ r. h r ≡ k r)

Agree-update :
    (r : Ref) (x y : Issue) (h k : Heap) (rs : List Ref)
    → x ≡ y
    → Agree h k rs
    → Agree (update r x h) (update r y k) rs
Agree-update r x y h k [] e es = tt
Agree-update r x y h k (j ∷ js) e (here, es) = (at_head, Agree-update r x y h k js e es)
  where
    at_head : update r x h j ≡ update r y k j
    at_head = elim (Bool-cases (r == j)) [
      | inl t ↦ rw (update_lem, update_lem, t) e
      | inr t ↦ rw (update_lem, update_lem, t) here
    ]

Agree-absent :
    (r : Ref) (x : Issue) (h : Heap) (rs : List Ref)
    → includes rs r ≡ false
    → Agree (update r x h) h rs
Agree-absent r x h [] a = tt
Agree-absent r x h (j ∷ js) a =
    let apart : (r == j) ≡ false = ground arith in
    (rw (update_lem, apart), Agree-absent r x h js (ground arith))

renumber-Agree :
    (n : ℕ) (rs : List Ref) (h k : Heap) → Agree h k rs → (renumber n rs h).0 ≡ (renumber n rs k).0
unfolding renumber
renumber-Agree n [] h k es = refl
renumber-Agree n (r ∷ rs) h k (e, es) = elim (Bool-cases ((h r).position == n)) [
  | inl t ↦
      let t' : ((k r).position == n) ≡ true = subst (λ (x : Issue). (x.position == n) ≡ true) e t in
      rw (t, t') (renumber-Agree (suc n) rs h k es)
  | inr t ↦
      let t' : ((k r).position == n) ≡ false =
        subst (λ (x : Issue). (x.position == n) ≡ false) e t in
      let rest =
        renumber-Agree (suc n) rs (update r (assign (h r).status n (h r)) h)
          (update r (assign (k r).status n (k r)) k)
          (Agree-update r _ _ h k rs (ap (λ (x : Issue). assign x.status n x) e) es) in
      rw (t, t')
        (λ i.
          record { issue = r; previous_status = (e i).status; previous_position = (e i).position }
          ∷ rest i)
]

-- The entries of the request, read from the heap after the loop.
entries-moved :
    (n : ℕ) (rs : List Ref) (h g : Heap)
    → Distinct rs
    → ((j : Ref) → includes rs j ≡ true → g j ≡ numbered n rs j (h j))
    → map (entry g) (renumber n rs h).0 ≡ map (λ m. ((h m.0).id, m.1)) (moved n rs h)
unfolding renumber
entries-moved n [] h g d same = refl
entries-moved n (r ∷ rs) h g (a, d) same = elim (Bool-cases ((h r).position == n)) [
  | inl t ↦ rw t (entries-moved (suc n) rs h g d below)
  | inr t ↦
      let h' = update r (assign (h r).status n (h r)) h in
      let rest =
        ap (map (entry g))
          (renumber-Agree (suc n) rs h' h (Agree-absent r (assign (h r).status n (h r)) h rs a))
        ∙ entries-moved (suc n) rs h g d below in
      rw t (λ i. ((at_r i).id, (at_r i).position) ∷ rest i)
]
  where
    at_r : g r ≡ assign (h r).status n (h r)
    at_r = same r (rw (==_refl r) refl) ∙ rw (==_refl r) refl

    below : (j : Ref) → includes rs j ≡ true → g j ≡ numbered (suc n) rs j (h j)
    below j i = elim (Bool-cases (r == j)) [
      | inl t ↦
          let a' : includes rs j ≡ false =
            subst (λ (k : Ref). includes rs k ≡ false) ((==_iff r j).0 t) a in
          cc
      | inr t ↦ same j (rw t i) ∙ rw t refl
    ]

-- The first change, if there is one, is of the first moved issue.
abbrev first_ref : List Change → Option Ref
first_ref [] = none
first_ref (c ∷ _) = some c.issue

abbrev first_moved : List (Ref × ℕ) → Option Ref
first_moved [] = none
first_moved (m ∷ _) = some m.0

first_ref-renumber :
    (n : ℕ) (rs : List Ref) (h : Heap) → first_ref (renumber n rs h).0 ≡ first_moved (moved n rs h)
unfolding renumber
first_ref-renumber n [] h = refl
first_ref-renumber n (r ∷ rs) h = elim (Bool-cases ((h r).position == n)) [
  | inl t ↦ rw t (first_ref-renumber (suc n) rs h)
  | inr t ↦ rw t
]

finish_lem :
    (o : Option String) (cs : List Change) (qs : List Sent) (h : Heap)
    → ((finish o cs qs h).requests ≡ qs)
      × ((finish o cs qs h).failure ≡ o)
      × ((finish o cs qs h).failure ≡ none → (finish o cs qs h).heap ≡ h)
finish_lem none cs qs h = (refl, refl, λ _. refl)
finish_lem (some m) cs qs h = (refl, refl, λ e. cc)

wait_quiet :
    (meanwhile : Heap → Heap) (qs : List Sent) (h : Heap)
    → ((k : Heap) → meanwhile k ≡ k)
    → wait meanwhile qs h ≡ h
wait_quiet meanwhile [] h q = refl
wait_quiet meanwhile (_ ∷ _) h q = q h

-- What the save of pure moves asks for, and what it leaves if the server takes it.
module _ (s : Surroundings) (h g : Heap) (q : IsQuiet s)
    (p : (j : Ref) → (g j).project_id ≡ (h j).project_id) where
  order_requests-moves :
      (c : Change) (cs : List Change) (x : Ref × ℕ) (ms : List (Ref × ℕ))
      → OnlyMoves g (c ∷ cs)
      → map (entry g) (c ∷ cs) ≡ map (λ m. ((h m.0).id, m.1)) (x ∷ ms)
      → c.issue ≡ x.0
      → order_requests g (c ∷ cs) (positions g (c ∷ cs)) ≡ order_request h (x ∷ ms)
  order_requests-moves c cs x ms m e f =
      let project : (g c.issue).project_id ≡ (h x.0).project_id =
        p c.issue ∙ ap (λ (r : Ref). (h r).project_id) f in
      ap (order_requests g (c ∷ cs)) (ap (map (entry g)) (all_moves g (c ∷ cs) m) ∙ e)
      ∙ (λ i. put_positions (project i) (map (λ m. ((h m.0).id, m.1)) (x ∷ ms)) ∷ [])

  save_changes-moves :
      (cs : List Change) (ms : List (Ref × ℕ))
      → OnlyMoves g cs
      → map (entry g) cs ≡ map (λ m. ((h m.0).id, m.1)) ms
      → first_ref cs ≡ first_moved ms
      → ((save_changes s cs g).requests ≡ order_request h ms)
        × ((save_changes s cs g).failure ≡ first_failure s.answer (order_request h ms))
        × ((save_changes s cs g).failure ≡ none → (save_changes s cs g).heap ≡ g)
  unfolding save_changes save_issue_order
  save_changes-moves [] [] m e f = (refl, refl, λ _. refl)
  save_changes-moves [] (x ∷ ms) m e f = cc
  save_changes-moves (c ∷ cs) [] m e f = cc
  save_changes-moves (c ∷ cs) (x ∷ ms) m e f = rw (no_edits g (c ∷ cs) m) (
      subst
        (λ (k : Heap).
          let done = send_order s (c ∷ cs) [] k in
          (done.requests ≡ order_request h (x ∷ ms))
          × (done.failure ≡ first_failure s.answer (order_request h (x ∷ ms)))
          × (done.failure ≡ none → done.heap ≡ g))
        (sym (q.0 g))
        (requests ∙ same, failure ∙ ap (first_failure s.answer) same, λ n. heap n ∙ quiet))
    where
      order : List Sent
      order = order_requests g (c ∷ cs) (positions g (c ∷ cs))

      same : order ≡ order_request h (x ∷ ms)
      same = order_requests-moves c cs x ms m e (cc f)

      quiet : wait s.while_ordering order g ≡ g
      quiet = wait_quiet s.while_ordering order g q.1

      open (finish_lem
          (first_failure s.answer order)
          (c ∷ cs)
          order
          (wait s.while_ordering order g)) use {«0» as requests, «1» as failure, «2» as heap}

numbered-project :
    (n : ℕ) (rs : List Ref) (j : Ref) (x : Issue) → (numbered n rs j x).project_id ≡ x.project_id
numbered-project n [] j x = refl
numbered-project n (r ∷ rs) j x = elim (Bool-cases (r == j)) [
  | inl t ↦ rw t
  | inr t ↦ rw t (numbered-project (suc n) rs j x)
]

-- A new order of a list that names no issue twice, saved while no other handler runs: one request
-- holds exactly the issues whose position is not their place in the list, and there is none if
-- there are none; the save fails just if the server refuses that request; and if it does not fail,
-- every listed issue has its place as its position, and nothing else has changed.
pub update_positions-numbered :
    (s : Surroundings) (rs : List Ref) (h : Heap)
    → IsQuiet s
    → Distinct rs
    → ((update_positions s rs h).requests ≡ order_request h (moved 0 rs h))
      × ((update_positions s rs h).failure
          ≡ first_failure s.answer (order_request h (moved 0 rs h)))
      × ((update_positions s rs h).failure ≡ none
          → (j : Ref) → (update_positions s rs h).heap j ≡ numbered 0 rs j (h j))
unfolding update_positions
update_positions-numbered s rs h q d =
    (saves.0, saves.1, λ n j. ap (λ (k : Heap). k j) (saves.2 n) ∙ renumber-numbered 0 rs h j d)
  where
    changes : List Change
    changes = (renumber 0 rs h).0

    h' : Heap
    h' = (renumber 0 rs h).1

    saves :
        ((save_changes s changes h').requests ≡ order_request h (moved 0 rs h))
        × ((save_changes s changes h').failure
            ≡ first_failure s.answer (order_request h (moved 0 rs h)))
        × ((save_changes s changes h').failure ≡ none → (save_changes s changes h').heap ≡ h')
    saves =
        save_changes-moves s h h' q
          (λ j.
            ap (λ (x : Issue). x.project_id) (renumber-numbered 0 rs h j d)
            ∙ numbered-project 0 rs j (h j))
          changes (moved 0 rs h) (renumber-OnlyMoves 0 rs h h' (renumber-status 0 rs h))
          (entries-moved 0 rs h h' d (λ j _. renumber-numbered 0 rs h j d))
          (first_ref-renumber 0 rs h)
