-- ===== src/Order/Rollback.antt =====
-- A failed reorder puts every issue back.
use wuflow.Base.{
  ℕ, suc, true, false, Option, none, some, List, [], ◌∷◌, map, ◌==◌, ◌≡◌, refl, ap, subst, ◌∙◌, ◌⊎◌,
  inl, inr, if◌then◌else◌, arith, Bool-cases, ==_iff, ==_refl, includes, Distinct, String,
  filter_by,
}
use wuflow.Model.{Issue}
use wuflow.Store.{Ref, Heap, Sent, update, update_lem}
use wuflow.Order.{
  Change, assign, apply_order_change, Surroundings, restore, finish, wait, after_edits,
  first_failure, put_change, order_requests, positions, status_changed, save_issue_order, renumber,
  save_changes, update_positions,
}

abbrev pub refs : List Change → List Ref
refs = map (λ c. c.issue)

-- What an issue looks like once the changes are taken back, by the first change that names it.
abbrev pub undo : List Change → Ref → Issue → Issue
undo [] j x = x
undo (c ∷ cs) j x =
    if c.issue == j then assign c.previous_status c.previous_position x else undo cs j x

undo_absent :
    (cs : List Change) (j : Ref) (x : Issue) → includes (refs cs) j ≡ false → undo cs j x ≡ x
undo_absent [] j x h = refl
undo_absent (c ∷ cs) j x h = ground (arith, undo_absent cs j x)

-- The loop of the `catch` takes every change back, whatever the heap has become, and touches no
-- other issue and no other field.
pub restore-undo :
    (cs : List Change) (h : Heap) (j : Ref) → Distinct (refs cs) → restore cs h j ≡ undo cs j (h j)
unfolding restore
restore-undo [] h j d = refl
restore-undo (c ∷ cs) h j (n, d) =
    let h' = update c.issue (assign c.previous_status c.previous_position (h c.issue)) h in
    restore-undo cs h' j d ∙ step
  where
    step :
        undo cs j (update c.issue (assign c.previous_status c.previous_position (h c.issue)) h j)
        ≡ undo (c ∷ cs) j (h j)
    step = elim (Bool-cases (c.issue == j)) [
      | inl t ↦
          let e : c.issue ≡ j = (==_iff _ _).0 t in
          let absent : includes (refs cs) j ≡ false =
            subst (λ (k : Ref). includes (refs cs) k ≡ false) e n in
          rw (update_lem, t)
            (undo_absent cs j _ absent
              ∙ ap (λ (k : Ref). assign c.previous_status c.previous_position (h k)) e)
      | inr t ↦ rw (update_lem, t)
    ]

-- What the loop of `updatePositions` does to the heap, reference by reference.
renumber_absent :
    (n : ℕ) (rs : List Ref) (h : Heap) (j : Ref)
    → includes rs j ≡ false
    → ((renumber n rs h).1 j ≡ h j) × (includes (refs (renumber n rs h).0) j ≡ false)
unfolding renumber
renumber_absent n [] h j a = (refl, refl)
renumber_absent n (r ∷ rs) h j a = elim (Bool-cases ((h r).position == n)) [
  | inl t ↦ rw t (renumber_absent (suc n) rs h j (ground arith))
  | inr t ↦
      let h' = (apply_order_change r (h r).status n h).1 in
      let (same, absent) = renumber_absent (suc n) rs h' j (ground arith) in
      let untouched : h' j ≡ h j = ground (arith, update_lem r j (assign (h r).status n (h r)) h) in
      rw t (same ∙ untouched, ground arith)
]

renumber-Distinct :
    (n : ℕ) (rs : List Ref) (h : Heap) → Distinct rs → Distinct (refs (renumber n rs h).0)
unfolding renumber
renumber-Distinct n [] h d = tt
renumber-Distinct n (r ∷ rs) h (a, d) = elim (Bool-cases ((h r).position == n)) [
  | inl t ↦ rw t (renumber-Distinct (suc n) rs h d)
  | inr t ↦
      let h' = (apply_order_change r (h r).status n h).1 in
      rw t ((renumber_absent (suc n) rs h' r a).1, renumber-Distinct (suc n) rs h' d)
]

-- Taking back the changes of the loop gives every issue as it was.
undo-renumber :
    (n : ℕ) (rs : List Ref) (h : Heap) (j : Ref)
    → Distinct rs
    → undo (renumber n rs h).0 j ((renumber n rs h).1 j) ≡ h j
unfolding renumber
undo-renumber n [] h j d = refl
undo-renumber n (r ∷ rs) h j (a, d) = elim (Bool-cases ((h r).position == n)) [
  | inl t ↦ rw t (undo-renumber (suc n) rs h j d)
  | inr t ↦ rw t (changed (Bool-cases (r == j)) (undo-renumber (suc n) rs h' j d))
]
  where
    h' : Heap
    h' = (apply_order_change r (h r).status n h).1

    assigned : (renumber (suc n) rs h').1 r ≡ assign (h r).status n (h r)
    assigned = (renumber_absent (suc n) rs h' r a).0 ∙ rw (update_lem, ==_refl r)

    here :
        undo
          ((apply_order_change r (h r).status n h).0 ∷ (renumber (suc n) rs h').0)
          r
          ((renumber (suc n) rs h').1 r)
        ≡ h r
    here = rw (==_refl r) (ap (assign (h r).status (h r).position) assigned)

    changed :
        ((r == j) ≡ true) ⊎ ((r == j) ≡ false)
        → undo (renumber (suc n) rs h').0 j ((renumber (suc n) rs h').1 j) ≡ h' j
        → undo
            ((apply_order_change r (h r).status n h).0 ∷ (renumber (suc n) rs h').0)
            j
            ((renumber (suc n) rs h').1 j)
          ≡ h j
    changed (inl t) ih =
        subst
          (λ (k : Ref).
            undo ((apply_order_change r (h r).status n h).0 ∷ (renumber (suc n) rs h').0) k
              ((renumber (suc n) rs h').1 k)
            ≡ h k)
          ((==_iff r j).0 t) here
    changed (inr t) ih = rw t (ih ∙ rw (update_lem, t))

finish-undo :
    (o : Option String) (cs : List Change) (qs : List Sent) (h : Heap) (j : Ref) {m : String}
    → Distinct (refs cs)
    → (finish o cs qs h).failure ≡ some m
    → (finish o cs qs h).heap j ≡ undo cs j (h j)
finish-undo none cs qs h j d f = cc
finish-undo (some m) cs qs h j d f = restore-undo cs h j d

wait-cases :
    (meanwhile : Heap → Heap) (qs : List Sent) (h : Heap)
    → (wait meanwhile qs h ≡ h) ⊎ (wait meanwhile qs h ≡ meanwhile h)
wait-cases meanwhile [] h = inl refl
wait-cases meanwhile (_ ∷ _) h = inr refl

-- The heap from which a failure takes the changes back.
pub failed_heap : Surroundings → List Change → Heap → Heap
failed_heap s cs h =
    let edits = map (put_change h) (filter_by (status_changed h) cs) in
    let h' = s.while_saving h in
    elim (first_failure s.answer edits) [
      | some _ ↦ h'
      | none ↦ wait s.while_ordering (order_requests h' cs (positions h' cs)) h'
    ]

-- The changes name no issue twice. A failure of `saveIssueOrder` strikes after its first or after its
-- second wait; every change is
-- taken back from the heap as it is then, whatever other handlers did to it meanwhile: each
-- changed issue has its old status and position, and nothing else differs.
pub save_issue_order-undo :
    (s : Surroundings) (cs : List Change) (h : Heap) {m : String}
    → Distinct (refs cs)
    → (save_issue_order s cs h).failure ≡ some m
    → ((failed_heap s cs h ≡ s.while_saving h)
        ⊎ (failed_heap s cs h ≡ s.while_ordering (s.while_saving h)))
      × ((j : Ref) → (save_issue_order s cs h).heap j ≡ undo cs j (failed_heap s cs h j))
unfolding save_issue_order failed_heap
save_issue_order-undo s cs h d f =
    by_edits (first_failure s.answer (map (put_change h) (filter_by (status_changed h) cs))) f
  where
    h' : Heap
    h' = s.while_saving h

    order : List Sent
    order = order_requests h' cs (positions h' cs)

    edits : List Sent
    edits = map (put_change h) (filter_by (status_changed h) cs)

    by_edits :
        (o : Option String) {m : String}
        → (after_edits o s cs edits h').failure ≡ some m
        → let k : Heap = elim o [ some _ ↦ h' | none ↦ wait s.while_ordering order h' ] in
          ((k ≡ h') ⊎ (k ≡ s.while_ordering h'))
          × ((j : Ref) → (after_edits o s cs edits h').heap j ≡ undo cs j (k j))
    by_edits none f = (
      wait-cases s.while_ordering order h',
      λ j. finish-undo (first_failure s.answer order) cs _ _ j d f,
    )
    by_edits (some m) f = (inl refl, λ j. restore-undo cs h' j d)

-- No other handler runs during the waits.
abbrev pub IsQuiet : Surroundings → Type 0
IsQuiet s = ((h : Heap) → s.while_saving h ≡ h) × ((h : Heap) → s.while_ordering h ≡ h)

pub failed_heap_quiet :
    (s : Surroundings) (cs : List Change) (h : Heap)
    → IsQuiet s
    → ((failed_heap s cs h ≡ s.while_saving h)
        ⊎ (failed_heap s cs h ≡ s.while_ordering (s.while_saving h)))
    → failed_heap s cs h ≡ h
failed_heap_quiet s cs h q (inl e) = e ∙ q.0 h
failed_heap_quiet s cs h q (inr e) = e ∙ q.1 _ ∙ q.0 h

finish_done :
    (o : Option String) (cs : List Change) (qs : List Sent) (h : Heap)
    → (finish o cs qs h).failure ≡ none
    → (finish o cs qs h).heap ≡ h
finish_done none cs qs h f = refl
finish_done (some m) cs qs h f = cc

-- A reorder that does not fail leaves the heap as the waits have left it.
pub save_issue_order-kept :
    (s : Surroundings) (cs : List Change) (h : Heap)
    → IsQuiet s
    → (save_issue_order s cs h).failure ≡ none
    → (save_issue_order s cs h).heap ≡ h
unfolding save_issue_order
save_issue_order-kept s cs h q f =
    by_edits (first_failure s.answer (map (put_change h) (filter_by (status_changed h) cs))) f
  where
    by_edits :
        (o : Option String)
        → (after_edits o s cs
            (map (put_change h) (filter_by (status_changed h) cs))
            (s.while_saving h)).failure
          ≡ none
        → (after_edits o s cs
            (map (put_change h) (filter_by (status_changed h) cs))
            (s.while_saving h)).heap
          ≡ h
    by_edits (some m) f = cc
    by_edits none f =
        let order = order_requests (s.while_saving h) cs (positions (s.while_saving h) cs) in
        finish_done (first_failure s.answer order) cs _
          (wait s.while_ordering order (s.while_saving h)) f
        ∙ quiet_wait order (s.while_saving h)
        ∙ q.0 h
      where
        quiet_wait : (qs : List Sent) (k : Heap) → wait s.while_ordering qs k ≡ k
        quiet_wait [] k = refl
        quiet_wait (_ ∷ _) k = q.1 k

save_changes-undo :
    (s : Surroundings) (cs : List Change) (h : Heap) (j : Ref) {m : String}
    → IsQuiet s
    → Distinct (refs cs)
    → (save_changes s cs h).failure ≡ some m
    → (save_changes s cs h).heap j ≡ undo cs j (h j)
unfolding save_changes
save_changes-undo s [] h j q d f = cc
save_changes-undo s (c ∷ cs) h j q d f =
    let (when_, undone) = save_issue_order-undo s (c ∷ cs) h d f in
    undone j ∙ ap (λ (k : Heap). undo (c ∷ cs) j (k j)) (failed_heap_quiet s (c ∷ cs) h q when_)

-- If a new order cannot be saved and no other handler has run meanwhile, every issue is again
-- exactly as it was before. The list names no issue twice.
pub update_positions-undo :
    (s : Surroundings) (rs : List Ref) (h : Heap) {m : String}
    → IsQuiet s
    → Distinct rs
    → (update_positions s rs h).failure ≡ some m
    → (j : Ref) → (update_positions s rs h).heap j ≡ h j
unfolding update_positions
update_positions-undo s rs h q d f j =
    save_changes-undo s (renumber 0 rs h).0 (renumber 0 rs h).1 j q (renumber-Distinct 0 rs h d) f
    ∙ undo-renumber 0 rs h j d
