-- ===== src/Edit/Laws.antt =====
-- What the two buttons leave behind, on success and on failure.
use wuflow.Base.{
  Option, none, some, [], ◌∷◌, ◌≡◌, refl, sym, ap, subst, ◌∙◌, Bool-cases, inl, inr, String,
  if◌then◌else◌, ◌==◌, ==_iff, ==_refl,
}
use wuflow.Model.{Issue, User}
use wuflow.Store.{Ref, Heap, put_issue, update, update_lem}
use wuflow.Order.{Surroundings}
use wuflow.Order.Rollback.{IsQuiet}
use wuflow.View.{toast, rerender_if, Callbacks}
use wuflow.Edit.{
  Edited, settle, toggled, with_priority, assigned, handle_toggle_priority, handle_assign_to_me,
}

-- One request for the edited issue; then the issue is edited, or everything is as it was and a
-- toast shows the failure. The view is rendered again either way.
abbrev pub EditSettled : Callbacks → Ref → (Issue → Issue) → Heap → Option String → Edited → Type 0
EditSettled cb r edit h none d =
    (d.requests ≡ put_issue (edit (h r)).project_id (edit (h r)) ∷ [])
    × ((j : Ref) → d.heap j ≡ (if r == j then edit (h r) else h j))
    × (d.effects ≡ rerender_if cb)
EditSettled cb r edit h (some m) d =
    (d.requests ≡ put_issue (edit (h r)).project_id (edit (h r)) ∷ [])
    × ((j : Ref) → d.heap j ≡ h j)
    × (d.effects ≡ toast m ∷ rerender_if cb)

back-update :
    (edit undo : Issue → Issue) (r j : Ref) (h k : Heap)
    → k ≡ update r (edit (h r)) h
    → undo (edit (h r)) ≡ h r
    → update r (undo (k r)) k j ≡ h j
back-update edit undo r j h k e u = elim (Bool-cases (r == j)) [
  | inl t ↦
      let now : k r ≡ edit (h r) = ap (λ (f : Heap). f r) e ∙ rw (update_lem, ==_refl r) in
      rw (update_lem, t) (ap undo now ∙ u ∙ ap (λ (i : Ref). h i) ((==_iff r j).0 t))
  | inr t ↦ rw (update_lem, t) (ap (λ (f : Heap). f j) e ∙ rw (update_lem, t))
]

module _ (cb : Callbacks) (r : Ref) (edit undo : Issue → Issue) (h : Heap)
    (undoes : undo (edit (h r)) ≡ h r) where
  settle-EditSettled :
      (o : Option String) (k : Heap)
      → k ≡ update r (edit (h r)) h
      → EditSettled cb r edit h o
          (settle o undo cb r (put_issue (edit (h r)).project_id (edit (h r)) ∷ []) k)
  settle-EditSettled none k e =
      (refl, λ j. ap (λ (f : Heap). f j) e ∙ update_lem r j (edit (h r)) h, refl)
  settle-EditSettled (some m) k e = (refl, λ j. back-update edit undo r j h k e undoes, refl)

  pub button-EditSettled :
      (s : Surroundings)
      → IsQuiet s
      → let h' = update r (edit (h r)) h in
        let q = put_issue (h' r).project_id (h' r) in
        EditSettled cb r edit h
          (s.answer (put_issue (edit (h r)).project_id (edit (h r))))
          (settle (s.answer q) undo cb r (q ∷ []) (s.while_saving h'))
  button-EditSettled s quiet =
      let h' = update r (edit (h r)) h in
      let same : h' r ≡ edit (h r) = rw (update_lem, ==_refl r) in
      let want = s.answer (put_issue (edit (h r)).project_id (edit (h r))) in
      subst
        (λ (x : Issue). EditSettled cb r edit h want (
          settle (s.answer (put_issue x.project_id x)) undo cb r (put_issue x.project_id x ∷ [])
            (s.while_saving h')))
        (sym same) (settle-EditSettled want (s.while_saving h') (quiet.0 h'))

-- The priority button sends one request, for its issue with the other priority. If the server takes
-- it, the issue has that priority and nothing else has changed; if not, everything is as it was
-- and a toast shows the failure. No other handler runs meanwhile.
pub handle_toggle_priority-EditSettled :
    (s : Surroundings) (cb : Callbacks) (r : Ref) (h : Heap)
    → IsQuiet s
    → let edit = with_priority (toggled (h r).priority) in
      EditSettled cb r edit h
        (s.answer (put_issue (h r).project_id (edit (h r))))
        (handle_toggle_priority s cb r h)
unfolding handle_toggle_priority
handle_toggle_priority-EditSettled s cb r h quiet =
    button-EditSettled cb r (with_priority (toggled (h r).priority)) (with_priority (h r).priority)
      h refl s quiet

-- The assign button sends one request, for its issue with the user as its assignee. If the server
-- takes it, the issue has that assignee and nothing else has changed; if not, everything is as it
-- was and a toast shows the failure. No other handler runs meanwhile.
pub handle_assign_to_me-EditSettled :
    (s : Surroundings) (cb : Callbacks) (me : User) (r : Ref) (h : Heap)
    → IsQuiet s
    → let edit = assigned (some me.id) (some me) in
      EditSettled cb r edit h
        (s.answer (put_issue (h r).project_id (edit (h r))))
        (handle_assign_to_me s cb me r h)
unfolding handle_assign_to_me
handle_assign_to_me-EditSettled s cb me r h quiet =
    button-EditSettled cb r (assigned (some me.id) (some me))
      (assigned (h r).assignee_id (h r).assignee) h refl s quiet
