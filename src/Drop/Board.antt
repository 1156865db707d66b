-- ===== src/Drop/Board.antt =====
-- static/js/components/board.js: the drop of a card on the board.
use wuflow.Base.{
  ℕ, true, none, some, List, [], ◌∷◌, ◌≡◌, sym, ap, subst, ◌∙◌, inl, inr, arith, Option-cases,
  Distinct, String,
}
use wuflow.Model.{Status}
use wuflow.Store.{Ref, Heap}
use wuflow.Order.{Change, Surroundings, Saved, save_issue_order}
use wuflow.Order.Rollback.{
  refs, undo, IsQuiet, save_issue_order-undo, save_issue_order-kept, failed_heap_quiet,
}
use wuflow.View.{rerender, Callbacks, show_save_failure}
use wuflow.Drop.{find_issue, get_board_updates, report, board_drop}
use wuflow.Drop.Places.{
  ids_of, board_slots, placed, place, get_board_updates-place, place-Distinct, undo-place,
  place-placed,
}

report-failed :
    (cb : Callbacks) (v : Saved) (m : String)
    → (report cb (rerender ∷ []) v).effects ≡ show_save_failure m cb
    → (n : String) × (v.failure ≡ some n)
unfolding show_save_failure
report-failed cb v m e = elim (Option-cases v.failure) [
  | inl f ↦ absurd (ground arith)
  | inr (n, f) ↦ (n, f)
]

report-done :
    (cb : Callbacks) (v : Saved)
    → (report cb (rerender ∷ []) v).effects ≡ rerender ∷ []
    → v.failure ≡ none
unfolding show_save_failure
report-done cb v e = elim (Option-cases v.failure) [
  | inl f ↦ f
  | inr (n, f) ↦ absurd (ground arith)
]

abbrev pub saved_board : Surroundings → List (Status × List ℕ) → List Ref → Heap → Saved
saved_board s cols issues h =
    save_issue_order s (get_board_updates cols issues h).0 (get_board_updates cols issues h).1

module _ (s : Surroundings) (cb : Callbacks) (cols : List (Status × List ℕ)) (issues : List Ref)
    (h : Heap) (quiet : IsQuiet s) (distinct : Distinct (ids_of (board_slots cols))) where
  -- A failed save of the new order gives every issue back as it was.
  pub save_board-undo :
      {m : String}
      → (saved_board s cols issues h).failure ≡ some m
      → (j : Ref) → (saved_board s cols issues h).heap j ≡ h j
  save_board-undo failed j =
      let (cs, h') = get_board_updates cols issues h in
      let (when_, undone) = save_issue_order-undo s cs h' changes-Distinct failed in
      undone j ∙ ap (λ (k : Heap). undo cs j (k j)) (failed_heap_quiet s cs h' quiet when_) ∙ back j
    where
      same : get_board_updates cols issues h ≡ place issues (board_slots cols) h
      same = get_board_updates-place cols issues h

      changes-Distinct : Distinct (refs (get_board_updates cols issues h).0)
      changes-Distinct =
          subst (λ (p : List Change × Heap). Distinct (refs p.0)) (sym same)
            (place-Distinct issues (board_slots cols) h distinct)

      back :
          (j : Ref)
          → undo (get_board_updates cols issues h).0 j ((get_board_updates cols issues h).1 j) ≡ h j
      back j =
          subst (λ (p : List Change × Heap). undo p.0 j (p.1 j) ≡ h j) (sym same)
            (undo-place issues (board_slots cols) h j distinct)

  -- A card is dropped on the board by a user who may edit issues, no other handler runs meanwhile, and
  -- no issue has two cards. If the drop ends in the error path, every issue is again exactly as
  -- before the drop, in all columns.
  pub board_drop-undo :
      (m : String)
      → (board_drop s cb true true cols issues h).effects ≡ show_save_failure m cb
      → (j : Ref) → (board_drop s cb true true cols issues h).heap j ≡ h j
  unfolding board_drop
  board_drop-undo m e j =
      let (cs, h') = get_board_updates cols issues h in
      let (n, failed) = report-failed cb (save_issue_order s cs h') m e in save_board-undo failed j

  -- A card is dropped on the board by a user who may edit issues, no other handler runs meanwhile, and
  -- no issue has two cards. If the drop ends with the board rendered again, every issue that its id
  -- finds has the status of the column and the place of the card that shows it, and an issue
  -- without a card is as it was.
  pub board_drop-places :
      (board_drop s cb true true cols issues h).effects ≡ rerender ∷ []
      → (j : Ref) → find_issue h issues (h j).id ≡ some j
      → (board_drop s cb true true cols issues h).heap j ≡ placed (board_slots cols) (h j)
  unfolding board_drop
  board_drop-places e j f =
      let (cs, h') = get_board_updates cols issues h in
      let kept =
        save_issue_order-kept s cs h' quiet (report-done cb (save_issue_order s cs h') e) in
      ap (λ (k : Heap). k j) kept
      ∙ ap (λ (p : List Change × Heap). p.1 j) (get_board_updates-place cols issues h)
      ∙ place-placed issues (board_slots cols) h j distinct f
