-- ===== src/Drop/Section.antt =====
-- static/js/list-utils.js: the drop of a card on a section.
use wuflow.Base.{
  ℕ, Bool, true, false, Option, none, some, List, [], ◌∷◌, ◌++◌, ◌≡◌, refl, sym, ap, subst, ◌∙◌,
  String, if◌then◌else◌, ◌==◌, ==_refl, find, Bool-cases, inl, inr,
}
use wuflow.Model.{
  Issue, Status, open_, todo, stage1, stage2, stage3, stage4, done, archive, status_eq,
}
use wuflow.Store.{Ref, Heap, Sent, put_issue, post_archive, update, update_lem}
use wuflow.Order.{Surroundings}
use wuflow.View.{dropped, show_save_failure, rerender_or_refresh}
use wuflow.Drop.{
  Zone, Dropped, find_issue, section_drop, section_request, section_end, section_save, with_status,
  validated_by, section_validated, section_found, card_issue, nothing_done,
}

-- The handler that validates, if there is one, lets the drop through.
abbrev pub lets_through : Option (Option Issue → Status → Bool) → Issue → Status → Bool
lets_through none i target = true
lets_through (some v) i target = v (some i) target

-- A drop that is not let through.
abbrev pub turned_away : Zone → Heap → Dropped
turned_away z h = record {
  heap = z.while_validating h;
  requests = [];
  effects = rerender_or_refresh z.callbacks;
}

-- The heap behind the validation
abbrev pub validated_heap : Option (Option Issue → Status → Bool) → Zone → Heap → Heap
validated_heap none z h = h
validated_heap (some _) z h = z.while_validating h

-- The heap when the answer of the server is there
abbrev pub moved_heap : Surroundings → Zone → Ref → Heap → Heap
moved_heap s z r k = s.while_saving (update r (record (k r) { status = z.target }) k)

-- The archive has a request of its own, which names the issue only.
abbrev pub due_request : Status → Issue → Sent
due_request archive i = post_archive i.project_id i.id
due_request _ i = put_issue i.project_id i

-- What an answer makes of the moved issue: nothing more, or its status from before the drop.
abbrev pub Settled : Zone → Status → Ref → Sent → Heap → Option String → Dropped → Type 0
Settled z previous r q k none d =
    (d.requests ≡ q ∷ [])
    × (d.heap ≡ k)
    × (d.effects ≡ rerender_or_refresh z.callbacks ++ (if z.has_on_drop then dropped ∷ [] else []))
Settled z previous r q k (some m) d =
    (d.requests ≡ q ∷ [])
    × ((j : Ref) → d.heap j ≡ (if r == j then with_status previous (k r) else k j))
    × (d.effects ≡ show_save_failure m z.callbacks)

-- The issue that a drop is to move: the section is visible, and the card is that of an issue with another
-- status.
abbrev elsewhere_only : Status → Heap → Option Ref → Option Ref
elsewhere_only target h none = none
elsewhere_only target h (some r) = if status_eq (h r).status target then none else some r

abbrev shown_by : Option ℕ → List Ref → Heap → Option Ref
shown_by none issues h = none
shown_by (some id) issues h = find (λ (r : Ref). (h r).id == id) issues

abbrev pub moved_issue : Zone → List Ref → Heap → Option Ref
moved_issue z issues h =
    if z.visible then elsewhere_only z.target h (shown_by z.card issues h) else none

-- By whether the drop is let through; `k` is the heap behind the validation.
abbrev pub Decided : Surroundings → Zone → Ref → Status → Heap → Heap → Dropped → Bool → Type 0
Decided s z r previous h k d false =
    (d.requests ≡ [])
    × ((d.heap ≡ z.while_validating h) × (d.effects ≡ rerender_or_refresh z.callbacks))
Decided s z r previous h k d true =
    let q = due_request z.target (record (k r) { status = z.target }) in
    Settled z previous r q (moved_heap s z r k) (s.answer q) d

-- By the issue that is to move
abbrev pub Ended : Surroundings → Zone → Heap → Dropped → Option Ref → Type 0
Ended s z h d none = (d.requests ≡ []) × ((d.heap ≡ h) × (d.effects ≡ []))
Ended s z h d (some r) =
    Decided s z r (h r).status h (validated_heap z.validate z h) d
      (lets_through z.validate (h r) z.target)

section_request-due : (t : Status) (i : Issue) → section_request t i ≡ due_request t i
section_request-due open_ i = refl
section_request-due todo i = refl
section_request-due stage1 i = refl
section_request-due stage2 i = refl
section_request-due stage3 i = refl
section_request-due stage4 i = refl
section_request-due done i = refl
section_request-due archive i = refl

section_end-Settled :
    (z : Zone) (o : Option String) (previous : Status) (r : Ref) (q : Sent) (k : Heap)
    → Settled z previous r q k o (section_end z o previous r (q ∷ []) k)
section_end-Settled z none previous r q k = (refl, refl, refl)
section_end-Settled z (some m) previous r q k = (refl, λ j. update_lem r j _ k, refl)

section_save-Settled :
    (s : Surroundings) (z : Zone) (previous : Status) (r : Ref) (h : Heap)
    → let q = due_request z.target (with_status z.target (h r)) in
      let k = s.while_saving (update r (with_status z.target (h r)) h) in
      Settled z previous r q k (s.answer q) (section_save s z previous r h)
section_save-Settled s z previous r h =
    let moved = update r (with_status z.target (h r)) h in
    let q = due_request z.target (with_status z.target (h r)) in
    let same : moved r ≡ with_status z.target (h r) = rw (update_lem, ==_refl r) in
    subst
      (λ (p : Sent).
        Settled z previous r q (s.while_saving moved) (s.answer q)
          (section_end z (s.answer p) previous r (p ∷ []) (s.while_saving moved)))
      (sym (section_request-due z.target (with_status z.target (h r)))
        ∙ ap (section_request z.target) (sym same))
      (section_end-Settled z (s.answer q) previous r q (s.while_saving moved))

module _ (s : Surroundings) (z : Zone) (issues : List Ref) (h : Heap) (r : Ref) {card : ℕ}
    (visible : z.visible ≡ true) (dragged : z.card ≡ some card)
    (found : find_issue h issues card ≡ some r)
    (elsewhere : status_eq (h r).status z.target ≡ false) where
  -- The handler gets as far as the validation.
  section_reached : section_drop s z issues h ≡ validated_by z.validate s z r h
  unfolding section_drop
  section_reached =
      ap (λ (b : Bool). if b then section_found s z (card_issue z issues h) h else nothing_done h)
        visible
      ∙ ap (λ (o : Option Ref). section_found s z o h)
          (ap (λ (c : Option ℕ). elim c [ none ↦ none | some id ↦ find_issue h issues id ]) dragged
            ∙ found)
      ∙ ap (λ (b : Bool). if b then nothing_done h else section_validated s z r h) elsewhere

  by_refusal :
      (o : Option (Option Issue → Status → Bool))
      → lets_through o (h r) z.target ≡ false
      → validated_by o s z r h ≡ turned_away z h
  by_refusal none e = cc
  by_refusal (some v) e = rw e

  -- Nothing is sent and nothing changed, but for what other handlers do meanwhile.
  pub section_refused :
      lets_through z.validate (h r) z.target ≡ false → section_drop s z issues h ≡ turned_away z h
  section_refused e = section_reached ∙ by_refusal z.validate e

module _ (s : Surroundings) (z : Zone) (h : Heap) where
  validated-Decided :
      (r : Ref) (o : Option (Option Issue → Status → Bool))
      → Decided s z r
          (h r).status
          h
          (validated_heap o z h)
          (validated_by o s z r h)
          (lets_through o (h r) z.target)
  validated-Decided r none = section_save-Settled s z (h r).status r h
  validated-Decided r (some v) = elim (Bool-cases (v (some (h r)) z.target)) [
    | inl t ↦ rw t (section_save-Settled s z (h r).status r (z.while_validating h))
    | inr t ↦ rw t (refl, (refl, refl))
  ]

  found-Ended : (o : Option Ref) → Ended s z h (section_found s z o h) (elsewhere_only z.target h o)
  found-Ended none = (refl, (refl, refl))
  found-Ended (some r) = elim (Bool-cases (status_eq (h r).status z.target)) [
    | inl t ↦ rw t (refl, (refl, refl))
    | inr t ↦ rw t (validated-Decided r z.validate)
  ]

  shown-Ended :
      (issues : List Ref) (c : Option ℕ)
      → Ended s z h
          (section_found s z (elim c [ none ↦ none | some id ↦ find_issue h issues id ]) h)
          (elsewhere_only z.target h (shown_by c issues h))
  shown-Ended issues none = (refl, (refl, refl))
  shown-Ended issues (some id) = found-Ended (find_issue h issues id)

  visible-Ended :
      (issues : List Ref) (b : Bool)
      → Ended s z h
          (if b then section_found s z (card_issue z issues h) h else nothing_done h)
          (if b then elsewhere_only z.target h (shown_by z.card issues h) else none)
  visible-Ended issues true = shown-Ended issues z.card
  visible-Ended issues false = (refl, (refl, refl))

-- A card is dropped on a section. If the section is hidden, no card is dragged, there is no issue with its
-- id, or the issue has the status of the section, nothing is sent, changed or shown. If the validation does
-- not let the drop through, nothing is sent, nothing changes but what other handlers do meanwhile, and
-- the view is drawn again. Else one request is sent: to archive the issue where the section is the
-- archive, and for the issue with its new status everywhere else. If the server takes it, the issue
-- keeps the new status, and the view is drawn and told; if not, the issue gets the status that it had
-- before the drop, whatever other handlers did while it waited, nothing else differs, and the failure
-- is shown.
pub section_drop-Settled :
    (s : Surroundings) (z : Zone) (issues : List Ref) (h : Heap)
    → Ended s z h (section_drop s z issues h) (moved_issue z issues h)
unfolding section_drop
section_drop-Settled s z issues h = visible-Ended s z h issues z.visible
