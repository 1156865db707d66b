-- ===== src/Drag.antt =====
-- static/js/drag.js: the card, or the task, in front of which a dragged one is shown. A box is given by
-- the height of its middle on the page. Heights are in half pixels, so that the middle
-- `top + height / 2` is whole, and the distance that the source keeps with a middle is not needed.
use wuflow.Base.{
  ℕ, ◌<◌, ◌≤◌, Bool, false, ◌&&◌, Option, none, some, List, [], ◌∷◌, ltb, if◌then◌else◌, find, ◌≡◌,
  refl, Bool-cases, inl, inr, arith,
}

pub record Box : Type 0 where
  pub element : ℕ
  pub middle : ℕ

-- A step of `reduce`. `closest` is none at the start, where its offset is -∞; an offset is below 0
-- where the pointer is above the middle, and greater where the middle is nearer.
abbrev pub is_closer : ℕ → Option Box → Box → Bool
is_closer y none box = ltb y box.middle
is_closer y (some closest) box = ltb y box.middle && ltb box.middle closest.middle

abbrev pub closest_from : ℕ → Option Box → List Box → Option Box
closest_from y closest [] = closest
closest_from y closest (box ∷ boxes) =
    closest_from y (if is_closer y closest box then some box else closest) boxes

-- `getDragAfterElement` and `getDragAfterTaskElement`, on the boxes that are not dragged
unfoldable pub get_drag_after_element : ℕ → List Box → Option Box
get_drag_after_element y boxes = closest_from y none boxes

-- Each middle is below that of the box before it.
abbrev pub Descending : ℕ → List Box → Type 0
Descending n [] = Unit
Descending n (box ∷ boxes) = (n < box.middle) × Descending box.middle boxes

-- Once a box is found, those below it are not nearer.
closest_kept :
    (y : ℕ) (closest : Box) (n : ℕ) (boxes : List Box)
    → closest.middle ≤ n
    → Descending n boxes
    → closest_from y (some closest) boxes ≡ some closest
closest_kept y closest n [] h d = refl
closest_kept y closest n (box ∷ boxes) h (b, d) =
    let far : is_closer y (some closest) box ≡ false = ground arith in
    rw far (closest_kept y closest box.middle boxes (omega arith) d)

closest_found :
    (y n : ℕ) (boxes : List Box)
    → Descending n boxes
    → closest_from y none boxes ≡ find (λ box. ltb y box.middle) boxes
closest_found y n [] d = refl
closest_found y n (box ∷ boxes) (b, d) = elim (Bool-cases (ltb y box.middle)) [
  | inl t ↦ rw t (closest_kept y box box.middle boxes (omega arith) d)
  | inr t ↦ rw t (closest_found y box.middle boxes d)
]

-- In a list whose boxes stand one below the other, a dragged card is shown in front of the first box
-- whose middle is below the pointer, and at the end if there is none.
pub get_drag_after_element-find :
    (y : ℕ) (first : Box) (boxes : List Box)
    → Descending first.middle boxes
    → get_drag_after_element y (first ∷ boxes) ≡ find (λ box. ltb y box.middle) (first ∷ boxes)
unfolding get_drag_after_element
get_drag_after_element-find y first boxes d = elim (Bool-cases (ltb y first.middle)) [
  | inl t ↦ rw t (closest_kept y first first.middle boxes (omega arith) d)
  | inr t ↦ rw t (closest_found y first.middle boxes d)
]
