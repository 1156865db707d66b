-- ===== src/Store.antt =====
-- The issue objects of the page. A view holds references, and a handler that assigns to a field
-- changes the object that every list sees: the heap gives each reference its object.
use wuflow.Base.{ℕ, List, ◌==◌, ◌≡◌, refl, if◌then◌else◌}
use wuflow.Model.{Issue}

abbrev pub Ref : Type 0
Ref = ℕ

abbrev pub Heap : Type 0
Heap = Ref → Issue

unfoldable pub update : Ref → Issue → Heap → Heap
update r v h = λ j. if r == j then v else h j

pub update_lem : (r j : Ref) (v : Issue) (h : Heap) → update r v h j ≡ (if r == j then v else h j)
unfolding update
update_lem r j v h = refl

-- What the server is asked to save, and what it is asked for. A reorder is a list of pairs of an
-- id and a position.
pub data Sent : Type 0 where
  put_issue : ℕ → Issue → Sent
  put_positions : ℕ → List (ℕ × ℕ) → Sent
  post_archive : ℕ → ℕ → Sent
  post_unarchive : ℕ → ℕ → Sent
