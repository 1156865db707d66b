-- ===== src/Order/Moves.antt =====
-- Moving a card to the top or to the bottom of its list: the order that the view shows afterwards.
use wuflow.Base.{
  ℕ, suc, ◌≤◌, ◌<◌, true, false, not, none, List, [], ◌∷◌, ◌++◌, ◌==◌, leb, ◌≡◌, refl, sym, ap,
  subst, ◌∙◌, inl, inr, arith, Bool-cases, ==_iff, ==_refl, includes, Distinct, filter_by, All,
  length, sort_by, insert_by, sort_by-cons, insert_by-head, insert_by-skip, insert_by-last, All-map,
  All-append, SortedBy, includes-filter_by, Distinct-filter_by, sort_by-of_SortedBy,
}
use wuflow.Model.{Issue}
use wuflow.Store.{Ref, Heap}
use wuflow.View.{Callbacks}
use wuflow.Order.{
  Surroundings, Saved, update_positions, head_is, last_is, others, handle_move_top,
  handle_move_bottom,
}
use wuflow.Order.Rollback.{IsQuiet}
use wuflow.Order.Positions.{numbered, update_positions-numbered}

-- The keys of a list are n, n + 1, and so on.
abbrev Increasing : ℕ → (Ref → ℕ) → List Ref → Type 0
Increasing n key [] = Unit
Increasing n key (r ∷ rs) = (key r ≡ n) × Increasing (suc n) key rs

Increasing-numbered :
    (n : ℕ) (rs : List Ref) (h : Heap) (key : Ref → ℕ)
    → Distinct rs
    → ((j : Ref) → includes rs j ≡ true → key j ≡ (numbered n rs j (h j)).position)
    → Increasing n key rs
Increasing-numbered n [] h key d same = tt
Increasing-numbered n (r ∷ rs) h key (a, d) same = (
  same r (rw (==_refl r) refl) ∙ rw (==_refl r) refl,
  Increasing-numbered (suc n) rs h key d below,
)
  where
    below : (j : Ref) → includes rs j ≡ true → key j ≡ (numbered (suc n) rs j (h j)).position
    below j i = elim (Bool-cases (r == j)) [
      | inl t ↦
          let a' : includes rs j ≡ false =
            subst (λ (k : Ref). includes rs k ≡ false) ((==_iff r j).0 t) a in
          cc
      | inr t ↦ same j (rw t i) ∙ rw t refl
    ]

-- The list without one reference.
abbrev pub without : Ref → List Ref → List Ref
without r = filter_by (λ j. not (j == r))

without_absent : (r : Ref) (rs : List Ref) → includes rs r ≡ false → without r rs ≡ rs
without_absent r [] a = refl
without_absent r (x ∷ rs) a = ground (arith, without_absent r rs)

module _ (key : Ref → ℕ) where
  All-Increasing : (m n : ℕ) (rs : List Ref) → m ≤ n → Increasing n key rs → All (λ j. m ≤ key j) rs
  All-Increasing m n [] l i = tt
  All-Increasing m n (r ∷ rs) l (e, i) = (omega arith, All-Increasing m (suc n) rs (omega arith) i)

  SortedBy-Increasing : (n : ℕ) (rs : List Ref) → Increasing n key rs → SortedBy key rs
  SortedBy-Increasing n [] i = tt
  SortedBy-Increasing n (r ∷ rs) (e, i) =
      (rw e (All-Increasing n (suc n) rs (omega arith) i), SortedBy-Increasing (suc n) rs i)

  -- One past the greatest key stands at the end.
  Increasing-append :
      (n : ℕ) (rs : List Ref) (r : Ref)
      → Increasing n key (rs ++ r ∷ [])
      → All (λ j. key j < key r) rs × Increasing n key rs
  Increasing-append n [] r i = (tt, tt)
  Increasing-append n (x ∷ rs) r (e, i) =
      let (below, rest) = Increasing-append (suc n) rs r i in
      ((omega (arith, at_end (suc n) rs i), below), (e, rest))
    where
      at_end : (m : ℕ) (rs : List Ref) → Increasing m key (rs ++ r ∷ []) → m ≤ key r
      at_end m [] (e, i) = omega arith
      at_end m (y ∷ rs) (e, i) = omega (arith, at_end (suc m) rs i)

  -- A list sorts to `r` before the others, or behind them, where the others are in order.
  sort_top :
      (r : Ref) (xs : List Ref)
      → Distinct xs
      → includes xs r ≡ true
      → All (λ j. key r < key j) (without r xs)
      → SortedBy key (without r xs)
      → sort_by key xs ≡ r ∷ without r xs
  sort_top r [] d i above s = cc
  sort_top r (x ∷ xs) (a, d) i above s = elim (Bool-cases (x == r)) [
    | inl t ↦
        let e : x ≡ r = (==_iff x r).0 t in
        let gone = without_absent r xs (subst (λ (k : Ref). includes xs k ≡ false) e a) in
        let above' : All (λ j. key r < key j) xs = rw gone at (rw t at above) in
        let s' : SortedBy key xs = rw gone at (rw t at s) in
        rw (t, gone)
          (sort_by-cons key x xs
            ∙ ap (insert_by key x) (sort_by-of_SortedBy key xs s')
            ∙ insert_by-head key x xs (All-map _ _ xs (λ j l. omega (arith, ap key e)) above')
            ∙ ap (λ (k : Ref). k ∷ xs) e)
    | inr t ↦
        let above' : (key r < key x) × All (λ j. key r < key j) (without r xs) = rw t at above in
        let s' : All (λ j. key x ≤ key j) (without r xs) × SortedBy key (without r xs) =
          rw t at s in
        rw t (
          sort_by-cons key x xs
          ∙ ap (insert_by key x) (sort_top r xs d (rw t at i) above'.1 s'.1)
          ∙ insert_by-skip key x r (without r xs) above'.0
          ∙ ap (r ∷◌) (insert_by-head key x (without r xs) s'.0))
  ]

  sort_bottom :
      (r : Ref) (xs : List Ref)
      → Distinct xs
      → includes xs r ≡ true
      → All (λ j. key j < key r) (without r xs)
      → SortedBy key (without r xs)
      → sort_by key xs ≡ without r xs ++ r ∷ []
  sort_bottom r [] d i below s = cc
  sort_bottom r (x ∷ xs) (a, d) i below s = elim (Bool-cases (x == r)) [
    | inl t ↦
        let e : x ≡ r = (==_iff x r).0 t in
        let gone = without_absent r xs (subst (λ (k : Ref). includes xs k ≡ false) e a) in
        let below' : All (λ j. key j < key r) xs = rw gone at (rw t at below) in
        let s' : SortedBy key xs = rw gone at (rw t at s) in
        rw (t, gone)
          (sort_by-cons key x xs
            ∙ ap (insert_by key x) (sort_by-of_SortedBy key xs s')
            ∙ insert_by-last key x xs (All-map _ _ xs (λ j l. omega (arith, ap key e)) below')
            ∙ ap (λ (k : Ref). xs ++ k ∷ []) e)
    | inr t ↦
        let below' : (key x < key r) × All (λ j. key j < key r) (without r xs) = rw t at below in
        let s' : All (λ j. key x ≤ key j) (without r xs) × SortedBy key (without r xs) =
          rw t at s in
        let at_end : key x ≤ key r = omega arith in
        rw t (
          sort_by-cons key x xs
          ∙ ap (insert_by key x) (sort_bottom r xs d (rw t at i) below'.1 s'.1)
          ∙ insert_by-head key x (without r xs ++ r ∷ [])
              (All-append _ (without r xs) (r ∷ []) s'.0 (at_end, tt)))
  ]

-- `r` is the only listed issue with its id.
abbrev pub Alone : Heap → Ref → List Ref → Type 0
Alone h r = All (λ j. ((h j).id == (h r).id) ≡ (j == r))

others-without :
    (h : Heap) (r : Ref) (all : List Ref) → Alone h r all → others h r all ≡ without r all
others-without h r [] a = refl
others-without h r (j ∷ js) (e, a) = rw (e, others-without h r js a)

-- The positions that a saved order leaves are its places.
saved-Increasing :
    (s : Surroundings) (rs : List Ref) (h : Heap)
    → IsQuiet s
    → Distinct rs
    → (update_positions s rs h).failure ≡ none
    → Increasing 0 (λ j. ((update_positions s rs h).heap j).position) rs
saved-Increasing s rs h q d f =
    Increasing-numbered 0 rs h _ d
      (λ j _. ap (λ (x : Issue). x.position) ((update_positions-numbered s rs h q d).2 f j))

includes-without : (r : Ref) (all : List Ref) → includes (without r all) r ≡ false
includes-without r all = rw (includes-filter_by, ==_refl r) (ground arith)

Distinct-append :
    (rs : List Ref) (r : Ref) → Distinct rs → includes rs r ≡ false → Distinct (rs ++ r ∷ [])
Distinct-append [] r d a = (refl, tt)
Distinct-append (x ∷ rs) r (n, d) a =
    (not_last rs n (ground arith), Distinct-append rs r d (ground arith))
  where
    not_last :
        (rs : List Ref)
        → includes rs x ≡ false
        → (r == x) ≡ false
        → includes (rs ++ r ∷ []) x ≡ false
    not_last [] n e = rw e
    not_last (y ∷ rs) n e = ground (arith, not_last rs)

module _ (s : Surroundings) (cb : Callbacks) (r : Ref) (all : List Ref) (h : Heap)
    (quiet : IsQuiet s) (distinct : Distinct all) (listed : includes all r ≡ true)
    (alone : Alone h r all) (several : 1 < length all) where
  move_top-saves :
      head_is h r all ≡ false
      → (handle_move_top s cb r all h).saved ≡ update_positions s (r ∷ without r all) h
  unfolding handle_move_top
  move_top-saves elsewhere =
      let long : leb (length all) 1 ≡ false = ground arith in
      rw (long, elsewhere)
        (ap (λ (rs : List Ref). update_positions s (r ∷ rs) h) (others-without h r all alone))

  move_bottom-saves :
      last_is h r all ≡ false
      → (handle_move_bottom s cb r all h).saved ≡ update_positions s (without r all ++ r ∷ []) h
  unfolding handle_move_bottom
  move_bottom-saves elsewhere =
      let long : leb (length all) 1 ≡ false = ground arith in
      rw (long, elsewhere)
        (ap (λ (rs : List Ref). update_positions s (rs ++ r ∷ []) h) (others-without h r all alone))

  -- The button that moves an issue to the top of its list, which has several issues, each once, and
  -- shows another one there; no other handler runs meanwhile. If the save does not fail, the list
  -- in the order of its positions shows the issue first and the others in the order in which they
  -- were.
  pub handle_move_top-sorts :
      head_is h r all ≡ false
      → (handle_move_top s cb r all h).saved.failure ≡ none
      → sort_by (λ j. ((handle_move_top s cb r all h).saved.heap j).position) all
        ≡ r ∷ without r all
  handle_move_top-sorts elsewhere f =
      subst (λ (v : Saved). sort_by (λ j. (v.heap j).position) all ≡ r ∷ without r all) (sym saves)
        (sort_top key r all distinct listed
          (All-map _ _ (without r all) (λ j l. omega (arith, increasing.0))
            (All-Increasing key 1 1 (without r all) (omega arith) increasing.1))
          (SortedBy-Increasing key 1 (without r all) increasing.1))
    where
      saves : (handle_move_top s cb r all h).saved ≡ update_positions s (r ∷ without r all) h
      saves = move_top-saves elsewhere

      key : Ref → ℕ
      key j = ((update_positions s (r ∷ without r all) h).heap j).position

      increasing : Increasing 0 key (r ∷ without r all)
      increasing =
          saved-Increasing s (r ∷ without r all) h quiet
            (includes-without r all, Distinct-filter_by _ all distinct)
            (subst (λ (v : Saved). v.failure ≡ none) saves f)

  -- The button that moves an issue to the bottom of its list, which has several issues, each once, and
  -- shows another one there; no other handler runs meanwhile. If the save does not fail, the list
  -- in the order of its positions shows the issue last and the others in the order in which they
  -- were.
  pub handle_move_bottom-sorts :
      last_is h r all ≡ false
      → (handle_move_bottom s cb r all h).saved.failure ≡ none
      → sort_by (λ j. ((handle_move_bottom s cb r all h).saved.heap j).position) all
        ≡ without r all ++ r ∷ []
  handle_move_bottom-sorts elsewhere f =
      subst (λ (v : Saved). sort_by (λ j. (v.heap j).position) all ≡ without r all ++ r ∷ [])
        (sym saves)
        (sort_bottom key r all distinct listed parts.0
          (SortedBy-Increasing key 0 (without r all) parts.1))
    where
      saves :
          (handle_move_bottom s cb r all h).saved ≡ update_positions s (without r all ++ r ∷ []) h
      saves = move_bottom-saves elsewhere

      key : Ref → ℕ
      key j = ((update_positions s (without r all ++ r ∷ []) h).heap j).position

      parts : All (λ j. key j < key r) (without r all) × Increasing 0 key (without r all)
      parts = Increasing-append key 0 (without r all) r (
          saved-Increasing s (without r all ++ r ∷ []) h quiet
            (Distinct-append (without r all) r (Distinct-filter_by _ all distinct)
              (includes-without r all))
            (subst (λ (v : Saved). v.failure ≡ none) saves f))
