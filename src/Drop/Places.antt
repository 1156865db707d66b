-- ===== src/Drop/Places.antt =====
-- static/js/components/board.js, `getBoardUpdates`: the cards' places and the changes they make.
use wuflow.Base.{
  ℕ, suc, true, false, not, ◌||◌, Option, none, some, List, [], ◌∷◌, ◌++◌, map, ◌==◌, ◌≡◌, refl,
  sym, ap, ap₂, subst, ◌∙◌, ◌⊎◌, inl, inr, if◌then◌else◌, arith, Bool-cases, Option-cases, ==_iff,
  ==_refl, includes, Distinct,
}
use wuflow.Model.{Issue, Status, status_eq, status_eq→eq}
use wuflow.Store.{Ref, Heap, update, update_lem}
use wuflow.Order.{Change, assign, apply_order_change}
use wuflow.Order.Rollback.{refs, undo}
use wuflow.Drop.{find_issue, column_card, column_updates, get_board_updates}

-- A card's place: the status of its column, its index there, and its id.
abbrev pub Slot : Type 0
Slot = Status × ℕ × ℕ

abbrev pub slots : Status → ℕ → List ℕ → List Slot
slots status index [] = []
slots status index (id ∷ ids) = (status, index, id) ∷ slots status (suc index) ids

abbrev pub board_slots : List (Status × List ℕ) → List Slot
board_slots [] = []
board_slots ((status, ids) ∷ cols) = slots status 0 ids ++ board_slots cols

abbrev pub ids_of : List Slot → List ℕ
ids_of = map (λ p. p.2)

-- Both loops of `getBoardUpdates` as one.
pub place : List Ref → List Slot → Heap → List Change × Heap
unfolding apply_order_change
place issues [] h = ([], h)
place issues ((status, index, id) ∷ ps) h =
    column_card status index (find_issue h issues id) (place issues ps) h

column_updates-place :
    (issues : List Ref) (status : Status) (index : ℕ) (ids : List ℕ) (h : Heap)
    → column_updates status index ids issues h ≡ place issues (slots status index ids) h
unfolding column_updates place
column_updates-place issues status index [] h = refl
column_updates-place issues status index (id ∷ ids) h =
    ap
      (λ (rest : Heap → List Change × Heap).
        column_card status index (find_issue h issues id) rest h)
      (λ i k. column_updates-place issues status (suc index) ids k i)

abbrev joined : List Change × Heap → (Heap → List Change × Heap) → List Change × Heap
joined p rest = (p.0 ++ (rest p.1).0, (rest p.1).1)

column_card-joined :
    (status : Status) (index : ℕ) (o : Option Ref) (rest more : Heap → List Change × Heap)
    (h : Heap)
    → column_card status index o (λ k. joined (rest k) more) h
      ≡ joined (column_card status index o rest h) more
column_card-joined status index none rest more h = refl
column_card-joined status index (some r) rest more h =
    elim (Bool-cases (not (status_eq (h r).status status) || not ((h r).position == index))) [
      | inl t ↦ rw t
      | inr t ↦ rw t
    ]

place-append :
    (issues : List Ref) (ps qs : List Slot) (h : Heap)
    → place issues (ps ++ qs) h ≡ joined (place issues ps h) (place issues qs)
unfolding place
place-append issues [] qs h = refl
place-append issues ((status, index, id) ∷ ps) qs h =
    ap
      (λ (rest : Heap → List Change × Heap).
        column_card status index (find_issue h issues id) rest h)
      (λ i k. place-append issues ps qs k i)
    ∙ column_card-joined status index (find_issue h issues id) (place issues ps) (place issues qs) h

pub get_board_updates-place :
    (cols : List (Status × List ℕ)) (issues : List Ref) (h : Heap)
    → get_board_updates cols issues h ≡ place issues (board_slots cols) h
unfolding get_board_updates place
get_board_updates-place [] issues h = refl
get_board_updates-place ((status, ids) ∷ cols) issues h =
    ap₂ joined (column_updates-place issues status 0 ids h)
      (λ i k. get_board_updates-place cols issues k i)
    ∙ sym (place-append issues (slots status 0 ids) (board_slots cols) h)

find_issue-id :
    (h : Heap) (issues : List Ref) (id : ℕ) {r : Ref}
    → find_issue h issues id ≡ some r
    → (h r).id ≡ id
find_issue-id h [] id f = cc
find_issue-id h (j ∷ js) id {r} f = elim (Bool-cases ((h j).id == id)) [
  | inl t ↦
      let same : some j ≡ some r = rw t at f in
      let e : j ≡ r = cc in subst (λ (k : Ref). (h k).id ≡ id) e ((==_iff _ _).0 t)
  | inr t ↦ find_issue-id h js id (rw t at f)
]

-- Taking back the first change, of an issue that the later ones do not touch.
undo_first :
    (r j : Ref) (status : Status) (n : ℕ) (h : Heap) (later : List Change × Heap)
    → later.1 r ≡ update r (assign status n (h r)) h r
    → undo later.0 j (later.1 j) ≡ update r (assign status n (h r)) h j
    → undo
        (record { issue = r; previous_status = (h r).status; previous_position = (h r).position }
          ∷ later.0)
        j
        (later.1 j)
      ≡ h j
undo_first r j status n h later same undone = elim (Bool-cases (r == j)) [
  | inl t ↦
      let e : r ≡ j = (==_iff r j).0 t in
      let now : update r (assign status n (h r)) h r ≡ assign status n (h r) =
        rw (update_lem, ==_refl r) in
      let back : assign (h r).status (h r).position (later.1 r) ≡ h r =
        ap (assign (h r).status (h r).position) (same ∙ now) in
      rw t (subst (λ (k : Ref). assign (h r).status (h r).position (later.1 k) ≡ h k) e back)
  | inr t ↦ rw t (undone ∙ rw (update_lem, t))
]

id-update :
    (r j : Ref) (status : Status) (n : ℕ) (h : Heap)
    → (update r (assign status n (h r)) h j).id ≡ (h j).id
id-update r j status n h = elim (Bool-cases (r == j)) [
  | inl t ↦ rw (update_lem, t) (ap (λ (i : Ref). (h i).id) ((==_iff r j).0 t))
  | inr t ↦ rw (update_lem, t)
]

apart :
    (h : Heap) (r j : Ref) (id : ℕ) → (h r).id ≡ id → (id == (h j).id) ≡ false → (r == j) ≡ false
apart h r j id e n = elim (Bool-cases (r == j)) [
  | inl t ↦
      let same : (h j).id ≡ id = subst (λ (k : Ref). (h k).id ≡ id) ((==_iff r j).0 t) e in
      ground arith
  | inr t ↦ t
]

-- An issue whose id no card carries is neither changed nor remembered.
pub place_absent :
    (issues : List Ref) (ps : List Slot) (h : Heap) (j : Ref)
    → includes (ids_of ps) (h j).id ≡ false
    → ((place issues ps h).1 j ≡ h j) × (includes (refs (place issues ps h).0) j ≡ false)
unfolding place
place_absent issues [] h j a = (refl, refl)
place_absent issues ((status, index, id) ∷ ps) h j a =
    elim (Option-cases (find_issue h issues id)) [
      | inl e ↦ rw e (place_absent issues ps h j (ground arith))
      | inr (r, e) ↦
          rw e
            (elim (Bool-cases
              (not (status_eq (h r).status status) || not ((h r).position == index))) [
                | inl t ↦
                    let h' = update r (assign status index (h r)) h in
                    let away : (r == j) ≡ false =
                      apart h r j id (find_issue-id h issues id e) (ground arith) in
                    let kept : h' j ≡ h j = rw (update_lem, away) in
                    let (same, absent) = place_absent issues ps h' j (
                      subst (λ (x : Issue). includes (ids_of ps) x.id ≡ false) (sym kept)
                        (ground arith)) in
                    rw t (same ∙ kept, ground arith)
                | inr t ↦ rw t (place_absent issues ps h j (ground arith))
              ])
    ]

module _ (issues : List Ref) where
  pub place-Distinct :
      (ps : List Slot) (h : Heap) → Distinct (ids_of ps) → Distinct (refs (place issues ps h).0)
  unfolding place
  place-Distinct [] h d = tt
  place-Distinct ((status, index, id) ∷ ps) h (n, d) =
      elim (Option-cases (find_issue h issues id)) [
        | inl e ↦ rw e (place-Distinct ps h d)
        | inr (r, e) ↦
            rw e
              (elim (Bool-cases
                (not (status_eq (h r).status status) || not ((h r).position == index))) [
                  | inl t ↦
                      let h' = update r (assign status index (h r)) h in
                      let here : (h' r).id ≡ id =
                        id-update r r status index h ∙ find_issue-id h issues id e in
                      rw t (
                        (place_absent issues ps h' r
                            (subst (λ (k : ℕ). includes (ids_of ps) k ≡ false) (sym here) n)).1,
                        place-Distinct ps h' d,
                      )
                  | inr t ↦ rw t (place-Distinct ps h d)
                ])
      ]

  -- Taking the changes back gives every issue as it was before the drop.
  pub undo-place :
      (ps : List Slot) (h : Heap) (j : Ref)
      → Distinct (ids_of ps)
      → undo (place issues ps h).0 j ((place issues ps h).1 j) ≡ h j
  unfolding place
  undo-place [] h j d = refl
  undo-place ((status, index, id) ∷ ps) h j (n, d) = elim (Option-cases (find_issue h issues id)) [
    | inl e ↦ rw e (undo-place ps h j d)
    | inr (r, e) ↦
        rw e
          (elim (Bool-cases
            (not (status_eq (h r).status status) || not ((h r).position == index))) [
              | inl t ↦
                  let h' = update r (assign status index (h r)) h in
                  let here : (h' r).id ≡ id =
                    id-update r r status index h ∙ find_issue-id h issues id e in
                  let same =
                    (place_absent issues ps h' r
                      (subst (λ (k : ℕ). includes (ids_of ps) k ≡ false) (sym here) n)).0 in
                  rw t
                    (undo_first r j status index h (place issues ps h') same (undo-place ps h' j d))
              | inr t ↦ rw t (undo-place ps h j d)
            ])
  ]

find_issue-same :
    (h k : Heap) (issues : List Ref) (id : ℕ)
    → ((j : Ref) → (k j).id ≡ (h j).id)
    → find_issue k issues id ≡ find_issue h issues id
find_issue-same h k [] id same = refl
find_issue-same h k (j ∷ js) id same = rw (same j, find_issue-same h k js id same)

-- The issue with the status and the place of the card that shows it, if one does.
abbrev pub placed : List Slot → Issue → Issue
placed [] x = x
placed ((status, index, id) ∷ ps) x = if id == x.id then assign status index x else placed ps x

assign_kept :
    (x : Issue) (status : Status) (n : ℕ)
    → (not (status_eq x.status status) || not (x.position == n)) ≡ false
    → assign status n x ≡ x
assign_kept x status n t =
    let s : x.status ≡ status = status_eq→eq x.status status (ground arith) in
    let p : x.position ≡ n = ground arith in λ i. assign (sym s i) (sym p i) x

module _ (issues : List Ref) where
  pub place-placed :
      (ps : List Slot) (h : Heap) (j : Ref)
      → Distinct (ids_of ps)
      → find_issue h issues (h j).id ≡ some j
      → (place issues ps h).1 j ≡ placed ps (h j)
  unfolding place
  place-placed [] h j d f = refl
  place-placed ((status, index, id) ∷ ps) h j (n, d) f = elim (Bool-cases (id == (h j).id)) [
    | inl t ↦
        let e : id ≡ (h j).id = (==_iff _ _).0 t in
        rw (t, e, f) (here (Bool-cases _) (subst (λ (k : ℕ). includes (ids_of ps) k ≡ false) e n))
    | inr t ↦ rw t (elim (Option-cases (find_issue h issues id)) [
      | inl o ↦ rw o (place-placed ps h j d f)
      | inr (r, o) ↦
          let h' = update r (assign status index (h r)) h in
          let away : (r == j) ≡ false = apart h r j id (find_issue-id h issues id o) t in
          let kept : h' j ≡ h j = rw (update_lem, away) in
          let found : find_issue h' issues (h' j).id ≡ some j =
            find_issue-same h h' issues (h' j).id (λ k. id-update r k status index h)
            ∙ ap (λ (x : Issue). find_issue h issues x.id) kept
            ∙ f in
          rw o (
            there r (Bool-cases _) (place-placed ps h j d f)
              (place-placed ps h' j d found ∙ ap (placed ps) kept))
    ])
  ]
    where
      here :
          ((not (status_eq (h j).status status) || not ((h j).position == index)) ≡ true)
            ⊎ ((not (status_eq (h j).status status) || not ((h j).position == index)) ≡ false)
          → includes (ids_of ps) (h j).id ≡ false
          → (column_card status index (some j) (place issues ps) h).1 j ≡ assign status index (h j)
      here (inl t) a =
          let h' = update j (assign status index (h j)) h in
          let now : h' j ≡ assign status index (h j) = rw (update_lem, ==_refl j) in
          let a' : includes (ids_of ps) (h' j).id ≡ false =
            subst (λ (x : Issue). includes (ids_of ps) x.id ≡ false) (sym now) a in
          rw t ((place_absent issues ps h' j a').0 ∙ now)
      here (inr t) a =
          rw t ((place_absent issues ps h j a).0 ∙ sym (assign_kept (h j) status index t))

      there :
          (r : Ref)
          → ((not (status_eq (h r).status status) || not ((h r).position == index)) ≡ true)
            ⊎ ((not (status_eq (h r).status status) || not ((h r).position == index)) ≡ false)
          → (place issues ps h).1 j ≡ placed ps (h j)
          → (place issues ps (update r (assign status index (h r)) h)).1 j ≡ placed ps (h j)
          → (column_card status index (some r) (place issues ps) h).1 j ≡ placed ps (h j)
      there r (inl t) kept moved = rw t moved
      there r (inr t) kept moved = rw t kept
