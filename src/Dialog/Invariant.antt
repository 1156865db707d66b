-- ===== src/Dialog/Invariant.antt =====
-- The invariant of the dialog: the ETag that it holds is that of the issue that it holds.
use wuflow.Base.{
  ℕ, ◌<◌, Bool, true, false, Option, none, some, List, [], ◌∷◌, ◌==◌, opt_eq, All, ◌≡◌, ◌≢◌, ◌⊎◌,
  refl, sym, ap, subst, ◌∙◌, Bool-cases, inl, inr, arith,
}
use wuflow.Model.{Issue}
use wuflow.Dialog.{
  Copy, Tag, at, stale, Held, Request, Write, Job, Phase, idle, reloading, waiting, saving, asking,
  Dialog, hold, open_modal, close_modal, send, ends, not_saved, start_job, start_write, Answer,
  updated, conflict, fails, assign_saved, save_answered, decide, reload, next_write, Outcome,
  failed, Event, opens, closes, edits, loads, asks_save, starts, answers, decides, reloads,
}

-- What an ETag protects: all of an issue but its tasks, its position, and the assignee's user, which
-- goes by `assignee_id`.
abbrev pub guarded : Issue → Issue
guarded i = record i { tasks = []; position = 0; assignee = none }

module _ (content : ℕ → Issue) where
  -- The server's copy at its instant
  abbrev pub Genuine : Copy → Type 0
  Genuine c = guarded c.issue ≡ guarded (content c.updated_at)

  abbrev pub GenuineIf : Option Copy → Type 0
  GenuineIf none = Unit
  GenuineIf (some c) = Genuine c

  -- The tag is the stale one, or that of the version that the copy is of.
  abbrev pub Honest : Option Tag → Copy → Type 0
  Honest none c = ⊥
  Honest (some stale) c = Unit
  Honest (some (at t)) c = guarded c.issue ≡ guarded (content t)

  abbrev pub Tagged : Option Held → Option ℕ → Option Tag → Type 0
  Tagged none load tag = Unit
  Tagged (some h) none tag = Honest tag h.copy
  Tagged (some h) (some n) tag = Unit

  abbrev pub Known : Option Held → ℕ → Type 0
  Known none next = Unit
  Known (some h) next = Genuine h.copy × (h.ref < next)

  abbrev pub last_tag : List Request → Option Tag
  last_tag [] = none
  last_tag (q ∷ qs) = q.tag

  abbrev pub HasRef : Option Held → ℕ → Type 0
  HasRef none r = Unit
  HasRef (some h) r = h.ref ≡ r

  abbrev pub Current : Option ℕ → ℕ → Type 0
  Current none seq = Unit
  Current (some n) seq = n ≡ seq

  abbrev pub PhaseFits : Phase → Dialog → Type 0
  PhaseFits idle s = Unit
  PhaseFits reloading s = s.load ≡ none
  PhaseFits (waiting n j) s =
      (s.load ≡ some n) × (s.current ≡ some (record { ref = j.ref; copy = j.base }))
  PhaseFits (saving j) s =
      (s.load ≡ none) × ((last_tag s.requests ≡ some stale) ⊎ HasRef s.current j.ref)
  PhaseFits (asking j) s = s.load ≡ none

  -- What the phase asks for stays true where these fields stay.
  pub fits_kept :
      (p : Phase) (s t : Dialog)
      → s.load ≡ t.load
      → s.current ≡ t.current
      → s.requests ≡ t.requests
      → PhaseFits p s
      → PhaseFits p t
  fits_kept idle s t l c r f = tt
  fits_kept reloading s t l c r f = sym l ∙ f
  fits_kept (waiting n j) s t l c r f = (sym l ∙ f.0, sym c ∙ f.1)
  fits_kept (saving j) s t l c r f = (
    sym l ∙ f.0,
    elim f.1 [
      | inl x ↦ inl (ap last_tag (sym r) ∙ x)
      | inr x ↦ inr (subst (λ (o : Option Held). HasRef o j.ref) c x)
    ],
  )
  fits_kept (asking j) s t l c r f = sym l ∙ f

  pub record Inv (s : Dialog) : Type 0 where
    pub known : Known s.current s.next_ref
    pub tagged : Tagged s.current s.load s.etag
    pub loading : Current s.load s.load_seq
    pub fits : PhaseFits s.phase s
    pub honest : All (λ (q : Request). Honest q.tag q.base) s.requests

  abbrev pub IsFree : Dialog → Type 0
  IsFree s = (s.phase ≡ idle) × (s.queue ≡ [])

  -- What is asked of the world: the server's copies are genuine, it takes no stale tag, a revalidation
  -- is answered once, and the dialog is opened and closed only while no save is queued or running.
  abbrev pub Allowed : Event → Dialog → Type 0
  Allowed (opens c) s = IsFree s × GenuineIf c
  Allowed closes s = IsFree s
  Allowed (edits b) s = Unit
  Allowed (loads seq c) s = (seq ≡ s.load_seq → s.load ≡ some seq) × GenuineIf c
  Allowed (asks_save change) s = Unit
  Allowed starts s = Unit
  Allowed (answers (updated c)) s = Genuine c × (last_tag s.requests ≢ some stale)
  Allowed (answers conflict) s = Unit
  Allowed (answers (fails m)) s = Unit
  Allowed (decides b) s = Unit
  Allowed (reloads c) s = GenuineIf c

  pub close_modal-Inv : (s : Dialog) → s.phase ≡ idle → Inv s → Inv (close_modal s)
  unfolding close_modal
  close_modal-Inv s e v = record {
    known = tt;
    tagged = tt;
    loading = tt;
    fits = subst (λ (p : Phase). PhaseFits p (close_modal s)) (sym e) tt;
    honest = v.honest;
  }

  pub open_modal-Inv :
      (c : Option Copy) (s : Dialog) → s.phase ≡ idle → GenuineIf c → Inv s → Inv (open_modal c s)
  unfolding open_modal
  open_modal-Inv none s e g v = record {
    known = tt;
    tagged = tt;
    loading = tt;
    fits = subst (λ (p : Phase). PhaseFits p (open_modal none s)) (sym e) tt;
    honest = v.honest;
  }
  open_modal-Inv (some c) s e g v = record {
    known = (g, omega arith);
    tagged = tt;
    loading = refl;
    fits = subst (λ (p : Phase). PhaseFits p (open_modal (some c) s)) (sym e) tt;
    honest = v.honest;
  }

  pub send-Inv :
      (tag : Option Tag) (j : Job) (s : Dialog)
      → Known s.current s.next_ref
      → Tagged s.current s.load s.etag
      → s.load ≡ none
      → ((tag ≡ some stale) ⊎ HasRef s.current j.ref)
      → Honest tag j.base
      → All (λ (q : Request). Honest q.tag q.base) s.requests
      → Inv (send tag j s)
  send-Inv tag j s k t l f h hs = record {
    known = k;
    tagged = t;
    loading = subst (λ (o : Option ℕ). Current o s.load_seq) (sym l) tt;
    fits = (l, f);
    honest = (h, hs);
  }

  ends-Inv : (o : Outcome) (s : Dialog) → Inv s → Inv (ends o s)
  ends-Inv o s v = record {
    known = v.known;
    tagged = v.tagged;
    loading = v.loading;
    fits = tt;
    honest = v.honest;
  }

  start_job-Inv :
      (o : Option ℕ) (h : Held) (change : Issue → Issue) (s : Dialog)
      → s.load ≡ o
      → s.current ≡ some h
      → Inv s
      → Inv (start_job o (record { ref = h.ref; base = h.copy; change = change }) s)
  start_job-Inv none h change s l c v =
      send-Inv s.etag _ s v.known v.tagged l
        (inr (subst (λ (x : Option Held). HasRef x h.ref) (sym c) refl)) honest v.honest
    where
      honest : Honest s.etag h.copy
      honest =
          subst (λ (x : Option ℕ). Tagged (some h) x s.etag) l
            (subst (λ (x : Option Held). Tagged x s.load s.etag) c v.tagged)
  start_job-Inv (some n) h change s l c v = record {
    known = v.known;
    tagged = v.tagged;
    loading = v.loading;
    fits = (l, c);
    honest = v.honest;
  }

  start_write-Inv :
      (o : Option Held) (w : Write) (s : Dialog) → s.current ≡ o → Inv s → Inv (start_write o w s)
  start_write-Inv none w s c v = ends-Inv not_saved s v
  start_write-Inv (some h) w s c v = elim (Bool-cases (opt_eq w.issue_id (some h.copy.issue.id))) [
    | inl t ↦ rw t (start_job-Inv s.load h w.change s refl c v)
    | inr t ↦ rw t (ends-Inv not_saved s v)
  ]

  pub next_write-Inv :
      (p : Phase) (ws : List Write) (s : Dialog) → s.phase ≡ p → Inv s → Inv (next_write p ws s)
  next_write-Inv idle (w ∷ ws) s e v =
      start_write-Inv s.current w (record s { queue = ws }) refl
        (record {
          known = v.known;
          tagged = v.tagged;
          loading = v.loading;
          fits = subst (λ (p : Phase). PhaseFits p (record s { queue = ws })) (sym e) tt;
          honest = v.honest;
        })
  next_write-Inv idle [] s e v = v
  next_write-Inv reloading ws s e v = v
  next_write-Inv (waiting n j) ws s e v = v
  next_write-Inv (saving j) ws s e v = v
  next_write-Inv (asking j) ws s e v = v

  -- A fresh copy from the server, with its tag, in place of the issue.
  hold-Inv :
      (c : Copy) (s : Dialog)
      → Genuine c
      → s.phase ≡ idle
      → s.load ≡ none
      → All (λ (q : Request). Honest q.tag q.base) s.requests
      → Inv (hold c (record s { etag = some (at c.updated_at) }))
  hold-Inv c s g e l hs = record {
    known = (g, omega arith);
    tagged =
        subst
          (λ (o : Option ℕ).
            Tagged (some (record { ref = s.next_ref; copy = c })) o (some (at c.updated_at)))
          (sym l) g;
    loading = subst (λ (o : Option ℕ). Current o s.load_seq) (sym l) tt;
    fits =
        subst (λ (p : Phase). PhaseFits p (hold c (record s { etag = some (at c.updated_at) })))
          (sym e) tt;
    honest = hs;
  }

  assign_saved-Known :
      (j : Job) (c : Copy) (o : Option Held) (next : ℕ)
      → Genuine c
      → Known o next
      → Known (assign_saved j c o) next
  assign_saved-Known j c none next g k = tt
  assign_saved-Known j c (some h) next g k = elim (Bool-cases (h.ref == j.ref)) [
    | inl t ↦ rw t (g, k.1)
    | inr t ↦ rw t k
  ]

  assign_saved-Tagged :
      (j : Job) (c : Copy) (o : Option Held) (load : Option ℕ)
      → Genuine c
      → HasRef o j.ref
      → Tagged (assign_saved j c o) load (some (at c.updated_at))
  assign_saved-Tagged j c none load g r = tt
  assign_saved-Tagged j c (some h) none g r =
      let same : (h.ref == j.ref) ≡ true = ground arith in rw same g
  assign_saved-Tagged j c (some h) (some n) g r =
      let same : (h.ref == j.ref) ≡ true = ground arith in rw same tt

  pub save_answered-Inv :
      (p : Phase) (a : Answer) (s : Dialog)
      → s.phase ≡ p
      → Allowed (answers a) s
      → Inv s
      → Inv (save_answered p a s)
  save_answered-Inv (saving j) (updated c) s e (g, ok) v = record {
    known = assign_saved-Known j c s.current s.next_ref g v.known;
    tagged =
        assign_saved-Tagged j c s.current s.load g
          (elim fits.1 [ inl x ↦ absurd (ok x) | inr x ↦ x ]);
    loading = v.loading;
    fits = tt;
    honest = v.honest;
  }
    where
      fits : PhaseFits (saving j) s
      fits = subst (λ (p : Phase). PhaseFits p s) e v.fits
  save_answered-Inv (saving j) conflict s e ok v = record {
    known = v.known;
    tagged = v.tagged;
    loading = v.loading;
    fits = fits.0;
    honest = v.honest;
  }
    where
      fits : PhaseFits (saving j) s
      fits = subst (λ (p : Phase). PhaseFits p s) e v.fits
  save_answered-Inv (saving j) (fails m) s e ok v = ends-Inv (failed m) s v
  save_answered-Inv idle a s e ok v = v
  save_answered-Inv reloading a s e ok v = v
  save_answered-Inv (waiting n j) a s e ok v = v
  save_answered-Inv (asking j) a s e ok v = v

  pub decide-Inv : (p : Phase) (b : Bool) (s : Dialog) → s.phase ≡ p → Inv s → Inv (decide p b s)
  decide-Inv (asking j) true s e v = record {
    known = v.known;
    tagged = v.tagged;
    loading = v.loading;
    fits = subst (λ (p : Phase). PhaseFits p s) e v.fits;
    honest = v.honest;
  }
  decide-Inv (asking j) false s e v = ends-Inv not_saved s v
  decide-Inv idle b s e v = v
  decide-Inv reloading b s e v = v
  decide-Inv (waiting n j) b s e v = v
  decide-Inv (saving j) b s e v = v

  pub reload-Inv :
      (p : Phase) (c : Option Copy) (s : Dialog)
      → s.phase ≡ p
      → GenuineIf c
      → Inv s
      → Inv (reload p c s)
  reload-Inv reloading none s e g v = ends-Inv not_saved s v
  reload-Inv reloading (some c) s e g v =
      hold-Inv c (ends not_saved s) g refl (subst (λ (p : Phase). PhaseFits p s) e v.fits) v.honest
  reload-Inv idle c s e g v = v
  reload-Inv (waiting n j) c s e g v = v
  reload-Inv (saving j) c s e g v = v
  reload-Inv (asking j) c s e g v = v
