-- ===== src/Dialog/Load.antt =====
-- What the revalidation leaves behind, and the tag of a write that waits for it.
use wuflow.Base.{
  ℕ, ◌<◌, true, false, Option, none, some, ◌==◌, ==_iff, ==_refl, All, if◌then◌else◌, ◌≡◌, ◌⊎◌,
  refl, sym, subst, ◌∙◌, Bool-cases, inl, inr, arith,
}
use wuflow.Model.{Issue}
use wuflow.Dialog.{
  Copy, Tag, at, stale, Held, is_held, same_version, Request, Job, Phase, idle, reloading, waiting,
  saving, asking, Dialog, close_modal, revalidated, tag_after_load, resume, load_ends,
}
use wuflow.Dialog.Invariant.{
  guarded, GenuineIf, Honest, Tagged, Known, HasRef, Current, PhaseFits, Inv, send-Inv,
}

module _ (content : ℕ → Issue) where
  -- The dialog once its revalidation is there: a write that waits for it gets an honest tag.
  record Revalidated (s s' : Dialog) : Type 0 where
    known : Known content s'.current s'.next_ref
    tagged : Tagged content s'.current s'.load s'.etag
    loaded : s'.load ≡ none
    honest : All (λ (q : Request). Honest content q.tag q.base) s'.requests
    same_phase : s'.phase ≡ s.phase
    held :
        (j : Job)
        → s.current ≡ some (record { ref = j.ref; copy = j.base })
        → Honest content (tag_after_load j s') j.base

  same_version-Honest :
      (o : Option Held) (c : Copy) (next : ℕ)
      → Known content o next
      → same_version o c ≡ true
      → Tagged content o none (some (at c.updated_at))
  same_version-Honest none c next k e = tt
  same_version-Honest (some h) c next k e =
      let same : c.updated_at ≡ h.copy.updated_at = (==_iff _ _).0 e in
      subst (λ (t : ℕ). guarded h.copy.issue ≡ guarded (content t)) (sym same) k.0

  held_tag :
      (o : Option Held) (tag : Option Tag) (j : Job)
      → o ≡ some (record { ref = j.ref; copy = j.base })
      → Tagged content o none tag
      → Honest content (if is_held o j.ref then tag else some stale) j.base
  held_tag o tag j e t =
      subst
        (λ (x : Option Held). Honest content (if is_held x j.ref then tag else some stale) j.base)
        (sym e) (rw (==_refl j.ref) (subst (λ (x : Option Held). Tagged content x none tag) e t))

  Tagged-stale : (o : Option Held) (load : Option ℕ) → Tagged content o load (some stale)
  Tagged-stale none load = tt
  Tagged-stale (some h) none = tt
  Tagged-stale (some h) (some n) = tt

  another_object :
      (o : Option Held) (next : ℕ) (tag : Option Tag) (j : Job)
      → Known content o next
      → o ≡ some (record { ref = j.ref; copy = j.base })
      → Honest content (if next == j.ref then tag else some stale) j.base
  another_object o next tag j k e =
      let below : j.ref < next = (subst (λ (x : Option Held). Known content x next) e k).1 in
      let apart : (next == j.ref) ≡ false = ground arith in rw apart tt

  revalidated-Revalidated :
      (answer : Option Copy) (s : Dialog)
      → GenuineIf content answer
      → Inv content s
      → Revalidated s (revalidated answer s)
  unfolding close_modal
  revalidated-Revalidated none s g v = record {
    known = tt;
    tagged = tt;
    loaded = refl;
    honest = v.honest;
    same_phase = refl;
    held = λ j e. tt;
  }
  revalidated-Revalidated (some c) s g v = elim (Bool-cases (same_version s.current c)) [
    | inl t ↦ rw t (record {
      known = v.known;
      tagged = same_version-Honest s.current c s.next_ref v.known t;
      loaded = refl;
      honest = v.honest;
      same_phase = refl;
      held = λ j e.
          held_tag s.current (some (at c.updated_at)) j e
            (same_version-Honest s.current c s.next_ref v.known t);
    })
    | inr t ↦ elim (Bool-cases s.editing) [
      | inl u ↦
          rw (t, u)
            (record {
              known = v.known;
              tagged = Tagged-stale s.current none;
              loaded = refl;
              honest = v.honest;
              same_phase = refl;
              held = λ j e. held_tag s.current (some stale) j e (Tagged-stale s.current none);
            })
      | inr u ↦
          rw (t, u)
            (record {
              known = (g, omega arith);
              tagged = g;
              loaded = refl;
              honest = v.honest;
              same_phase = refl;
              held =
                  λ j e. another_object s.current s.next_ref (some (at c.updated_at)) j v.known e;
            })
    ]
  ]

  -- What the phase asks for, once the dialog is revalidated.
  resume-Inv :
      (p : Phase) (seq : ℕ) (s s' : Dialog)
      → s.phase ≡ p
      → s.load ≡ some seq
      → PhaseFits content p s
      → Revalidated s s'
      → Inv content (resume seq p s')
  resume-Inv idle seq s s' e l f r = record {
    known = r.known;
    tagged = r.tagged;
    loading = subst (λ (o : Option ℕ). Current content o s'.load_seq) (sym r.loaded) tt;
    fits = subst (λ (p : Phase). PhaseFits content p s') (sym (r.same_phase ∙ e)) tt;
    honest = r.honest;
  }
  resume-Inv reloading seq s s' e l f r = let x : none ≡ some seq = sym f ∙ l in absurd (cc)
  resume-Inv (saving j) seq s s' e l f r = let x : none ≡ some seq = sym f.0 ∙ l in absurd (cc)
  resume-Inv (asking j) seq s s' e l f r = let x : none ≡ some seq = sym f ∙ l in absurd (cc)
  resume-Inv (waiting n j) seq s s' e l f r =
      let same : (n == seq) ≡ true = ground (arith, sym f.0 ∙ l) in
      rw same (
        send-Inv content (tag_after_load j s') j s' r.known r.tagged r.loaded
          (object s'.current s'.etag) (r.held j f.1) r.honest)
    where
      object :
          (o : Option Held) (tag : Option Tag)
          → ((if is_held o j.ref then tag else some stale) ≡ some stale) ⊎ HasRef content o j.ref
      object none tag = inl refl
      object (some h) tag = elim (Bool-cases (h.ref == j.ref)) [
        | inl t ↦ inr ((==_iff h.ref j.ref).0 t)
        | inr t ↦ inl (rw t refl)
      ]

  -- An answer of a revalidation that is not awaited any more changes nothing.
  resume_other :
      (p : Phase) (seq : ℕ) (s : Dialog)
      → s.phase ≡ p
      → (seq == s.load_seq) ≡ false
      → Inv content s
      → Inv content (resume seq p s)
  resume_other idle seq s e d v = v
  resume_other reloading seq s e d v = v
  resume_other (saving j) seq s e d v = v
  resume_other (asking j) seq s e d v = v
  resume_other (waiting n j) seq s e d v =
      let fits : PhaseFits content (waiting n j) s =
        subst (λ (p : Phase). PhaseFits content p s) e v.fits in
      let latest : n ≡ s.load_seq =
        subst (λ (o : Option ℕ). Current content o s.load_seq) fits.0 v.loading in
      let apart : (n == seq) ≡ false = ground arith in rw apart v

  pub load_ends-Inv :
      (seq : ℕ) (answer : Option Copy) (s : Dialog)
      → (seq ≡ s.load_seq → s.load ≡ some seq)
      → GenuineIf content answer
      → Inv content s
      → Inv content (load_ends seq answer s)
  unfolding load_ends
  load_ends-Inv seq answer s once g v = elim (Bool-cases (seq == s.load_seq)) [
    | inl t ↦
        let l = once ((==_iff _ _).0 t) in
        let r = revalidated-Revalidated answer s g v in
        rw t (
          subst (λ (p : Phase). Inv content (resume seq p (revalidated answer s)))
            (sym r.same_phase) (resume-Inv s.phase seq s (revalidated answer s) refl l v.fits r))
    | inr t ↦ rw t (resume_other s.phase seq s refl t v)
  ]
