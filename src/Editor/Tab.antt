-- ===== src/Editor/Tab.antt =====
-- Tab and Shift+Tab on a selection.
use wuflow.Base.{
  ℕ, ◌+◌, ◌-◌, ◌≤◌, ◌<◌, Bool, true, false, not, ◌&&◌, List, [], ◌∷◌, ◌++◌, map, ◌==◌, ltb,
  if◌then◌else◌, length, length-append, get_elem?, All, ◌≡◌, refl, sym, ap, ap₂, ◌∙◌, arith,
}
use mathlib.Core.List.{append_assoc}
use wuflow.Model.{Text}
use wuflow.Editor.{
  Editor, is_break, shift_line, indent, dedent, moved, first_line, total, adjusted_end, put_shifted,
  shift_lines, handle_tab_key,
}
use wuflow.Editor.Lines.{newline, drop, substring, split_lines, join_lines, line_start, line_end}
use wuflow.Editor.Selection.{
  IsLine, ended, begun, take_all, drop-append, append-IsLine, line_start-ended, line_end-line,
  substring-middle, split_lines-ended, join_lines-ended, no_break_before,
}

-- The lines `bs`, `ls` and `zs`, with a line `u ++ w` behind `ls`. The selection starts at column k of the
-- first line behind `bs` and ends behind u.
abbrev pub selected : List Text → List Text → Text → Text → List Text → ℕ → Editor
selected bs ls u w zs k = record {
  value = ended bs ++ ((ended ls ++ (u ++ w)) ++ begun zs);
  start = length (ended bs) + k;
  stop = length (ended bs) + length (ended ls ++ u);
}

abbrev pub touched : List Text → Text → Text → List Text
touched ls u w = ls ++ (u ++ w) ∷ []

first_split :
    (ls : List Text) (x t : Text)
    → (y : Text) × ((ended ls ++ x) ++ t ≡ first_line (ls ++ x ∷ []) ++ y)
first_split [] x t = (t, refl)
first_split (l ∷ ls) x t = (
  newline ∷ ((ended ls ++ x) ++ t),
  ap (λ (s : Text). s ++ t) (append_assoc l (newline ∷ ended ls) x)
      ∙ append_assoc l (newline ∷ (ended ls ++ x)) t,
)

first-IsLine :
    (ls : List Text) (x : Text) → All IsLine ls → IsLine x → IsLine (first_line (ls ++ x ∷ []))
first-IsLine [] x a h = h
first-IsLine (l ∷ ls) x (b, a) h = b

map-last :
    (f : Text → Text) (ls : List Text) (x : Text) → map f (ls ++ x ∷ []) ≡ map f ls ++ f x ∷ []
map-last f [] x = refl
map-last f (l ∷ ls) x = ap (f l ∷◌) (map-last f ls x)

and_false : (b : Bool) → (b && false) ≡ false
and_false true = refl
and_false false = refl

module _ (bs ls : List Text) (c : ℕ) (u w : Text) (zs : List Text) (k : ℕ) (clean : All IsLine ls)
    (clean_u : IsLine (c ∷ u)) (clean_w : IsLine w)
    (column : k ≤ length (first_line (touched ls (c ∷ u) w)))
    (inside : 1 ≤ length (ended bs) + k) where
  abbrev e : Editor
  e = selected bs ls (c ∷ u) w zs k

  from : line_start e.value (e.start - 1) ≡ length (ended bs)
  from =
      let (y, s) = first_split ls ((c ∷ u) ++ w) (begun zs) in
      ap (λ (t : Text). line_start (ended bs ++ t) (e.start - 1)) s
      ∙ line_start-ended bs (first_line (touched ls (c ∷ u) w)) y k
          (first-IsLine ls ((c ∷ u) ++ w) clean (append-IsLine (c ∷ u) w clean_u clean_w)) column
          inside

  -- The text in front of the end of the selection
  abbrev front : Text
  front = ended bs ++ (ended ls ++ c ∷ u)

  by_end : e.value ≡ front ++ (w ++ begun zs)
  by_end =
      ap (λ (t : Text). ended bs ++ t)
        (ap (λ (t : Text). t ++ begun zs) (sym (append_assoc (ended ls) (c ∷ u) w))
          ∙ append_assoc (ended ls ++ c ∷ u) w (begun zs))
      ∙ sym (append_assoc (ended bs) (ended ls ++ c ∷ u) (w ++ begun zs))

  end_adjusted : adjusted_end e ≡ length front
  end_adjusted =
      let n = length-append (ended bs) (ended ls ++ c ∷ u) in
      let m = length-append (ended ls) (c ∷ u) in
      let p = length-append (ended bs) (ended ls) in
      let last : e.stop - 1 ≡ length (ended bs ++ ended ls) + length u = omega arith in
      let apart : e.value ≡ (ended bs ++ ended ls) ++ ((c ∷ u) ++ (w ++ begun zs)) =
        ap (ended bs ++◌) (
          append_assoc (ended ls) ((c ∷ u) ++ w) (begun zs)
          ∙ ap (ended ls ++◌) (append_assoc (c ∷ u) w (begun zs)))
        ∙ sym (append_assoc (ended bs) (ended ls) ((c ∷ u) ++ (w ++ begun zs))) in
      let quiet : is_break (get_elem? e.value (e.stop - 1)) ≡ false =
        ap₂ (λ (t : Text) (n : ℕ). is_break (get_elem? t n)) apart last
        ∙ no_break_before (ended bs ++ ended ls) c u (w ++ begun zs) clean_u in
      rw (quiet, and_false (ltb e.start e.stop)) (sym n)

  to : line_end e.value (adjusted_end e) ≡ length (ended bs ++ (ended ls ++ ((c ∷ u) ++ w)))
  to =
      ap₂ line_end by_end end_adjusted
      ∙ line_end-line front w zs clean_w
      ∙ ap length (
          append_assoc (ended bs) (ended ls ++ c ∷ u) w
          ∙ ap (ended bs ++◌) (append_assoc (ended ls) (c ∷ u) w))

  shift_lines-selected :
      (shift : Bool)
      → let L = touched ls (c ∷ u) w in
        let M = map (shift_line shift) L in
        let start =
          moved (length (ended bs)) e.start (length (first_line M)) (length (first_line L)) in
        shift_lines shift e ≡ record {
          value =
              ended bs
              ++ ((ended (map (shift_line shift) ls) ++ shift_line shift ((c ∷ u) ++ w))
                  ++ begun zs);
          start = start;
          stop =
              if e.start == e.stop
              then start
              else moved (length (ended bs)) e.stop (total M) (total L);
        }
  shift_lines-selected shift =
      let line = (c ∷ u) ++ w in
      let text = ended ls ++ line in
      let lines : split_lines (substring (length (ended bs)) (length (ended bs ++ text)) e.value)
          ≡ touched ls (c ∷ u) w =
        ap split_lines (substring-middle (ended bs) text (begun zs))
        ∙ split_lines-ended ls line clean (append-IsLine (c ∷ u) w clean_u clean_w) in
      let joined : join_lines (map (shift_line shift) (touched ls (c ∷ u) w))
          ≡ ended (map (shift_line shift) ls) ++ shift_line shift line =
        ap join_lines (map-last (shift_line shift) ls line)
        ∙ join_lines-ended (map (shift_line shift) ls) (shift_line shift line) in
      let rest : drop (length (ended bs ++ text)) e.value ≡ begun zs =
        ap (drop (length (ended bs ++ text))) (sym (append_assoc (ended bs) text (begun zs)))
        ∙ drop-append (ended bs ++ text) (begun zs) in
      ap₂ (λ (f t : ℕ). put_shifted shift e f t (split_lines (substring f t e.value))) from to
      ∙ ap (put_shifted shift e (length (ended bs)) (length (ended bs ++ text))) lines
      ∙ ap
          (λ (v : Text).
            record (put_shifted shift e (length (ended bs)) (length (ended bs ++ text))
              (touched ls (c ∷ u) w)) { value = v })
          (ap₂ ◌++◌ (take_all (ended bs) (text ++ begun zs)) (ap₂ ◌++◌ joined rest))

-- What two more spaces in front of each line add to lengths
ended-indent :
    (ls : List Text) → length (ended (map indent ls)) ≡ length (ended ls) + (length ls + length ls)
ended-indent [] = refl
ended-indent (l ∷ ls) =
    let p = length-append l (newline ∷ ended ls) in
    let q = length-append l (newline ∷ ended (map indent ls)) in
    let r = ended-indent ls in omega arith

total-indent :
    (ls : List Text) (x : Text)
    → total (map indent (ls ++ x ∷ [])) ≡ total (ls ++ x ∷ []) + (2 + (length ls + length ls))
total-indent [] x = omega arith
total-indent (l ∷ ls) x = let r = total-indent ls x in omega arith

first-indent :
    (ls : List Text) (x : Text)
    → length (first_line (map indent (ls ++ x ∷ []))) ≡ length (first_line (ls ++ x ∷ [])) + 2
first-indent [] x = omega arith
first-indent (l ∷ ls) x = omega arith

indent-IsLine : (ls : List Text) → All IsLine ls → All IsLine (map indent ls)
indent-IsLine [] a = tt
indent-IsLine (l ∷ ls) (b, a) = ((refl, (refl, b)), indent-IsLine ls a)

dedent-indent : (ls : List Text) → map dedent (map indent ls) ≡ ls
dedent-indent [] = refl
dedent-indent (l ∷ ls) = ap (l ∷◌) (dedent-indent ls)

moved_by :
    (floor pos gained lost n : ℕ)
    → gained ≡ lost + n
    → floor ≤ pos
    → moved floor pos gained lost ≡ pos + n
moved_by floor pos gained lost n g b = ground arith

handle_tab_key-lines :
    (shift : Bool) (e : Editor)
    → (e.start == e.stop && not shift) ≡ false
    → handle_tab_key shift e ≡ shift_lines shift e
unfolding handle_tab_key
handle_tab_key-lines shift e h = rw h refl

-- Tab indents each line that the selection touches and keeps it selected.
tab-selected :
    (bs ls : List Text) (c : ℕ) (u w : Text) (zs : List Text) (k : ℕ)
    → All IsLine ls
    → IsLine (c ∷ u)
    → IsLine w
    → k ≤ length (first_line (touched ls (c ∷ u) w))
    → 1 ≤ length (ended bs) + k
    → k < length (ended ls ++ c ∷ u)
    → handle_tab_key false (selected bs ls (c ∷ u) w zs k)
      ≡ selected bs (map indent ls) (indent (c ∷ u)) w zs (k + 2)
tab-selected bs ls c u w zs k clean clean_u clean_w column inside filled =
    let e = selected bs ls (c ∷ u) w zs k in
    let L = touched ls (c ∷ u) w in
    let differ : (e.start == e.stop) ≡ false = ground arith in
    let start : moved (length (ended bs)) e.start (length (first_line (map indent L)))
          (length (first_line L))
        ≡ length (ended bs) + (k + 2) =
      moved_by (length (ended bs)) e.start _ _ 2 (first-indent ls ((c ∷ u) ++ w)) (omega arith)
      ∙ omega arith in
    let longer = ended-indent ls in
    let p = length-append (ended ls) (c ∷ u) in
    let q = length-append (ended (map indent ls)) (indent (c ∷ u)) in
    let n = 2 + (length ls + length ls) in
    let stop : moved (length (ended bs)) e.stop (total (map indent L)) (total L)
        ≡ length (ended bs) + length (ended (map indent ls) ++ indent (c ∷ u)) =
      moved_by (length (ended bs)) e.stop _ _ n (total-indent ls ((c ∷ u) ++ w)) (omega arith)
      ∙ omega arith in
    handle_tab_key-lines false e (rw differ refl)
    ∙ shift_lines-selected bs ls c u w zs k clean clean_u clean_w column inside false
    ∙ ap₂
        (λ (a b : ℕ). record {
          value = ended bs ++ ((ended (map indent ls) ++ indent ((c ∷ u) ++ w)) ++ begun zs);
          start = a;
          stop = b;
        })
        start
        (ap
            (λ (x : Bool).
              if x
              then moved (length (ended bs)) e.start (length (first_line (map indent L)))
                  (length (first_line L))
              else moved (length (ended bs)) e.stop (total (map indent L)) (total L))
            differ
          ∙ stop)

-- Tab and then Shift+Tab give the text back, where some of it is selected, from a position that is not
-- the very start of the text to one that is not the start of a line.
pub handle_tab_key-handle_tab_key :
    (bs ls : List Text) (c : ℕ) (u w : Text) (zs : List Text) (k : ℕ)
    → All IsLine ls
    → IsLine (c ∷ u)
    → IsLine w
    → k ≤ length (first_line (touched ls (c ∷ u) w))
    → 1 ≤ length (ended bs) + k
    → k < length (ended ls ++ c ∷ u)
    → let e = selected bs ls (c ∷ u) w zs k in
      (handle_tab_key true (handle_tab_key false e)).value ≡ e.value
handle_tab_key-handle_tab_key bs ls c u w zs k clean clean_u clean_w column inside filled =
    let wider : length (first_line (touched (map indent ls) (indent (c ∷ u)) w))
        ≡ length (first_line (touched ls (c ∷ u) w)) + 2 =
      ap (λ (m : List Text). length (first_line m)) (sym (map-last indent ls ((c ∷ u) ++ w)))
      ∙ first-indent ls ((c ∷ u) ++ w) in
    let e' = selected bs (map indent ls) (indent (c ∷ u)) w zs (k + 2) in
    ap (λ (d : Editor). (handle_tab_key true d).value)
      (tab-selected bs ls c u w zs k clean clean_u clean_w column inside filled)
    ∙ ap (λ (d : Editor). d.value)
        (handle_tab_key-lines true e' (and_false (e'.start == e'.stop))
          ∙ shift_lines-selected bs (map indent ls) 32 (32 ∷ c ∷ u) w zs (k + 2)
              (indent-IsLine ls clean) (refl, (refl, clean_u)) clean_w (omega (arith, wider))
              (omega arith) true)
    ∙ ap (λ (m : List Text). ended bs ++ ((ended m ++ ((c ∷ u) ++ w)) ++ begun zs))
        (dedent-indent ls)
