-- ===== src/Editor/Selection.antt =====
-- A text as its lines, and where the searches for line breaks stop in it.
use wuflow.Base.{
  ℕ, zero, suc, ◌+◌, ◌-◌, ◌≤◌, true, false, Option, none, some, List, [], ◌∷◌, ◌++◌, ◌==◌, leb,
  length, length-append, get_elem?, All, ◌≡◌, refl, sym, ap, ◌∙◌, arith,
}
use mathlib.Core.List.{append_assoc}
use wuflow.Model.{Text}
use wuflow.Editor.{is_break}
use wuflow.Editor.Lines.{
  newline, take, drop, substring, put_first, split_lines, join_lines, last_in, line_start, line_end,
}

-- A line has no line break.
abbrev pub IsLine : Text → Type 0
IsLine l = All (λ (c : ℕ). (c == newline) ≡ false) l

-- Lines that end with a line break, and lines that start with one
abbrev pub ended : List Text → Text
ended [] = []
ended (l ∷ ls) = l ++ newline ∷ ended ls

abbrev pub begun : List Text → Text
begun [] = []
begun (l ∷ ls) = newline ∷ (l ++ begun ls)

zero_add : (n : ℕ) → 0 + n ≡ n
zero_add n = omega arith

suc_add : (m n : ℕ) → suc m + n ≡ suc (m + n)
suc_add m n = omega arith

pub take-append : (x y : Text) (k : ℕ) → take (length x + k) (x ++ y) ≡ x ++ take k y
take-append [] y k = rw (zero_add k) refl
take-append (c ∷ x) y k = rw (suc_add (length x) k) (ap (c ∷◌) (take-append x y k))

pub take_all : (x y : Text) → take (length x) (x ++ y) ≡ x
take_all [] y = refl
take_all (c ∷ x) y = ap (c ∷◌) (take_all x y)

pub drop-append : (x y : Text) → drop (length x) (x ++ y) ≡ y
drop-append [] y = refl
drop-append (c ∷ x) y = drop-append x y

pub take_short : (x y : Text) (k : ℕ) → k ≤ length x → take k (x ++ y) ≡ take k x
take_short x y zero h = refl
take_short [] y (suc k) h = absurd (omega arith)
take_short (c ∷ x) y (suc k) h = ap (c ∷◌) (take_short x y k (omega arith))

pub take-IsLine : (x : Text) (k : ℕ) → IsLine x → IsLine (take k x)
take-IsLine x zero h = tt
take-IsLine [] (suc k) h = tt
take-IsLine (c ∷ x) (suc k) (h, hs) = (h, take-IsLine x k hs)

pub append-IsLine : (x y : Text) → IsLine x → IsLine y → IsLine (x ++ y)
append-IsLine [] y a b = b
append-IsLine (c ∷ x) y (h, a) b = (h, append-IsLine x y a b)

-- Behind the last line break
abbrev pub behind : Option ℕ → ℕ
behind none = 0
behind (some i) = suc i

last_in-IsLine : (x : Text) → IsLine x → last_in x ≡ none
last_in-IsLine [] h = refl
last_in-IsLine (c ∷ x) (h, hs) = rw (last_in-IsLine x hs) (rw h refl)

last_in-break : (x y : Text) → last_in (x ++ newline ∷ y) ≡ some (length x + behind (last_in y))
last_in-break [] y = rw (zero_add (behind (last_in y))) (from (last_in y))
  where
    from : (o : Option ℕ) → elim o [ some i ↦ some (suc i) | none ↦ some 0 ] ≡ some (behind o)
    from none = refl
    from (some i) = refl
last_in-break (c ∷ x) y = rw (last_in-break x y, suc_add (length x) (behind (last_in y))) refl

last_in-ended :
    (ls : List Text) (x : Text) → IsLine x → behind (last_in (ended ls ++ x)) ≡ length (ended ls)
last_in-ended [] x h = rw (last_in-IsLine x h) refl
last_in-ended (l ∷ ls) x h =
    rw
      (append_assoc l (newline ∷ ended ls) x, last_in-break l (ended ls ++ x), last_in-ended ls x h)
      (omega (arith, length-append l (newline ∷ ended ls)))

-- `lineStart` of a position in a line
pub line_start-ended :
    (ls : List Text) (x y : Text) (k : ℕ)
    → IsLine x
    → k ≤ length x
    → 1 ≤ length (ended ls) + k
    → line_start (ended ls ++ (x ++ y)) (length (ended ls) + k - 1) ≡ length (ended ls)
line_start-ended ls x y k h b one =
    let e : suc (length (ended ls) + k - 1) ≡ length (ended ls) + k = omega arith in
    ap (λ (n : ℕ). behind (last_in (take n (ended ls ++ (x ++ y))))) e
    ∙ ap (λ (t : Text). behind (last_in t))
        (take-append (ended ls) (x ++ y) k ∙ ap (ended ls ++◌) (take_short x y k b))
    ∙ last_in-ended ls (take k x) (take-IsLine x k h)

line_end-append : (x y : Text) → line_end (x ++ y) (length x) ≡ length x + line_end y 0
line_end-append [] y = rw (zero_add (line_end y 0)) refl
line_end-append (c ∷ x) y = rw (suc_add (length x) (line_end y 0)) (ap suc (line_end-append x y))

-- `lineEnd` of a position in a line
line_end-begun : (w : Text) (ls : List Text) → IsLine w → line_end (w ++ begun ls) 0 ≡ length w
line_end-begun [] [] h = refl
line_end-begun [] (l ∷ ls) h = refl
line_end-begun (c ∷ w) ls (h, hs) = rw h (ap suc (line_end-begun w ls hs))

pub line_end-line :
    (x w : Text) (ls : List Text)
    → IsLine w
    → line_end (x ++ (w ++ begun ls)) (length x) ≡ length (x ++ w)
line_end-line x w ls h =
    line_end-append x (w ++ begun ls)
    ∙ ap (λ (n : ℕ). length x + n) (line_end-begun w ls h)
    ∙ sym (length-append x w)

pub substring-middle : (x y z : Text) → substring (length x) (length (x ++ y)) (x ++ (y ++ z)) ≡ y
substring-middle x y z =
    let fits : leb (length x) (length (x ++ y)) ≡ true = ground (arith, length-append x y) in
    rw fits (
      ap (drop (length x))
        (ap (take (length (x ++ y))) (sym (append_assoc x y z)) ∙ take_all (x ++ y) z)
      ∙ drop-append x y)

split_lines-line : (l y : Text) → IsLine l → split_lines (l ++ newline ∷ y) ≡ l ∷ split_lines y
split_lines-line [] y h = refl
split_lines-line (c ∷ l) y (h, hs) = rw h (ap (put_first c) (split_lines-line l y hs))

split_lines-last : (l : Text) → IsLine l → split_lines l ≡ l ∷ []
split_lines-last [] h = refl
split_lines-last (c ∷ l) (h, hs) = rw h (ap (put_first c) (split_lines-last l hs))

pub split_lines-ended :
    (ls : List Text) (l : Text)
    → All IsLine ls
    → IsLine l
    → split_lines (ended ls ++ l) ≡ ls ++ l ∷ []
split_lines-ended [] l a h = split_lines-last l h
split_lines-ended (x ∷ ls) l (b, a) h =
    ap split_lines (append_assoc x (newline ∷ ended ls) l)
    ∙ split_lines-line x (ended ls ++ l) b
    ∙ ap (x ∷◌) (split_lines-ended ls l a h)

pub join_lines-ended : (ls : List Text) (l : Text) → join_lines (ls ++ l ∷ []) ≡ ended ls ++ l
join_lines-ended [] l = refl
join_lines-ended (x ∷ []) l = sym (append_assoc x (newline ∷ []) l)
join_lines-ended (x ∷ y ∷ ls) l =
    ap (λ (t : Text). x ++ newline ∷ t) (join_lines-ended (y ∷ ls) l)
    ∙ sym (append_assoc x (newline ∷ ended (y ∷ ls)) l)

-- The last character of a line is no line break.
no_break_last :
    (c : ℕ) (u y : Text) → IsLine (c ∷ u) → is_break (get_elem? ((c ∷ u) ++ y) (length u)) ≡ false
no_break_last c [] y (h, hs) = h
no_break_last c (d ∷ u) y (h, hs) = no_break_last d u y hs

pub no_break_before :
    (x : Text) (c : ℕ) (u y : Text)
    → IsLine (c ∷ u)
    → is_break (get_elem? (x ++ ((c ∷ u) ++ y)) (length x + length u)) ≡ false
no_break_before [] c u y h = rw (zero_add (length u)) (no_break_last c u y h)
no_break_before (b ∷ x) c u y h = rw (suc_add (length x) (length u)) (no_break_before x c u y h)
