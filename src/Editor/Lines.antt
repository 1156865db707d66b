-- ===== src/Editor/Lines.antt =====
-- Texts as lines, and the searches of JavaScript for a line break.
use wuflow.Base.{ℕ, zero, suc, Option, none, some, List, [], ◌∷◌, ◌++◌, ◌==◌, leb, if◌then◌else◌}
use wuflow.Model.{Text}

abbrev pub newline : ℕ
newline = 10

abbrev pub take : ℕ → Text → Text
take zero s = []
take (suc n) [] = []
take (suc n) (c ∷ s) = c ∷ take n s

abbrev pub drop : ℕ → Text → Text
drop zero s = s
drop (suc n) [] = []
drop (suc n) (c ∷ s) = drop n s

-- `s.substring(a, b)` takes its ends in either order.
abbrev pub substring : ℕ → ℕ → Text → Text
substring a b s = if leb a b then drop a (take b s) else drop b (take a s)

-- `s.split('\n')`
abbrev pub put_first : ℕ → List Text → List Text
put_first c [] = (c ∷ []) ∷ []
put_first c (l ∷ ls) = (c ∷ l) ∷ ls

abbrev pub split_lines : Text → List Text
split_lines [] = [] ∷ []
split_lines (c ∷ s) = if c == newline then [] ∷ split_lines s else put_first c (split_lines s)

-- `lines.join('\n')`
abbrev pub join_lines : List Text → Text
join_lines [] = []
join_lines (l ∷ []) = l
join_lines (l ∷ k ∷ ls) = l ++ newline ∷ join_lines (k ∷ ls)

abbrev pub last_in : Text → Option ℕ
last_in [] = none
last_in (c ∷ s) = elim (last_in s) [
  | some i ↦ some (suc i)
  | none ↦ if c == newline then some 0 else none
]

-- `s.lastIndexOf('\n', from) + 1`; a negative start counts as 0, as `-` does here.
abbrev pub line_start : Text → ℕ → ℕ
line_start s from = elim (last_in (take (suc from) s)) [ none ↦ 0 | some i ↦ suc i ]

-- `s.indexOf('\n', from)`, or the length where there is none.
abbrev pub line_end : Text → ℕ → ℕ
line_end [] from = 0
line_end (c ∷ s) zero = if c == newline then 0 else suc (line_end s zero)
line_end (c ∷ s) (suc from) = suc (line_end s from)
