-- ===== src/Editor/Lists.antt =====
-- static/js/utils.js, `continueListOnEnter`: what Enter does on a line of a list. The numbers of a list are
-- exact here; the browser rounds those above 2 ^ 53.
use wuflow.Base.{
  ℕ, ◌+◌, ◌-◌, Bool, ◌&&◌, ◌||◌, Option, none, some, [], ◌∷◌, ◌++◌, ◌==◌, leb, any, if◌then◌else◌,
  length, ◌≡◌, refl,
}
use wuflow.Model.{Text}
use wuflow.StatusConfig.{text}
use wuflow.Text.{is_space, is_empty, decimal}
use wuflow.Text.Decimal.{read_digits}
use wuflow.Editor.{Editor}
use wuflow.Editor.Lines.{newline, take, drop, substring, line_start}

-- The longest prefix of characters that pass, and the rest.
abbrev push : ℕ → Text × Text → Text × Text
push c (a, b) = (c ∷ a, b)

abbrev pub span : (ℕ → Bool) → Text → Text × Text
span p [] = ([], [])
span p (c ∷ s) = let rest = push c (span p s) in if p c then rest else ([], c ∷ s)

abbrev pub is_digit : ℕ → Bool
is_digit c = leb 48 c && leb c 57

abbrev pub is_bullet : ℕ → Bool
is_bullet c = c == 45 || c == 42 || c == 43

-- What `.` does not match
abbrev pub is_terminator : ℕ → Bool
is_terminator c = c == 10 || c == 13 || c == 8232 || c == 8233

-- The two patterns, with their groups
pub data Item : Type 0 where
  no_item : Item
  bullet : Text → ℕ → Text → Item
  numbered : Text → Text → Text → Item

abbrev on_one_line : Text → Item → Item
on_one_line content i = if any is_terminator content then no_item else i

abbrev bullet_item : Text → Text → Item
bullet_item indent [] = no_item
bullet_item indent (m ∷ []) = no_item
bullet_item indent (m ∷ c ∷ content) =
    if is_bullet m && c == 32 then on_one_line content (bullet indent m content) else no_item

abbrev numbered_item : Text → Text × Text → Item
numbered_item indent ([], rest) = no_item
numbered_item indent (d ∷ ds, []) = no_item
numbered_item indent (d ∷ ds, c ∷ []) = no_item
numbered_item indent (d ∷ ds, c ∷ k ∷ content) =
    if c == 46 && k == 32 then on_one_line content (numbered indent (d ∷ ds) content) else no_item

abbrev or_numbered : Item → Item → Item
or_numbered no_item i = i
or_numbered (bullet a b c) i = bullet a b c
or_numbered (numbered a b c) i = numbered a b c

unfoldable pub item_of : Text → Item
unfolding is_space
item_of line =
    let (indent, rest) = span is_space line in
    or_numbered (bullet_item indent rest) (numbered_item indent (span is_digit rest))

abbrev pub prefix_of : Item → Text
prefix_of no_item = []
prefix_of (bullet indent m content) = newline ∷ (indent ++ m ∷ text " ")
prefix_of (numbered indent digits content) =
    newline ∷ (indent ++ (decimal (read_digits 0 digits + 1) ++ text ". "))

abbrev content_of : Item → Text
content_of no_item = []
content_of (bullet indent m content) = content
content_of (numbered indent digits content) = content

-- An item without a text ends the list, any other gets a next one.
abbrev continued : ℕ → Item → Editor → Editor
continued from item e =
    if is_empty (content_of item)
    then record { value = take from e.value ++ drop e.start e.value; start = from; stop = from }
    else record {
      value = take e.start e.value ++ (prefix_of item ++ drop e.start e.value);
      start = e.start + length (prefix_of item);
      stop = e.start + length (prefix_of item);
    }

abbrev by_item : ℕ → Item → Editor → Option Editor
by_item from no_item e = none
by_item from (bullet a b c) e = some (continued from (bullet a b c) e)
by_item from (numbered a b c) e = some (continued from (numbered a b c) e)

-- None where the key is left to the browser.
unfoldable pub continue_list_on_enter : Editor → Option Editor
unfolding item_of
continue_list_on_enter e =
    let from = line_start e.value (e.start - 1) in
    by_item from (item_of (substring from e.start e.value)) e

bullet_test :
    continue_list_on_enter (record { value = text "* ab"; start = 3; stop = 3 })
    ≡ some (record { value = text "* a" ++ newline ∷ text "* b"; start = 6; stop = 6 })
unfolding continue_list_on_enter
bullet_test = refl

number_test :
    continue_list_on_enter (record { value = text " 9. ab"; start = 6; stop = 6 })
    ≡ some (record { value = text " 9. ab" ++ newline ∷ text " 10. "; start = 12; stop = 12 })
unfolding continue_list_on_enter decimal
number_test = refl
