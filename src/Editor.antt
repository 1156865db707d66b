-- ===== src/Editor.antt =====
-- static/js/components/modal.js, `setupEditorToolbar`, and static/js/utils.js, `continueListOnEnter`: what
-- the keys and buttons of the description editor do to its text. Positions count UTF-16 code units.
pub mod Lines
pub mod Lists
pub mod Selection
pub mod Tab
use wuflow.Base.{
  ℕ, zero, suc, ◌+◌, ◌-◌, ◌*◌, ◌<◌, Bool, true, false, not, ◌&&◌, ◌||◌, Option, none, some, List,
  [], ◌∷◌, ◌++◌, map, ◌==◌, leb, ltb, if◌then◌else◌, length, get_elem?,
}
use wuflow.Model.{Text}
use wuflow.StatusConfig.{text}
use wuflow.Text.{is_space, trim, is_empty, starts_with, decimal, contains}
use Lines.{newline, take, drop, substring, split_lines, join_lines, line_start, line_end}

-- The text and its selection; without a selection both ends are the cursor.
pub record Editor : Type 0 where
  pub value : Text
  pub start : ℕ
  pub stop : ℕ

abbrev pub is_break : Option ℕ → Bool
is_break none = false
is_break (some c) = c == newline

unfoldable pub needs_leading_newline : Text → ℕ → Bool
needs_leading_newline value zero = false
needs_leading_newline value (suc p) = not (is_break (get_elem? value p))

unfoldable pub insert_markdown : Text → Text → Editor → Editor
insert_markdown before after e =
    let selected = substring e.start e.stop e.value in
    record {
      value = take e.start e.value ++ (before ++ (selected ++ (after ++ drop e.stop e.value)));
      start = e.start + length before;
      stop = e.start + length before + length selected;
    }

-- The selected lines are replaced; setting the text puts the cursor at its end.
abbrev replace_lines : (List Text → List Text) → Editor → Editor
replace_lines f e =
    let replaced = join_lines (f (split_lines (substring e.start e.stop e.value))) in
    let value = take e.start e.value ++ (replaced ++ drop e.stop e.value) in
    record { value = value; start = length value; stop = length value }

pub data ListType : Type 0 where
  ol ul : ListType

abbrev pub list_lines : ListType → ℕ → List Text → List Text
list_lines type i [] = []
list_lines ol i (l ∷ ls) = (decimal (i + 1) ++ (text ". " ++ l)) ∷ list_lines ol (suc i) ls
list_lines ul i (l ∷ ls) = (text "- " ++ l) ∷ list_lines ul (suc i) ls

unfoldable pub apply_list : ListType → Editor → Editor
apply_list type e = replace_lines (list_lines type 0) e

-- `l.replace(/^#+\s/, '')`
abbrev hash : ℕ
hash = 35

abbrev after_hashes : Text → Text → Text
after_hashes line [] = line
after_hashes line (c ∷ s) =
    let rest = after_hashes line s in if c == hash then rest else if is_space c then s else line

abbrev pub without_heading : Text → Text
without_heading [] = []
without_heading (c ∷ s) = if c == hash then after_hashes (c ∷ s) s else c ∷ s

abbrev heading_prefix : ℕ → Text
heading_prefix level = if level == 1 then text "# " else text "## "

unfoldable pub apply_heading : ℕ → Editor → Editor
unfolding is_space
apply_heading level e =
    replace_lines (map (λ (l : Text). heading_prefix level ++ without_heading l)) e

-- `/^https?:\/\//i.test(s)`
abbrev ascii_lower : ℕ → ℕ
ascii_lower c = if leb 65 c && leb c 90 then c + 32 else c

abbrev pub is_url : Text → Bool
is_url s =
    let lower = map ascii_lower s in
    starts_with (text "http://") lower || starts_with (text "https://") lower

unfoldable pub apply_link : Editor → Editor
unfolding insert_markdown
apply_link e =
    let selected = trim (substring e.start e.stop e.value) in
    if not (is_empty selected) && is_url selected
    then insert_markdown (text "[") (text "](" ++ (selected ++ text ")")) e
    else insert_markdown (text "[") (text "](https://)") e

abbrev fence : Text
fence = text "```"

unfoldable pub apply_code : Editor → Editor
unfolding insert_markdown needs_leading_newline contains
apply_code e =
    let selected = substring e.start e.stop e.value in
    let needs_after = ltb e.stop (length e.value) && not (is_break (get_elem? e.value e.stop)) in
    let before =
      if needs_leading_newline e.value e.start
      then newline ∷ (fence ++ newline ∷ [])
      else fence ++ newline ∷ [] in
    let after = if needs_after then newline ∷ (fence ++ newline ∷ []) else newline ∷ fence in
    if contains (newline ∷ []) selected
    then insert_markdown before after e
    else insert_markdown (text "`") (text "`") e

abbrev table_rows : Text
table_rows =
    text "| Header 1 | Header 2 | Header 3 |"
    ++ (newline
        ∷ (text "| --- | --- | --- |"
            ++ (newline ∷ (text "| Cell | Cell | Cell |" ++ newline ∷ []))))

-- The selection is not replaced.
unfoldable pub apply_table : Editor → Editor
unfolding needs_leading_newline
apply_table e =
    let prefix = if needs_leading_newline e.value e.start then newline ∷ [] else [] in
    let cursor = e.start + length prefix + 2 in
    record {
      value = take e.start e.value ++ ((prefix ++ table_rows) ++ drop e.start e.value);
      start = cursor;
      stop = cursor;
    }

pub data Command : Type 0 where
  bullets numbers heading1 heading2 link code table : Command

unfoldable pub handle_markdown_command : Command → Editor → Editor
unfolding apply_list apply_heading apply_link apply_code apply_table
handle_markdown_command bullets e = apply_list ul e
handle_markdown_command numbers e = apply_list ol e
handle_markdown_command heading1 e = apply_heading 1 e
handle_markdown_command heading2 e = apply_heading 2 e
handle_markdown_command link e = apply_link e
handle_markdown_command code e = apply_code e
handle_markdown_command table e = apply_table e

abbrev space : ℕ
space = 32

-- What the Tab key makes of a line: with Shift it takes out two spaces, or one space or tab.
abbrev without_one : ℕ → Text → Text
without_one c s = if c == space || c == 9 then s else c ∷ s

abbrev without_two : ℕ → ℕ → Text → Text
without_two c d s = if c == space && d == space then s else without_one c (d ∷ s)

abbrev pub dedent : Text → Text
dedent [] = []
dedent (c ∷ []) = without_one c []
dedent (c ∷ d ∷ s) = without_two c d s

abbrev pub indent : Text → Text
indent l = space ∷ space ∷ l

abbrev pub shift_line : Bool → Text → Text
shift_line true l = dedent l
shift_line false l = indent l

-- `Math.max(lineStart, pos + offset)`, where the offset is what the lines gained or lost
abbrev pub moved : ℕ → ℕ → ℕ → ℕ → ℕ
moved floor pos gained lost = let p = pos + gained - lost in if leb floor p then p else floor

abbrev pub first_line : List Text → Text
first_line [] = []
first_line (l ∷ ls) = l

abbrev pub total : List Text → ℕ
total [] = 0
total (l ∷ ls) = length l + total ls

-- Without a selection, Tab inserts two spaces.
abbrev insert_spaces : Editor → Editor
insert_spaces e = record {
  value = take e.start e.value ++ (text "  " ++ drop e.stop e.value);
  start = e.start + 2;
  stop = e.start + 2;
}

-- A break at the end of the selection does not count.
abbrev pub adjusted_end : Editor → ℕ
adjusted_end e =
    if ltb e.start e.stop && is_break (get_elem? e.value (e.stop - 1)) then e.stop - 1 else e.stop

-- Every line that the selection touches is shifted. `gained` and `lost` of the lines are their lengths
-- after and before, whose difference is what the source adds up.
abbrev pub put_shifted : Bool → Editor → ℕ → ℕ → List Text → Editor
put_shifted shift e from to lines =
    let shifted = map (shift_line shift) lines in
    let start = moved from e.start (length (first_line shifted)) (length (first_line lines)) in
    record {
      value = take from e.value ++ (join_lines shifted ++ drop to e.value);
      start = start;
      stop = if e.start == e.stop then start else moved from e.stop (total shifted) (total lines);
    }

abbrev pub shift_lines : Bool → Editor → Editor
shift_lines shift e =
    let from = line_start e.value (e.start - 1) in
    let to = line_end e.value (adjusted_end e) in
    put_shifted shift e from to (split_lines (substring from to e.value))

unfoldable pub handle_tab_key : Bool → Editor → Editor
handle_tab_key shift e =
    if e.start == e.stop && not shift then insert_spaces e else shift_lines shift e
