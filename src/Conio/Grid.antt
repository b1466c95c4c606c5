-- ===== src/Conio/Grid.antt =====
-- lib/conio.c: `putch` against a terminal of 25 rows and 80 columns.
use frog_os.Prelude.{
  ℕ, ◌+◌, ◌-◌, ◌*◌, ◌/◌, ◌<◌, ◌≡◌, inl, inr, ap, ◌∙◌, ltb, ◌==◌, ◌&&◌, if◌then◌else◌, arith,
  Bool-cases, eq_of_==, Bool, true, refl, ◌%◌, holds_below, holds_below_sound,
}
use frog_os.Conio.{Screen, cell, move_csr, scroll, put_char, wrap_line, putch}
use frog_os.Conio.Cursor.{
  IsOnScreen, IsNear, wrap_line-IsNear, video-scroll, scroll_above, scroll_lem,
}

-- What the user sees: the cell at each row and column, and where the next character goes.
pub record Terminal : Type 0 where
  pub row : ℕ
  pub column : ℕ
  pub at : ℕ → ℕ → ℕ

-- Go to the start of the next row. On the last row, the text moves up and leaves a blank row.
abbrev pub new_line : (blank : ℕ) → Terminal → Terminal
new_line blank t =
    if t.row == 24
    then record { row = 24; column = 0; at = λ r c. if r == 24 then blank else t.at (r + 1) c }
    else record t { row = t.row + 1; column = 0 }

-- Go to a column, or to the next row if it is beyond the last.
abbrev pub go_to : (blank column : ℕ) → Terminal → Terminal
go_to blank column t = if ltb column 80 then record t { column = column } else new_line blank t

-- A character and an attribute, in one number.
glyph_test : ℕ → Bool
glyph_test x = cell (x % 256) (x / 256) == x

glyph_table : holds_below 4096 glyph_test ≡ true
unfolding holds_below glyph_test
glyph_table = refl

-- The low byte of a cell is the character, and the high one the attribute, if that is below 16: the
-- kernel's only attribute is 15.
cell_lem : (c attrib : ℕ) → c < 256 → attrib < 16 → cell c attrib ≡ c + 256 * attrib
unfolding glyph_test
cell_lem c attrib hc ha =
    let low : (c + 256 * attrib) % 256 ≡ c = omega arith in
    let high : (c + 256 * attrib) / 256 ≡ attrib = omega arith in
    let checked =
      eq_of_== _ _
        (holds_below_sound 4096 glyph_test (c + 256 * attrib) glyph_table (omega arith)) in
    rw (low, high) at checked

-- Put a cell where the cursor stands.
abbrev pub put_cell : ℕ → Terminal → Terminal
put_cell v t = record t { at = λ r c. if (t.row == r) && (t.column == c) then v else t.at r c }

-- What a character does, by its code: backspace, tab, carriage return, line feed, the printable
-- characters, and the control characters that are ignored.
unfoldable pub type_char : (attrib c : ℕ) → Terminal → Terminal
type_char attrib c t =
    if c == 8
    then record t { column = t.column - 1 }
    else if c == 9
    then go_to (cell 0x20 attrib) (8 * (t.column / 8 + 1)) t
    else if c == 13
    then record t { column = 0 }
    else if c == 10
    then new_line (cell 0x20 attrib) t
    else if ltb c 32
    then t
    else go_to (cell 0x20 attrib) (t.column + 1) (put_cell (cell c attrib) t)

-- The terminal that a screen shows.
abbrev pub terminal : Screen → Terminal
terminal s = record { row = s.csr_y; column = s.csr_x; at = λ r c. s.video (r * 80 + c) }

-- Two terminals agree on the cursor and on all cells of the 25 rows of 80.
pub record LooksAs (t u : Terminal) : Type 0 where
  pub row : t.row ≡ u.row
  pub column : t.column ≡ u.column
  pub cells : (r c : ℕ) → r < 25 → c < 80 → t.at r c ≡ u.at r c

pub LooksAs-trans : {t u w : Terminal} → LooksAs t u → LooksAs u w → LooksAs t w
LooksAs-trans p q = record {
  row = p.row ∙ q.row;
  column = p.column ∙ q.column;
  cells = λ r c hr hc. p.cells r c hr hc ∙ q.cells r c hr hc;
}

-- What `scroll` leaves of a cursor that is at most one row too low.
abbrev settle : Screen → Terminal
settle s = record {
  row = if s.csr_y == 25 then 24 else s.csr_y;
  column = s.csr_x;
  at = λ r c.
      if s.csr_y == 25
      then (if r == 24 then cell 0x20 s.attrib else s.video ((r + 1) * 80 + c))
      else s.video (r * 80 + c);
}

scroll-settle : (s : Screen) → IsNear s → LooksAs (terminal (scroll s)) (settle s)
scroll-settle s n = elim (Bool-cases (s.csr_y == 25)) [
  | inl e ↦
      let low : s.csr_y ≡ 25 = eq_of_== _ _ e in
      let x = ap (λ (t : Screen). t.csr_x) (scroll_lem s low) in
      let y = ap (λ (t : Screen). t.csr_y) (scroll_lem s low) in
      record {
        row = y ∙ ground arith;
        column = x;
        cells = λ r c hr hc. video-scroll s (r * 80 + c) low ∙ ground arith;
      }
  | inr e ↦
      let same = scroll_above s (ground (arith, n.row)) in
      record {
        row = ap (λ (t : Screen). t.csr_y) same ∙ ground arith;
        column = ap (λ (t : Screen). t.csr_x) same;
        cells = λ r c hr hc. ap (λ (t : Screen). t.video (r * 80 + c)) same ∙ ground arith;
      }
]

settle-type_char :
    (c : ℕ) (s : Screen)
    → IsOnScreen s
    → LooksAs (settle (wrap_line (put_char c s))) (type_char s.attrib c (terminal s))
unfolding wrap_line put_char type_char
settle-type_char c s v = record {
  row = ground arith;
  column = ground arith;
  cells = λ r d hr hd. ground arith;
}

-- On the screen as the user sees it, `putch` is `type_char`, whatever the character.
pub putch-LooksAs :
    (c : ℕ) {s : Screen}
    → IsOnScreen s
    → LooksAs (terminal (putch c s)) (type_char s.attrib c (terminal s))
unfolding putch move_csr
putch-LooksAs c {s} v =
    let shown = LooksAs-trans (scroll-settle _ (wrap_line-IsNear c s v)) (settle-type_char c s v) in
    record { row = shown.row; column = shown.column; cells = shown.cells }
