-- ===== src/Conio/Tests.antt =====
-- Tests of lib/conio.c.
use frog_os.Prelude.{ℕ, ◌+◌, ◌*◌, ◌≡◌, refl, [], some, ◌==◌, if◌then◌else◌, arith}
use frog_os.Memory.Laws.{IsString}
use frog_os.Memory.{memcpy, memsetw, copy_up, fill_up}
use frog_os.Conio.{Screen, move_csr, scroll, put_char, wrap_line, putch, puts}
use frog_os.Conio.Cursor.{IsOnScreen, putch_in_bounds, Tells, putch-Tells}
use frog_os.Conio.Grid.{terminal, type_char, LooksAs, putch-LooksAs}
use frog_os.Conio.Text.{bytes, type_all, puts-LooksAs}

-- The cursor in the last cell, and the number of each cell on the screen.
abbrev last_cell : Screen
last_cell = record { csr_x = 79; csr_y = 24; attrib = 0xf; video = λ i. i; ports = [] }

last_cell-IsOnScreen : IsOnScreen last_cell
last_cell-IsOnScreen = omega arith

-- A character in the last cell makes the screen scroll.
putch_scrolls :
    let t = putch b'A' last_cell in
    (t.csr_x ≡ 0)
    × (t.csr_y ≡ 24)
    × (t.video (23 * 80 + 79) ≡ 0xf41)
    × (t.video 0 ≡ 80)
    × (t.video 1999 ≡ 0xf20)
unfolding putch move_csr scroll put_char wrap_line memcpy memsetw copy_up fill_up
putch_scrolls = (refl, refl, refl, refl, refl)

putch_in_bounds_example : (putch b'A' last_cell).video 2000 ≡ last_cell.video 2000
putch_in_bounds_example = putch_in_bounds b'A' 2000 last_cell-IsOnScreen (omega arith)

putch-Tells_example :
    let t = putch b'A' last_cell in Tells (t.csr_y * 80 + t.csr_x) last_cell.ports t.ports
putch-Tells_example = putch-Tells b'A' last_cell-IsOnScreen

putch-LooksAs_example :
    LooksAs (terminal (putch b'A' last_cell)) (type_char 0xf b'A' (terminal last_cell))
putch-LooksAs_example = putch-LooksAs b'A' last_cell-IsOnScreen

-- "hi" at 5000.
abbrev mem : ℕ → ℕ
mem i = if i == 5000 then b'h' else if i == 5001 then b'i' else 0

mem-IsString : IsString mem 5000 2
mem-IsString = record { nonzero = λ j h. ground arith; end = refl }

puts-LooksAs_example :
    (t : Screen) × (puts 9 mem 5000 last_cell ≡ some t)
    × IsOnScreen t
    × LooksAs (terminal t) (type_all 0xf (bytes mem 5000 2) (terminal last_cell))
puts-LooksAs_example =
    puts-LooksAs 9 2 5000 mem last_cell-IsOnScreen mem-IsString (omega arith) (omega arith)
