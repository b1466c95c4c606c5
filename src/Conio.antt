-- ===== src/Conio.antt =====
-- lib/conio.c: text output to the screen of 25 rows of 80 cells.
pub mod Cursor
pub mod Grid
pub mod Text
mod Tests
use Prim.Native.Nat.{bit_or}
use frog_os.Prelude.{
  ℕ, zero, suc, ◌+◌, ◌-◌, ◌*◌, ◌/◌, ◌^◌, Option, none, some, List, [], ◌∷◌, u16, u32, sub32, update,
  ltb, leb, ◌==◌, if◌then◌else◌,
}
use frog_os.Memory.{memcpy, memsetw, strlen}
use frog_os.Port.{Log, outportb}

-- The globals `csr_x`, `csr_y` and `attrib` (none is ever negative), the 16-bit cells from `video` on,
-- and what has been written to ports.
pub record Screen : Type 0 where
  pub csr_x : ℕ
  pub csr_y : ℕ
  pub attrib : ℕ
  pub video : ℕ → ℕ
  pub ports : Log

-- The globals as they are initialised, over what the screen shows at boot.
abbrev pub boot_screen : (ℕ → ℕ) → Screen
boot_screen video = record { csr_x = 0; csr_y = 0; attrib = 0xf; video = video; ports = [] }

pub move_csr : Screen → Screen
move_csr s =
    let temp = u32 (s.csr_y * 80 + s.csr_x) in
    record s {
      ports =
          outportb 0x3D5 temp
            (outportb 0x3D4 15 (outportb 0x3D5 (temp / 2 ^ 8) (outportb 0x3D4 14 s.ports)));
    }

pub cls : Screen → Screen
cls s = move_csr (record s {
  video = (memsetw s.video 0 (u16 (s.attrib * 2 ^ 8)) (80 * 25)).1;
  csr_x = 0;
  csr_y = 0;
})

-- The cell of a character: `c | (attrib << 8)`.
abbrev pub cell : (c attrib : ℕ) → ℕ
cell c attrib = u16 (bit_or c (u32 (attrib * 2 ^ 8)))

-- `memcpy` counts bytes, two to a cell.
pub scroll : Screen → Screen
scroll s =
    let temp = s.csr_y - 25 + 1 in
    let blank = cell 0x20 s.attrib in
    let moved = (memcpy s.video 0 (u32 (temp * 80)) (u32 (sub32 25 temp * 80 * 2) / 2)).1 in
    if leb 25 s.csr_y
    then record s { video = (memsetw moved (u32 (sub32 25 temp * 80)) blank 80).1; csr_y = 25 - 1 }
    else s

-- What `putch` does before it looks at the edges of the screen.
pub put_char : ℕ → Screen → Screen
put_char c s =
    if c == 0x08
    then (if s.csr_x == 0 then s else record s { csr_x = s.csr_x - 1 })
    else if c == 0x09
    then record s { csr_x = (s.csr_x + 8) / 8 * 8 }
    else if c == b'\r'
    then record s { csr_x = 0 }
    else if c == b'\n'
    then record s { csr_x = 0; csr_y = s.csr_y + 1 }
    else if leb 0x20 c
    then record s {
      video = update s.video (s.csr_y * 80 + s.csr_x) (cell c s.attrib);
      csr_x = s.csr_x + 1;
    }
    else s

-- A new line at the edge of the screen's width.
pub wrap_line : Screen → Screen
wrap_line s = if leb 80 s.csr_x then record s { csr_x = 0; csr_y = s.csr_y + 1 } else s

-- `c` is an unsigned char.
pub putch : ℕ → Screen → Screen
putch c s = move_csr (scroll (wrap_line (put_char c s)))

-- The loop of `puts` from index `i` on. The string is measured again in every round; `none` if a
-- measurement or the loop takes more than its fuel.
pub puts_from : (rounds fuel : ℕ) → (ℕ → ℕ) → (text i : ℕ) → Screen → Option Screen
puts_from zero fuel mem text i s = none
puts_from (suc rounds) fuel mem text i s = elim (strlen fuel mem text) [
  | none ↦ none
  | some len ↦
      let next = puts_from rounds fuel mem text (i + 1) (putch (mem (text + i)) s) in
      if ltb i len then next else some s
]

pub puts : (fuel : ℕ) → (ℕ → ℕ) → (text : ℕ) → Screen → Option Screen
puts fuel mem text s = puts_from fuel fuel mem text 0 s
