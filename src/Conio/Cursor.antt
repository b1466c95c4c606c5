-- ===== src/Conio/Cursor.antt =====
-- lib/conio.c: the cursor stays on the screen, no write leaves it, and the hardware follows.
use frog_os.Prelude.{
  ℕ, ◌+◌, ◌*◌, ◌/◌, ◌%◌, ◌≤◌, ◌<◌, ◌≡◌, inl, inr, ap, ◌∙◌, subst, ◌∷◌, ◌==◌, if◌then◌else◌, arith,
  Bool-cases, eq_of_==,
}
use frog_os.Memory.{memcpy, memsetw, copy_up, fill_up}
use frog_os.Memory.Laws.{inside, copy_up-get, fill_up-get}
use frog_os.Port.{Log, out}
use frog_os.Conio.{Screen, cell, move_csr, scroll, put_char, wrap_line, putch}

pub record IsOnScreen (s : Screen) : Type 0 where
  pub column : s.csr_x < 80
  pub row : s.csr_y < 25

-- `scroll` with the cursor just below the last row.
pub scroll_lem :
    (s : Screen)
    → s.csr_y ≡ 25
    → scroll s ≡ record s {
      video = fill_up 80 1920 (cell 0x20 s.attrib) (copy_up 1920 0 80 s.video);
      csr_y = 24;
    }
unfolding scroll memcpy memsetw
scroll_lem s e = rw e

-- The same, cell by cell: rows move up by one, and the last becomes blank.
pub video-scroll :
    (s : Screen) (j : ℕ)
    → s.csr_y ≡ 25
    → (scroll s).video j ≡ (
        if inside 1920 80 j
        then cell 0x20 s.attrib
        else if inside 0 1920 j
        then s.video (80 + j)
        else s.video j)
video-scroll s j e =
    ap (λ (t : Screen). t.video j) (scroll_lem s e)
    ∙ ground (
      arith,
      fill_up-get 80 1920 (cell 0x20 s.attrib) j (copy_up 1920 0 80 s.video),
      copy_up-get 1920 0 80 j s.video (omega arith),
    )

pub scroll_above : (s : Screen) → s.csr_y < 25 → scroll s ≡ s
unfolding scroll
scroll_above s h = ground arith

-- Where the cursor is before `scroll` runs.
pub record IsNear (s : Screen) : Type 0 where
  pub column : s.csr_x < 80
  pub row : s.csr_y ≤ 25

pub wrap_line-IsNear : (c : ℕ) (s : Screen) → IsOnScreen s → IsNear (wrap_line (put_char c s))
unfolding wrap_line put_char
wrap_line-IsNear c s v = ground arith

scroll-IsOnScreen : {s : Screen} → IsNear s → IsOnScreen (scroll s)
scroll-IsOnScreen {s} n = elim (Bool-cases (s.csr_y == 25)) [
  | inl e ↦ rw (scroll_lem s (eq_of_== _ _ e)) (omega arith)
  | inr e ↦ rw (scroll_above s (ground arith)) (ground arith)
]

-- `putch` keeps the cursor on the screen, whatever the character.
pub putch-IsOnScreen : (c : ℕ) {s : Screen} → IsOnScreen s → IsOnScreen (putch c s)
unfolding putch move_csr
putch-IsOnScreen c {s} v =
    let n = scroll-IsOnScreen (wrap_line-IsNear c s v) in record { column = n.column; row = n.row }

video-scroll_outside :
    (s : Screen) (j : ℕ) → s.csr_y ≤ 25 → 2000 ≤ j → (scroll s).video j ≡ s.video j
video-scroll_outside s j h beyond = elim (Bool-cases (s.csr_y == 25)) [
  | inl e ↦ video-scroll s j (eq_of_== _ _ e) ∙ ground arith
  | inr e ↦ ap (λ (t : Screen). t.video j) (scroll_above s (ground arith))
]

video-wrap_line :
    (c : ℕ) (s : Screen) (j : ℕ)
    → IsOnScreen s
    → 2000 ≤ j
    → (wrap_line (put_char c s)).video j ≡ s.video j
unfolding wrap_line put_char
video-wrap_line c s j v beyond = ground arith

-- `putch` changes no cell beyond the 25 rows of 80, whatever the character.
pub putch_in_bounds :
    (c : ℕ) {s : Screen} (j : ℕ) → IsOnScreen s → 25 * 80 ≤ j → (putch c s).video j ≡ s.video j
unfolding putch move_csr
putch_in_bounds c {s} j v beyond =
    let n = wrap_line-IsNear c s v in
    video-scroll_outside (wrap_line (put_char c s)) j n.row beyond ∙ video-wrap_line c s j v beyond

ports-scroll : (s : Screen) → (scroll s).ports ≡ s.ports
unfolding scroll
ports-scroll s = ground arith

ports-wrap_line : (c : ℕ) (s : Screen) → (wrap_line (put_char c s)).ports ≡ s.ports
unfolding wrap_line put_char
ports-wrap_line c s = ground arith

-- The four port writes that tell the display controller a position: its registers 14 and 15 get the
-- high and the low byte.
abbrev pub Tells : ℕ → Log → Log → Type 0
Tells position before after =
    (hi : ℕ) × (lo : ℕ) × (after
      ≡ out 0x3D5 lo ∷ out 0x3D4 15 ∷ out 0x3D5 hi ∷ out 0x3D4 14 ∷ before)
    × (hi * 256 + lo ≡ position)

move_csr-Tells :
    {s : Screen} → IsOnScreen s → Tells (s.csr_y * 80 + s.csr_x) s.ports (move_csr s).ports
unfolding move_csr
move_csr-Tells {s} v =
    let at = s.csr_y * 80 + s.csr_x in (at / 256, at % 256, ground arith, omega arith)

-- After each character the display controller is told exactly once where the cursor then is.
pub putch-Tells :
    (c : ℕ) {s : Screen}
    → IsOnScreen s
    → let t = putch c s in Tells (t.csr_y * 80 + t.csr_x) s.ports t.ports
unfolding putch move_csr
putch-Tells c {s} v =
    let t = wrap_line (put_char c s) in
    let told = move_csr-Tells (scroll-IsOnScreen (wrap_line-IsNear c s v)) in
    subst
      (λ before.
        Tells ((scroll t).csr_y * 80 + (scroll t).csr_x) before (move_csr (scroll t)).ports)
      (ports-scroll t ∙ ports-wrap_line c s) told
