-- ===== src/Conio/Text.antt =====
-- lib/conio.c: `puts`, which prints a string character by character, and `cls`.
use frog_os.Prelude.{
  ℕ, zero, suc, ◌+◌, ◌*◌, ◌^◌, ◌<◌, ◌≡◌, refl, ap, ◌∙◌, subst, List, [], ◌∷◌, some, ltb, u16,
  if◌then◌else◌, arith,
}
use frog_os.Memory.{memsetw}
use frog_os.Memory.Laws.{IsString, strlen-IsString, fill_up-get}
use frog_os.Conio.{Screen, move_csr, cls, scroll, put_char, wrap_line, putch, puts_from, puts}
use frog_os.Conio.Cursor.{IsOnScreen, putch-IsOnScreen}
use frog_os.Conio.Grid.{Terminal, terminal, type_char, LooksAs, LooksAs-trans, putch-LooksAs}

-- The `n` bytes from `text` on.
abbrev pub bytes : (ℕ → ℕ) → (text n : ℕ) → List ℕ
bytes mem text zero = []
bytes mem text (suc n) = mem text ∷ bytes mem (text + 1) n

-- One character after the other, on the screen and on the terminal.
unfoldable pub put_all : List ℕ → Screen → Screen
put_all [] s = s
put_all (c ∷ cs) s = put_all cs (putch c s)

unfoldable pub type_all : (attrib : ℕ) → List ℕ → Terminal → Terminal
type_all attrib [] t = t
type_all attrib (c ∷ cs) t = type_all attrib cs (type_char attrib c t)

puts_from-put_all :
    (rounds fuel n i left text : ℕ) (mem : ℕ → ℕ) (s : Screen)
    → IsString mem text n
    → n < fuel
    → n < 2 ^ 31
    → i + left ≡ n
    → left < rounds
    → puts_from rounds fuel mem text i s ≡ some (put_all (bytes mem (text + i) left) s)
unfolding puts_from put_all
puts_from-put_all zero fuel n i left text mem s str f big e r = absurd (omega arith)
puts_from-put_all (suc rounds) fuel n i zero text mem s str f big e r =
    rw (strlen-IsString fuel n text mem str f big, puts_from) (ground arith)
puts_from-put_all (suc rounds) fuel n i (suc left) text mem s str f big e r =
    rw (strlen-IsString fuel n text mem str f big, puts_from)
      (ground (
        arith,
        puts_from-put_all rounds fuel n (i + 1) left text mem (putch (mem (text + i)) s) str f big
            (omega arith) (omega arith),
        ap (λ p. put_all (bytes mem p left) (putch (mem (text + i)) s)) (assoc text i),
      ))
  where
    assoc : (a b : ℕ) → a + (b + 1) ≡ a + b + 1
    assoc a b = omega arith

pub putch-attrib : (c : ℕ) (s : Screen) → (putch c s).attrib ≡ s.attrib
unfolding putch move_csr scroll wrap_line put_char
putch-attrib c s = ground arith

-- What a character does depends on what is seen only.
type_char-LooksAs :
    (attrib c : ℕ) (t u : Terminal)
    → LooksAs t u
    → LooksAs (type_char attrib c t) (type_char attrib c u)
unfolding type_char
type_char-LooksAs attrib c t u l = record {
  row = ground (arith, l.row, l.column);
  column = ground (arith, l.row, l.column);
  cells = λ r d hr hd. ground (arith, l.row, l.column, l.cells r d, l.cells (r + 1) d);
}

type_all-LooksAs :
    (attrib : ℕ) (cs : List ℕ) (t u : Terminal)
    → LooksAs t u
    → LooksAs (type_all attrib cs t) (type_all attrib cs u)
unfolding type_all
type_all-LooksAs attrib [] t u l = l
type_all-LooksAs attrib (c ∷ cs) t u l =
    type_all-LooksAs attrib cs (type_char attrib c t) (type_char attrib c u)
      (type_char-LooksAs attrib c t u l)

-- Printing a list of characters keeps the cursor on the screen, and shows what typing them shows.
pub put_all-LooksAs :
    (cs : List ℕ) {s : Screen}
    → IsOnScreen s
    → IsOnScreen (put_all cs s)
      × LooksAs (terminal (put_all cs s)) (type_all s.attrib cs (terminal s))
unfolding put_all type_all
put_all-LooksAs [] v = (v, record { row = refl; column = refl; cells = λ r c hr hc. refl })
put_all-LooksAs (c ∷ cs) {s} v =
    let rest = put_all-LooksAs cs {s = putch c s} (putch-IsOnScreen c v) in
    (
      rest.0,
      LooksAs-trans
          (subst
            (λ a.
              LooksAs (terminal (put_all cs (putch c s))) (type_all a cs (terminal (putch c s))))
            (putch-attrib c s) rest.1)
          (type_all-LooksAs s.attrib cs _ _ (putch-LooksAs c v)),
    )

-- `puts` of a null-terminated string of less than 2^31 characters, with more fuel than that, ends, and what it shows is what
-- typing the string's characters shows; the cursor stays on the screen.
pub puts-LooksAs :
    (fuel n text : ℕ) (mem : ℕ → ℕ) {s : Screen}
    → IsOnScreen s
    → IsString mem text n
    → n < fuel
    → n < 2 ^ 31
    → (t : Screen) × (puts fuel mem text s ≡ some t)
      × IsOnScreen t
      × LooksAs (terminal t) (type_all s.attrib (bytes mem text n) (terminal s))
unfolding puts
puts-LooksAs fuel n text mem {s} v str f big =
    let zero_in : text + 0 ≡ text = omega arith in
    let e =
      puts_from-put_all fuel fuel n 0 n text mem s str f big (omega arith) f
      ∙ ap (λ p. some (put_all (bytes mem p n) s)) zero_in in
    let shown = put_all-LooksAs (bytes mem text n) v in
    (put_all (bytes mem text n) s, e, shown.0, shown.1)

-- `cls` fills every cell of the screen with a null character, changes no other, and puts the cursor
-- into the first cell.
pub video-cls :
    (s : Screen) (j : ℕ)
    → IsOnScreen (cls s)
      × ((cls s).csr_x ≡ 0)
      × ((cls s).csr_y ≡ 0)
      × ((cls s).video j ≡ (if ltb j (25 * 80) then u16 (s.attrib * 2 ^ 8) else s.video j))
unfolding cls move_csr memsetw
video-cls s j =
    (omega arith, refl, refl, fill_up-get 2000 0 (u16 (s.attrib * 2 ^ 8)) j s.video ∙ ground arith)
