-- ===== src/Main/Tests.antt =====
-- Tests of cmain.c.
use frog_os.Prelude.{ℕ, ◌+◌, ◌%◌, ◌≡◌, refl, some, ◌==◌, if◌then◌else◌, arith}
use frog_os.Conio.{boot_screen, putch}
use frog_os.Conio.Cursor.{putch-IsOnScreen}
use frog_os.Memory.Laws.{IsString}
use frog_os.Main.{Addresses, Booted, cmain}
use frog_os.Main.Ready.{IsReady, cmain-IsReady}

-- Two texts, 10 characters from 100 on and 11 from 111 on, the second with a new line at its end.
abbrev mem : ℕ → ℕ
mem i = if i == 110 then 0 else if i == 121 then b'\n' else if i == 122 then 0 else b'.'

abbrev at : Addresses
at = record {
  tss = 0x212000;
  idt = 0x211000;
  pit_handler = 0x205000;
  init = 0x206000;
  user_task = 0x206100;
  long_mode = 100;
  tss_loaded = 111;
}

abbrev masked : ℕ → ℕ
masked port = 0xff

abbrev stubs : ℕ → ℕ
stubs i = 0x200000 + i % 100

long_mode-IsString : IsString mem 100 10
long_mode-IsString = record { nonzero = λ j h. ground arith; end = refl }

tss_loaded-IsString : IsString mem 111 11
tss_loaded-IsString = record { nonzero = λ j h. ground arith; end = refl }

cmain-IsReady_example :
    (b : Booted) × (cmain 99 mem masked stubs
        (putch b'0')
        (putch b'\n')
        (λ _. putch b'C')
        at
        (boot_screen λ _. 0)
      ≡ some b)
    × IsReady stubs at b
cmain-IsReady_example =
    cmain-IsReady 99 10 11 mem masked stubs (putch b'0') (putch b'\n') (λ _. putch b'C') at
      (boot_screen λ _. 0) (λ t. putch-IsOnScreen b'0') (λ t. putch-IsOnScreen b'\n')
      (λ _ t. putch-IsOnScreen b'C') (λ i. omega arith) long_mode-IsString tss_loaded-IsString
      (omega arith) (omega arith) (omega arith)
