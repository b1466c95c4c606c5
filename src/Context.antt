-- ===== src/Context.antt =====
-- include/process.h: the saved registers of a process.
use frog_os.Prelude.{ℕ}

-- `process_context_t`; `struct regs` of irq.h has the same layout, with `int_no` and `err_code` in
-- the place of `unused1` and `unused2`.
pub record Context : Type 0 where
  pub ds : ℕ
  pub es : ℕ
  pub fs : ℕ
  pub gs : ℕ
  pub r15 : ℕ
  pub r14 : ℕ
  pub r13 : ℕ
  pub r12 : ℕ
  pub r11 : ℕ
  pub r10 : ℕ
  pub r9 : ℕ
  pub r8 : ℕ
  pub rbp : ℕ
  pub rdi : ℕ
  pub rsi : ℕ
  pub rdx : ℕ
  pub rcx : ℕ
  pub rbx : ℕ
  pub rax : ℕ
  pub unused1 : ℕ
  pub unused2 : ℕ
  pub rip : ℕ
  pub cs : ℕ
  pub rflags : ℕ
  pub rsp : ℕ
  pub ss : ℕ

abbrev pub sizeof_context : ℕ
sizeof_context = 208

-- What `memset(context, 0, sizeof)` leaves.
abbrev pub zero_context : Context
zero_context = record {
  ds = 0;
  es = 0;
  fs = 0;
  gs = 0;
  r15 = 0;
  r14 = 0;
  r13 = 0;
  r12 = 0;
  r11 = 0;
  r10 = 0;
  r9 = 0;
  r8 = 0;
  rbp = 0;
  rdi = 0;
  rsi = 0;
  rdx = 0;
  rcx = 0;
  rbx = 0;
  rax = 0;
  unused1 = 0;
  unused2 = 0;
  rip = 0;
  cs = 0;
  rflags = 0;
  rsp = 0;
  ss = 0;
}
