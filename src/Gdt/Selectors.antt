-- ===== src/Gdt/Selectors.antt =====
-- include/gdt.h: the segment selectors.
use frog_os.Prelude.{ℕ}

abbrev pub kernel_code_segment : ℕ
kernel_code_segment = 0x08

abbrev pub kernel_data_segment : ℕ
kernel_data_segment = 0x10

abbrev pub user_32bit_code_segment : ℕ
user_32bit_code_segment = 0x18

abbrev pub user_data_segment : ℕ
user_data_segment = 0x20

abbrev pub user_code_segment : ℕ
user_code_segment = 0x28

abbrev pub kernel_tss_segment : ℕ
kernel_tss_segment = 0x30
