-- ===== src/Mem/Tests.antt =====
-- Tests of mem.c.
use frog_os.Prelude.{ℕ, ◌-◌, ◌^◌, ◌<◌, ◌≡◌, refl, List, [], ◌∷◌, All, arith}
use frog_os.Mem.{boot_heap, malloc}
use frog_os.Mem.Arena.{
  boot_heap-IsValid, malloc_wraps, allocate, Within, PairwiseApart, allocate-PairwiseApart,
}

malloc_boot : malloc boot_heap 13 ≡ (0x300000, record { heap = 0x300010; heap_size = 0xFFFF0 })
unfolding malloc
malloc_boot = refl

malloc_too_much : malloc boot_heap 0x100001 ≡ (0, boot_heap)
unfolding malloc
malloc_too_much = refl

malloc_wraps_example :
    (malloc boot_heap (2 ^ 64 - 3) ≡ (0x300000, boot_heap))
    × (0 < (malloc boot_heap (2 ^ 64 - 3)).0)
malloc_wraps_example = malloc_wraps (2 ^ 64 - 3) boot_heap-IsValid (omega arith) (omega arith)

abbrev sizes : List ℕ
sizes = 24 ∷ 0 ∷ 208 ∷ 4096 ∷ []

allocate-PairwiseApart_example :
    PairwiseApart (allocate boot_heap sizes) × All (Within 0x300000) (allocate boot_heap sizes)
allocate-PairwiseApart_example =
    allocate-PairwiseApart boot_heap sizes boot_heap-IsValid (omega arith)
