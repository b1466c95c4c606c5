-- ===== src/Mem/Arena.antt =====
-- mem.c: what `malloc` guarantees of the blocks that it hands out.
use frog_os.Prelude.{
  ℕ, ◌+◌, ◌-◌, ◌%◌, ◌^◌, ◌≤◌, ◌<◌, ◌≡◌, ◌⊎◌, inl, inr, List, [], ◌∷◌, All, ltb, ◌==◌, Bool-cases,
  arith,
}
use frog_os.Mem.{Heap, boot_heap, align, malloc}

-- One past the last byte of the arena.
abbrev pub arena_end : ℕ
arena_end = 0x400000

pub record IsValid (m : Heap) : Type 0 where
  pub low : 0x300000 ≤ m.heap
  pub total : m.heap + m.heap_size ≡ arena_end
  pub aligned : m.heap % 8 ≡ 0

pub boot_heap-IsValid : IsValid boot_heap
boot_heap-IsValid = omega arith

-- A size that is at most 2^64 - 8 is rounded up, to the next multiple of 8.
pub align_bounds :
    (size : ℕ)
    → size ≤ 2 ^ 64 - 8
    → (size ≤ align size) × (align size < size + 8) × (align size % 8 ≡ 0)
align_bounds size h = ground arith

-- What a call returns: NULL, and then nothing has changed and the size was 0 or more than is left,
-- or the first free address, and then the block is aligned, lies in the arena, and was taken off.
pub data Served (m : Heap) (size : ℕ) : ℕ × Heap → Type 0 where
  refused : (size ≡ 0) ⊎ (m.heap_size < align size) → Served m size (0, m)
  granted :
      {m' : Heap}
      → 0 < size
      → m.heap + size ≤ m'.heap
      → m'.heap < m.heap + size + 8
      → m'.heap ≤ arena_end
      → Served m size (m.heap, m')

-- On a valid heap and a size that rounding does not wrap, a call is refused or granted as `Served` says.
pub malloc-Served :
    {m : Heap} (size : ℕ) → IsValid m → size ≤ 2 ^ 64 - 8 → Served m size (malloc m size)
unfolding malloc
malloc-Served {m} size v h = elim (Bool-cases (size == 0)) [
  | inl z ↦ rw z (Served.refused (inl (ground arith)))
  | inr nz ↦ elim (Bool-cases (ltb m.heap_size (align size))) [
    | inl big ↦ rw (nz, big) (Served.refused (inr (ground arith)))
    | inr fits ↦
        rw (nz, fits) (Served.granted (ground arith) (ground arith) (ground arith) (ground arith))
  ]
]

-- A request for a multiple of 8 that fits is granted, and takes exactly that much.
pub malloc_fits :
    {m : Heap} (size : ℕ)
    → IsValid m
    → 0 < size
    → size % 8 ≡ 0
    → size ≤ m.heap_size
    → malloc m size ≡ (m.heap, record { heap = m.heap + size; heap_size = m.heap_size - size })
unfolding malloc
malloc_fits size v pos whole h = ground arith

-- Every call keeps the heap valid, whatever the size.
pub malloc-IsValid : {m : Heap} (size : ℕ) → IsValid m → IsValid (malloc m size).1
unfolding malloc
malloc-IsValid size v = ground arith

-- A size within 7 of 2^64 is rounded up to 0: the call returns the first free address, which is
-- not NULL, and reserves nothing.
pub malloc_wraps :
    {m : Heap} (size : ℕ)
    → IsValid m
    → 2 ^ 64 - 8 < size
    → size < 2 ^ 64
    → (malloc m size ≡ (m.heap, m)) × (0 < (malloc m size).0)
unfolding malloc
malloc_wraps size v lo hi = ground arith

-- A client's calls in order, with the block that each returned.
pub record Block : Type 0 where
  pub start : ℕ
  pub size : ℕ

pub allocate : Heap → List ℕ → List Block
allocate m [] = []
allocate m (n ∷ sizes) =
    let (p, m') = malloc m n in record { start = p; size = n } ∷ allocate m' sizes

-- The block was refused, or its bytes lie in the arena at or above `low`.
abbrev pub Within : ℕ → Block → Type 0
Within low b =
    (b.start ≡ 0) ⊎ ((low ≤ b.start) × (b.start + b.size ≤ arena_end) × (b.start % 8 ≡ 0))

-- The blocks share no byte, where both were granted.
abbrev pub Apart : Block → Block → Type 0
Apart a b = (a.start ≡ 0) ⊎ (b.start ≡ 0) ⊎ (a.start + a.size ≤ b.start)

abbrev pub PairwiseApart : List Block → Type 0
PairwiseApart [] = Unit
PairwiseApart (b ∷ bs) = All (Apart b) bs × PairwiseApart bs

-- One call: the free address does not fall, and a granted block lies between the old and the new.
malloc_step :
    {m : Heap} (n : ℕ)
    → IsValid m
    → n ≤ 2 ^ 64 - 8
    → let (p, m') = malloc m n in
      (m.heap ≤ m'.heap)
      × ((p ≡ 0) ⊎ ((m.heap ≤ p) × (p + n ≤ m'.heap) × (m'.heap ≤ arena_end) × (p % 8 ≡ 0)))
unfolding malloc
malloc_step n v h = ground arith

allocate-Within :
    (m : Heap) (low : ℕ) (sizes : List ℕ)
    → IsValid m
    → low ≤ m.heap
    → All (λ n. n ≤ 2 ^ 64 - 8) sizes
    → All (Within low) (allocate m sizes)
unfolding allocate
allocate-Within m low [] v le h = tt
allocate-Within m low (n ∷ sizes) v le h = (
  ground (arith, malloc_step n v h.0),
  allocate-Within (malloc m n).1 low sizes (malloc-IsValid n v) (omega (arith, malloc_step n v h.0))
      h.1,
)

Within-Apart :
    (b : Block) (low : ℕ) (bs : List Block)
    → (b.start ≡ 0) ⊎ (b.start + b.size ≤ low)
    → All (Within low) bs
    → All (Apart b) bs
Within-Apart b low [] h w = tt
Within-Apart b low (c ∷ bs) h w = (ground arith, Within-Apart b low bs h w.1)

-- No two granted blocks of any sequence of calls overlap, and all of them are aligned and lie in
-- the arena, if no size is within 7 of 2^64.
pub allocate-PairwiseApart :
    (m : Heap) (sizes : List ℕ)
    → IsValid m
    → All (λ n. n ≤ 2 ^ 64 - 8) sizes
    → PairwiseApart (allocate m sizes) × All (Within m.heap) (allocate m sizes)
unfolding allocate
allocate-PairwiseApart m [] v h = (tt, tt)
allocate-PairwiseApart m (n ∷ sizes) v h =
    let rest = allocate-PairwiseApart (malloc m n).1 sizes (malloc-IsValid n v) h.1 in
    (
      (
        Within-Apart (record { start = (malloc m n).0; size = n }) (malloc m n).1.heap
            (allocate (malloc m n).1 sizes) (ground (arith, malloc_step n v h.0)) rest.1,
        rest.0,
      ),
      allocate-Within m m.heap (n ∷ sizes) v (omega arith) h,
    )
