-- ===== src/Memory.antt =====
-- lib/memcpy.c, lib/memset.c, lib/memcmp.c and lib/strlen.c over a memory of cells.
-- The string instructions run upwards (`cld`). A cell is a byte, or for `memsetw` and the copying of
-- screen cells a 16-bit word; the counts are in cells.
pub mod Laws
pub mod Cells
mod Tests
use frog_os.Prelude.{
  ℕ, zero, suc, ◌+◌, Option, none, some, Bool, true, false, update, u32, ◌==◌, if◌then◌else◌,
}

-- `rep movs`
unfoldable pub copy_up : (n dest src : ℕ) → (ℕ → ℕ) → ℕ → ℕ
copy_up zero dest src mem = mem
copy_up (suc n) dest src mem = copy_up n (dest + 1) (src + 1) (update mem dest (mem src))

-- `rep stos`
unfoldable pub fill_up : (n dest c : ℕ) → (ℕ → ℕ) → ℕ → ℕ
fill_up zero dest c mem = mem
fill_up (suc n) dest c mem = fill_up n (dest + 1) c (update mem dest c)

-- The returned pointer, and the memory after the call.
unfoldable pub memcpy : (ℕ → ℕ) → (dest src n : ℕ) → ℕ × (ℕ → ℕ)
memcpy mem dest src n = (dest, copy_up n dest src mem)

unfoldable pub memset : (ℕ → ℕ) → (s c n : ℕ) → ℕ × (ℕ → ℕ)
memset mem s c n = (s, fill_up n s c mem)

unfoldable pub memsetw : (ℕ → ℕ) → (s c n : ℕ) → ℕ × (ℕ → ℕ)
memsetw mem s c n = (s, fill_up n s c mem)

-- `repe cmpsb`, with the zero flag that `setz` reads; `cmp %ecx,%ecx` has set it.
pub compare_up : (n s₁ s₂ : ℕ) → (ℕ → ℕ) → Bool
compare_up zero s₁ s₂ mem = true
compare_up (suc n) s₁ s₂ mem =
    let rest = compare_up n (s₁ + 1) (s₂ + 1) mem in if mem s₁ == mem s₂ then rest else false

pub memcmp : (ℕ → ℕ) → (s₁ s₂ n : ℕ) → ℕ
memcmp mem s₁ s₂ n = if compare_up n s₁ s₂ mem then 1 else 0

-- The loop of `strlen`: `none` if `fuel` rounds meet no null byte. The int `len` wraps.
pub strlen_from : (fuel : ℕ) → (ℕ → ℕ) → (str len : ℕ) → Option ℕ
strlen_from zero mem str len = none
strlen_from (suc fuel) mem str len =
    let rest = strlen_from fuel mem (str + 1) (u32 (len + 1)) in
    if mem str == 0 then some len else rest

unfoldable pub strlen : (fuel : ℕ) → (ℕ → ℕ) → (str : ℕ) → Option ℕ
strlen fuel mem str = strlen_from fuel mem str 0
