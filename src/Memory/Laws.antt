-- ===== src/Memory/Laws.antt =====
-- What the string functions of lib/ do to each cell.
use frog_os.Prelude.{◌⊎◌}
use frog_os.Prelude.{
  ℕ, zero, suc, ◌+◌, ◌-◌, ◌^◌, ◌≤◌, ◌<◌, ◌≡◌, ◌≢◌, ◌↔◌, refl, ap, ◌∙◌, some, Bool, true, ◌&&◌,
  update, u32, ltb, leb, if◌then◌else◌, arith,
}
use frog_os.Memory.{copy_up, fill_up, compare_up, memcmp, strlen_from, strlen}

-- Index `j` is one of the `n` cells from `start` on.
abbrev pub inside : (start n j : ℕ) → Bool
inside start n j = leb start j && ltb j (start + n)

-- Every cell of the destination gets the cell of the source as it was before the call, also where the
-- two overlap, if the destination does not start above the source. No other cell changes.
pub copy_up-get :
    (n dest src j : ℕ) (mem : ℕ → ℕ)
    → dest ≤ src
    → copy_up n dest src mem j ≡ (if inside dest n j then mem (src + (j - dest)) else mem j)
unfolding copy_up
copy_up-get zero dest src j mem le = ground arith
copy_up-get (suc n) dest src j mem le =
    ground (arith, copy_up-get n (dest + 1) (src + 1) j (update mem dest (mem src)))

pub fill_up-get :
    (n dest c j : ℕ) (mem : ℕ → ℕ) → fill_up n dest c mem j ≡ (if inside dest n j then c else mem j)
unfolding fill_up
fill_up-get zero dest c j mem = ground arith
fill_up-get (suc n) dest c j mem = ground (arith, fill_up-get n (dest + 1) c j (update mem dest c))

compare_up_sound :
    (n s₁ s₂ : ℕ) (mem : ℕ → ℕ)
    → compare_up n s₁ s₂ mem ≡ true
    → (j : ℕ) → j < n
    → mem (s₁ + j) ≡ mem (s₂ + j)
unfolding compare_up
compare_up_sound zero s₁ s₂ mem h j lt = absurd (omega arith)
compare_up_sound (suc n) s₁ s₂ mem h zero lt = ground arith
compare_up_sound (suc n) s₁ s₂ mem h (suc j) lt =
    ground (arith, compare_up_sound n (s₁ + 1) (s₂ + 1) mem (ground arith) j)

compare_up_complete :
    (n s₁ s₂ : ℕ) (mem : ℕ → ℕ)
    → ((j : ℕ) → j < n → mem (s₁ + j) ≡ mem (s₂ + j))
    → compare_up n s₁ s₂ mem ≡ true
unfolding compare_up
compare_up_complete zero s₁ s₂ mem h = refl
compare_up_complete (suc n) s₁ s₂ mem h =
    ground
      (arith, h 0, compare_up_complete n (s₁ + 1) (s₂ + 1) mem (λ j lt. ground (arith, h (suc j))))

-- A null-terminated string of `n` characters at `str`.
pub record IsString (mem : ℕ → ℕ) (str n : ℕ) : Type 0 where
  pub nonzero : (j : ℕ) → j < n → mem (str + j) ≢ 0
  pub end : mem (str + n) ≡ 0

IsString-tail : {mem : ℕ → ℕ} {str n : ℕ} → IsString mem str (suc n) → IsString mem (str + 1) n
IsString-tail s = record {
  nonzero = λ j lt. ground (arith, s.nonzero (suc j));
  end = ground (arith, s.end);
}

strlen_from-IsString :
    (fuel n str len : ℕ) (mem : ℕ → ℕ)
    → IsString mem str n
    → n < fuel
    → len + n < 2 ^ 31
    → strlen_from fuel mem str len ≡ some (len + n)
unfolding strlen_from
strlen_from-IsString zero n str len mem s f h = absurd (omega arith)
strlen_from-IsString (suc fuel) zero str len mem s f h = ground (arith, s.end)
strlen_from-IsString (suc fuel) (suc n) str len mem s f h = ground (
  arith,
  s.nonzero 0,
  strlen_from-IsString fuel n (str + 1) (u32 (len + 1)) mem (IsString-tail s),
)

-- `strlen` returns the number of characters, where that fits an int.
pub strlen-IsString :
    (fuel n str : ℕ) (mem : ℕ → ℕ)
    → IsString mem str n
    → n < fuel
    → n < 2 ^ 31
    → strlen fuel mem str ≡ some n
unfolding strlen
strlen-IsString fuel n str mem s f h =
    strlen_from-IsString fuel n str 0 mem s f (omega arith) ∙ ap some (omega arith)

-- `memcmp` returns 1 exactly when the two stretches hold the same bytes, and else 0.
pub memcmp-eq-one :
    (mem : ℕ → ℕ) (s₁ s₂ n : ℕ)
    → ((memcmp mem s₁ s₂ n ≡ 1) ↔ ((j : ℕ) → j < n → mem (s₁ + j) ≡ mem (s₂ + j)))
      × ((memcmp mem s₁ s₂ n ≡ 1) ⊎ (memcmp mem s₁ s₂ n ≡ 0))
unfolding memcmp
memcmp-eq-one mem s₁ s₂ n = (
  (
    λ h. compare_up_sound n s₁ s₂ mem (ground arith),
    λ h. ground (arith, compare_up_complete n s₁ s₂ mem h),
  ),
  ground arith,
)
