-- ===== src/Modulation/EventQueue/Offsets.antt =====
-- Where the events of one stream are placed within the block.
use tanh_lib.Base.{ℕ, ◌-◌, ◌*◌, ◌/◌, ◌%◌, ◌^◌, ◌≤◌, ◌<◌, ◌≡◌, ◌∙◌, ap, mod_below, arith, subst}
use native.Mathlib.Nat.{
  mul-lt-mul_of_pos_right, mul-le-mul_right, mul-le-mul, mul_comm, div-lt_iff_lt-mul,
  le-div_iff_mul-le, div-mul-le_self, le_trans,
}
use tanh_lib.Modulation.EventQueue.{spread_offset}

-- Division keeps the order.
div_mono : (a b n : ℕ) → 0 < n → a ≤ b → a / n ≤ b / n
div_mono a b n pos h = (le-div_iff_mul-le pos).1 (le_trans (div-mul-le_self a n) h)

module _ (block_size n : ℕ) (small : n < 2 ^ 32) (block_small : block_size < 2 ^ 32) where
  product_small : (i : ℕ) → i < n → i * block_size < 2 ^ 64
  product_small i h =
      let le : i * block_size ≤ (2 ^ 32 - 1) * (2 ^ 32 - 1) =
        mul-le-mul {n₁ = i} {m₁ = block_size} {n₂ = 2 ^ 32 - 1} {m₂ = 2 ^ 32 - 1} (omega arith)
          (omega arith) in
      omega arith

  quotient-lt : (i : ℕ) → 0 < block_size → i < n → i * block_size / n < block_size
  quotient-lt i pos h =
      (div-lt_iff_lt-mul (omega arith)).1
        (subst (λ m. i * block_size < m) (mul_comm n block_size) (mul-lt-mul_of_pos_right h pos))

  -- Within the ranges of the source's types the offset is `i * block_size / n`: neither the
  -- product of two `size_t` nor the cast to `uint32_t` wraps.
  pub spread_offset-eq :
      (i : ℕ) → 0 < block_size → i < n → spread_offset block_size n i ≡ i * block_size / n
  unfolding spread_offset
  spread_offset-eq i pos h =
      ap (λ m. m / n % 2 ^ 32) (mod_below (product_small i h))
      ∙ mod_below (omega (arith, quotient-lt i pos h))

  -- Every offset lies within the block.
  pub spread_offset-lt :
      (i : ℕ) → 0 < block_size → i < n → spread_offset block_size n i < block_size
  spread_offset-lt i pos h = omega (arith, spread_offset-eq i pos h, quotient-lt i pos h)

  -- A later event of a stream has no smaller offset.
  pub spread_offset_mono :
      (i j : ℕ)
      → 0 < block_size
      → i ≤ j
      → j < n
      → spread_offset block_size n i ≤ spread_offset block_size n j
  spread_offset_mono i j pos le h = omega (
    arith,
    spread_offset-eq i pos,
    spread_offset-eq j pos,
    div_mono (i * block_size) (j * block_size) n (omega arith) (mul-le-mul_right block_size le),
  )
