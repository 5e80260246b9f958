-- ===== src/Dsp/RingBuffer/Inv.antt =====
-- The invariant of one channel of `RingBuffer`.
use tanh_lib.Base.{
  ℕ, ◌+◌, ◌-◌, ◌%◌, ◌^◌, ◌≤◌, ◌<◌, ◌≡◌, ◌⊎◌, inl, inr, true, false, arith, length, length-set,
  length-replicate, mod-eq_sub, mod_below, dec_lt, min, ap, ◌∙◌,
}
use tanh_lib.Dsp.RingBuffer.{
  Channel, add_size, sub_size, push_channel, pop_channel, get_available_samples,
  get_available_past_samples, cleared,
}

-- `available` is what `get_available_samples` returns, without its `size_t` arithmetic.
pub record IsValid {ℓ} {A : Type ℓ} (capacity available : ℕ) (ch : Channel A) : Type 0 where
  pub some_room : 0 < capacity
  pub small : capacity ≤ 2 ^ 62
  pub size : length ch.row ≡ capacity
  pub read_in : ch.read_pos < capacity
  pub write_in : ch.write_pos < capacity
  pub valid_in : ch.num_valid ≤ capacity
  pub known : available ≤ ch.num_valid
  pub full : ch.is_full ≡ true → available ≡ capacity
  pub not_full : ch.is_full ≡ false → available < capacity
  pub ahead :
      (ch.write_pos ≡ ch.read_pos + available) ⊎ (ch.write_pos + capacity ≡ ch.read_pos + available)

-- An index stepped by one goes round at the capacity.
pub index_step :
    (c i : ℕ)
    → i < c
    → c ≤ 2 ^ 62
    → ((i + 1 < c) × (add_size i 1 % c ≡ i + 1)) ⊎ ((i + 1 ≡ c) × (add_size i 1 % c ≡ 0))
index_step c i h k = elim (dec_lt (i + 1) c) [
  | yes p ↦ inl (p, ap (λ m. m % c) (omega arith) ∙ mod_below p)
  | no p ↦ inr (
    omega arith,
    ap (λ m. m % c) (omega arith)
        ∙ mod-eq_sub {c = c} {n = i + 1} (omega arith) (omega arith)
        ∙ omega arith,
  )
]

-- The distance from the read to the write index, on a channel that is not full.
pub distance :
    (c w r n : ℕ)
    → w < c
    → r < c
    → n < c
    → c ≤ 2 ^ 62
    → (w ≡ r + n) ⊎ (w + c ≡ r + n)
    → sub_size (add_size w c) r % c ≡ n
distance c w r n hw hr hn k (inl e) =
    ap (λ m. m % c) (omega arith)
    ∙ mod-eq_sub {c = c} {n = n + c} (omega arith) (omega arith)
    ∙ omega arith
distance c w r n hw hr hn k (inr e) = ap (λ m. m % c) (omega arith) ∙ mod_below hn

module _ {ℓ} {A : Type ℓ} {c n : ℕ} {ch : Channel A} (v : IsValid c n ch) where
  -- `get_available_samples` returns the number of samples between the two indices.
  pub available-eq : get_available_samples c ch ≡ n
  unfolding get_available_samples
  available-eq = ground (arith, distance c ch.write_pos ch.read_pos n)

  -- `get_available_past_samples` does not wrap.
  pub available_past-eq : get_available_past_samples c ch ≡ ch.num_valid - n
  unfolding get_available_past_samples
  available_past-eq = omega (arith, available-eq)

  -- A push keeps the invariant, with one more sample available, up to the capacity.
  pub push-IsValid : (x : A) → IsValid c (min (n + 1) c) (push_channel c ch x)
  unfolding push_channel
  push-IsValid x = ground (arith, length-set ch.row ch.write_pos x, index_step c ch.write_pos)

  -- A pop of a channel that holds a sample keeps the invariant with one sample fewer.
  pub pop-IsValid : (d : A) → 0 < n → IsValid c (n - 1) (pop_channel d c ch).1
  unfolding pop_channel
  pop-IsValid d h = ground (arith, index_step c ch.read_pos)

-- A cleared channel is valid and empty.
pub cleared-IsValid {ℓ} :
    {A : Type ℓ} (d : A) (c : ℕ) → 0 < c → c ≤ 2 ^ 62 → IsValid c 0 (cleared d c)
unfolding cleared
cleared-IsValid d c h k = ground (arith, length-replicate c d)
