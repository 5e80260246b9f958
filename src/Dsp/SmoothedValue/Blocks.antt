-- ===== src/Dsp/SmoothedValue/Blocks.antt =====
-- A ramp that is read in blocks of any sizes ends at its target, and not before its time.
use tanh_lib.Base.{
  ℕ, ◌+◌, ◌-◌, ◌<◌, ◌≤◌, ◌≡◌, refl, ltb, List, [], ◌∷◌, arith, sym, ◌∙◌, ◌&&◌, leb, Bool-cases, inl,
  inr,
}
use tanh_lib.Dsp.Float.{FloatOps}
use tanh_lib.Dsp.SmoothedValue.{SmoothedValue, get_smoothed_value}

abbrev pub total : List ℕ → ℕ
total [] = 0
total (n ∷ ns) = n + total ns

-- Calls of `get_smoothed_value` for one block after another.
unfoldable pub read_blocks : {F : Type 0} → FloatOps F → SmoothedValue F → List ℕ → SmoothedValue F
read_blocks ops v [] = v
read_blocks ops v (n ∷ ns) = read_blocks ops (get_smoothed_value ops v n) ns

module _ {F : Type 0} (ops : FloatOps F) where
  get_smoothed_value-remaining :
      (v : SmoothedValue F) (n : ℕ)
      → ((get_smoothed_value ops v n).samples_remaining ≡ v.samples_remaining - n)
        × ((get_smoothed_value ops v n).target_value ≡ v.target_value)
        × ((get_smoothed_value ops v n).time_in_samples ≡ v.time_in_samples)
  unfolding get_smoothed_value
  get_smoothed_value-remaining v n = ground arith

  -- Reading any blocks counts the remaining samples down by their total, to 0 at least, and keeps
  -- the target and the length of a ramp.
  pub read_blocks-remaining :
      (v : SmoothedValue F) (ns : List ℕ)
      → ((read_blocks ops v ns).samples_remaining ≡ v.samples_remaining - total ns)
        × ((read_blocks ops v ns).target_value ≡ v.target_value)
        × ((read_blocks ops v ns).time_in_samples ≡ v.time_in_samples)
  unfolding read_blocks
  read_blocks-remaining v [] = (omega arith, refl, refl)
  read_blocks-remaining v (n ∷ ns) =
      let step = get_smoothed_value-remaining v n in
      let rest = read_blocks-remaining (get_smoothed_value ops v n) ns in
      ground (arith, step.0, step.1, step.2, rest.0, rest.1, rest.2)

  get_smoothed_value-arrives :
      (v : SmoothedValue F) (n : ℕ)
      → 0 < n
      → v.samples_remaining ≤ n
      → (get_smoothed_value ops v n).current_value ≡ v.target_value
  unfolding get_smoothed_value
  get_smoothed_value-arrives v n p h = ground arith

  stays :
      (v : SmoothedValue F) (ns : List ℕ)
      → v.current_value ≡ v.target_value
      → v.samples_remaining ≡ 0
      → (read_blocks ops v ns).current_value ≡ v.target_value
  unfolding read_blocks get_smoothed_value
  stays v [] c e = c
  stays v (n ∷ ns) c e = ground (arith, stays (get_smoothed_value ops v n) ns)

  -- A block that ends the ramp, and blocks after it.
  ends :
      (v : SmoothedValue F) (n : ℕ) (ns : List ℕ)
      → 0 < n
      → v.samples_remaining ≤ n
      → (read_blocks ops (get_smoothed_value ops v n) ns).current_value ≡ v.target_value
  ends v n ns p h =
      let (left, kept, _) = get_smoothed_value-remaining v n in
      stays (get_smoothed_value ops v n) ns (get_smoothed_value-arrives v n p h ∙ sym kept)
        (left ∙ omega arith)
      ∙ kept

  -- Once blocks that hold at least the remaining samples, and at least one sample, have been read,
  -- the value is exactly the target, however the samples are cut into blocks.
  pub read_blocks-arrives :
      (v : SmoothedValue F) (ns : List ℕ)
      → 0 < total ns
      → v.samples_remaining ≤ total ns
      → (read_blocks ops v ns).current_value ≡ v.target_value
  unfolding read_blocks
  read_blocks-arrives v [] p h = absurd (omega arith)
  read_blocks-arrives v (n ∷ ns) p h =
      let rest = read_blocks-arrives (get_smoothed_value ops v n) ns in
      let (left, kept, _) = get_smoothed_value-remaining v n in
      elim (Bool-cases (ltb 0 n && leb v.samples_remaining n)) [
        | inl e ↦ ends v n ns (ground arith) (ground arith)
        | inr e ↦ rest (ground (arith, left)) (ground (arith, left)) ∙ kept
      ]
