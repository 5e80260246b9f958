-- ===== src/Dsp/Float.antt =====
-- The numbers that signal code computes with: `float` and its operations are a parameter.
use tanh_lib.Base.{ℕ, Bool, if◌then◌else◌}

-- The operations of `float` that the code uses. Nothing is assumed of them here.
pub record FloatOps (F : Type 0) : Type 0 where
  pub decimal : ℕ → ℕ → F  -- the literal for m / 10 ^ k
  pub from_size : ℕ → F  -- static_cast<float>(size_t)
  pub add : F → F → F
  pub sub : F → F → F
  pub mul : F → F → F
  pub div : F → F → F
  pub neg : F → F
  pub abs : F → F
  pub exp : F → F
  pub lt : F → F → Bool  -- a < b
  pub le : F → F → Bool  -- a <= b
  pub eq : F → F → Bool  -- a == b

module _ {F : Type 0} (ops : FloatOps F) where
  -- std::max, std::min and std::clamp, by their documented comparisons
  abbrev pub max_float : F → F → F
  max_float a b = if ops.lt a b then b else a

  abbrev pub clamp_float : F → F → F → F
  clamp_float v lo hi = if ops.lt v lo then lo else if ops.lt hi v then hi else v
