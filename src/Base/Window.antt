-- ===== src/Base/Window.antt =====
-- The cells of a circular buffer from an index on, as a list.
use Prim.Native.Nat.{ℕ, zero, suc, ◌+◌, ◌-◌, ◌%◌, ◌≤◌, ◌<◌}
use mathlib.Core.Path.{◌≡◌, refl, ap, ap₂, ◌∙◌, sym, subst}
use mathlib.Core.Logic.{◌≢◌}
use mathlib.Core.List.{List, [], ◌∷◌, ◌++◌}
use mathlib.Core.Option.{some}
use native.Mathlib.Omega.{arith}
use native.Mathlib.Decide.{dec_lt}
use native.Mathlib.Nat.{add-zero}
use tanh_lib.Base.Lists.{
  length, get_or, get_elem?, set, drop, length-append, get_or-set_self, get_or-set_ne,
}
use tanh_lib.Base.Mod.{mod-eq_sub, mod_below, mod_step, mod_bound}

module _ {ℓ} {A : Type ℓ} (d : A) (c : ℕ) where
  -- The `n` cells `h`, `h + 1`, ..., each index modulo `c`.
  abbrev pub window : List A → ℕ → ℕ → List A
  window buf h zero = []
  window buf h (suc n) = window buf h n ++ (get_or buf ((h + n) % c) d ∷ [])

  pub length-window : (buf : List A) (h n : ℕ) → length (window buf h n) ≡ n
  length-window buf h zero = refl
  length-window buf h (suc n) = omega (
    arith,
    length-append (window buf h n) (get_or buf ((h + n) % c) d ∷ []),
    length-window buf h n,
  )

  pub window-cong : (buf : List A) {h k m n : ℕ} → h ≡ k → m ≡ n → window buf h m ≡ window buf k n
  window-cong buf e f = ap₂ (window buf) e f

  -- The start of a window matters only modulo `c`.
  pub window-mod : (buf : List A) (h n : ℕ) → window buf (h % c) n ≡ window buf h n
  window-mod buf h zero = refl
  window-mod buf h (suc n) =
      ap₂ (λ xs i. xs ++ (get_or buf i d ∷ [])) (window-mod buf h n) (mod_step c h n)

  pub window-mod_eq : (buf : List A) (h k n : ℕ) → h % c ≡ k % c → window buf h n ≡ window buf k n
  window-mod_eq buf h k n e =
      sym (window-mod buf h n) ∙ ap (λ i. window buf i n) e ∙ window-mod buf k n

  -- The first cell of a window, and the rest.
  pub window-cons :
      (buf : List A) (h n : ℕ) → window buf h (suc n) ≡ get_or buf (h % c) d ∷ window buf (h + 1) n
  window-cons buf h zero = ap (λ i. get_or buf (i % c) d ∷ []) (add-zero h)
  window-cons buf h (suc n) =
      ap₂ (λ xs i. xs ++ (get_or buf (i % c) d ∷ [])) (window-cons buf h n) (omega arith)

  -- A write outside a window does not change it.
  pub window-set_outside :
      (buf : List A) (h n i : ℕ) (x : A)
      → ((k : ℕ) → k < n → i ≢ (h + k) % c)
      → window (set buf i x) h n ≡ window buf h n
  window-set_outside buf h zero i x out = refl
  window-set_outside buf h (suc n) i x out =
      ap₂ (λ xs y. xs ++ (y ∷ [])) (window-set_outside buf h n i x (λ k lt. out k (omega arith)))
        (get_or-set_ne buf x d (out n (omega arith)))

  -- The rest of a window is a window.
  pub drop-window :
      (buf : List A) (h n : ℕ) → 0 < n → drop 1 (window buf h n) ≡ window buf (h + 1) (n - 1)
  drop-window buf h zero p = elim p [ ]
  drop-window buf h (suc n) p =
      ap (drop 1) (window-cons buf h n)
      ∙ ap (window buf (h + 1)) {x = n} {y = suc n - 1} (omega arith)

  index_ne_below : (h k n : ℕ) → h < c → k < n → n < c → (h + n) % c ≢ (h + k) % c
  index_ne_below h k n hh lk ln = elim (dec_lt (h + n) c) [
    | yes p ↦ omega (arith, mod_below p, mod_below {c = c} {n = h + k} (omega arith))
    | no p ↦ elim (dec_lt (h + k) c) [
      | yes q ↦
          omega (arith, mod-eq_sub {c = c} {n = h + n} (omega arith) (omega arith), mod_below q)
      | no q ↦ omega (
        arith,
        mod-eq_sub {c = c} {n = h + n} (omega arith) (omega arith),
        mod-eq_sub {c = c} {n = h + k} (omega arith) (omega arith),
      )
    ]
  ]

  -- Cells less than `c` apart are different cells.
  pub index_ne : (h k n : ℕ) → k < n → n < c → (h + n) % c ≢ (h + k) % c
  index_ne h k n lk ln e =
      index_ne_below (h % c) k n (mod_bound {c = c} h (omega arith)) lk ln
        (mod_step c h n ∙ e ∙ sym (mod_step c h k))

  -- A write just past a window extends it by the value written.
  pub window-set :
      (buf : List A) (h n i : ℕ) (x : A)
      → c ≤ length buf
      → n < c
      → i ≡ (h + n) % c
      → window (set buf i x) h (suc n) ≡ window buf h n ++ (x ∷ [])
  window-set buf h n i x len hn e =
      ap₂ (λ xs y. xs ++ (y ∷ []))
        (window-set_outside buf h n i x (λ k lt p. index_ne h k n lt hn (sym e ∙ p)))
        (subst (λ j. get_or (set buf i x) j d ≡ x) e
          (get_or-set_self buf i x d (omega (arith, mod_bound {c = c} (h + n) (omega arith)))))

  -- The `k`-th element of a window.
  pub get_elem?-window :
      (buf : List A) (h n k : ℕ)
      → k < n
      → get_elem? (window buf h n) k ≡ some (get_or buf ((h + k) % c) d)
  get_elem?-window buf h zero k lt = elim lt [ ]
  get_elem?-window buf h (suc n) zero lt =
      ap (λ xs. get_elem? xs 0) (window-cons buf h n)
      ∙ ap (λ i. some (get_or buf (i % c) d)) (omega arith)
  get_elem?-window buf h (suc n) (suc k) lt =
      ap (λ xs. get_elem? xs (suc k)) (window-cons buf h n)
      ∙ get_elem?-window buf (h + 1) n k (omega arith)
      ∙ ap (λ i. some (get_or buf (i % c) d)) (omega arith)
