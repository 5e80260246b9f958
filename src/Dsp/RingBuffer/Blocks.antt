-- ===== src/Dsp/RingBuffer/Blocks.antt =====
-- The loops of `push_block` and `pop_block`, over a valid channel.
use tanh_lib.Base.{
  ℕ, zero, suc, ◌+◌, ◌-◌, ◌≤◌, ◌<◌, ◌≡◌, sym, ap, ◌∙◌, List, [], ◌∷◌, ◌++◌, arith, length,
  length-append, drop, drop-drop_append, min, length-window,
}
use mathlib.Core.List.{append_assoc, append-nil}
use tanh_lib.Dsp.RingBuffer.{Channel, push_channel, pop_channel, push_block, pop_block}
use tanh_lib.Dsp.RingBuffer.Inv.{IsValid, push-IsValid, pop-IsValid}
use tanh_lib.Dsp.RingBuffer.Tape.{Tape, push, tape, push_refines, pop_refines}

module _ {A : Type 0} (d : A) (c : ℕ) where
  -- The samples ahead of the head.
  abbrev pub ahead : ℕ → Channel A → List A
  ahead n ch = (tape d c n ch).ahead

push-ahead :
    {A : Type 0} (c : ℕ) (t : Tape A) (x : A)
    → 0 < c
    → length t.ahead ≤ c
    → (push c t x).ahead ≡ drop (length t.ahead + 1 - c) (t.ahead ++ (x ∷ []))
unfolding push
push-ahead c t x pos h = ground (arith, drop-drop_append 0 1 t.ahead (x ∷ []))

module _ {A : Type 0} (d : A) {c n : ℕ} {ch : Channel A} (v : IsValid c n ch) where
  ahead-push :
      (x : A)
      → ahead d c (min (n + 1) c) (push_channel c ch x)
        ≡ drop (n + 1 - c) (ahead d c n ch ++ (x ∷ []))
  ahead-push x =
      ap (λ t. t.ahead) (push_refines d v x)
      ∙ push-ahead c (tape d c n ch) x v.some_room
          (omega (arith, length-window d c ch.row ch.read_pos n))
      ∙ ap (λ k. drop (k + 1 - c) (ahead d c n ch ++ (x ∷ [])))
          (length-window d c ch.row ch.read_pos n)

-- A block of pushes keeps the invariant. What is then ahead of the head is what was ahead
-- before, and the block behind it: the latest samples, as many as the capacity.
pub push_block_lem :
    {A : Type 0} (d : A) {c : ℕ} (xs : List A) {n : ℕ} {ch : Channel A}
    → IsValid c n ch
    → IsValid c (min (n + length xs) c) (push_block c ch xs)
      × (ahead d c (min (n + length xs) c) (push_block c ch xs)
          ≡ drop (n + length xs - c) (ahead d c n ch ++ xs))
unfolding push_block
push_block_lem d {c} [] {n} {ch} v = ground (arith, append-nil (ahead d c n ch))
push_block_lem d {c} (x ∷ xs) {n} {ch} v = ground (
  arith,
  push-IsValid v x,
  push_block_lem d xs (push-IsValid v x),
  ahead-push d v x,
  length-window d c ch.row ch.read_pos n,
  length-append (ahead d c n ch) (x ∷ []),
  append_assoc (ahead d c n ch) (x ∷ []) xs,
  drop-drop_append (min (n + 1) c + length xs - c) (n + 1 - c) (ahead d c n ch ++ (x ∷ [])) xs,
)

-- A block of pops of samples that are available keeps the invariant, returns them in order
-- and leaves the others.
pub pop_block_lem :
    {A : Type 0} (d : A) {c : ℕ} (m : ℕ) {n : ℕ} {ch : Channel A}
    → m ≤ n
    → IsValid c n ch
    → IsValid c (n - m) (pop_block d c ch m).1
      × ((pop_block d c ch m).0 ++ ahead d c (n - m) (pop_block d c ch m).1 ≡ ahead d c n ch)
      × (length (pop_block d c ch m).0 ≡ m)
unfolding pop_block
pop_block_lem d {c} zero {n} {ch} h v = ground arith
pop_block_lem d {c} (suc m) {n} {ch} h v = ground (
  arith,
  pop-IsValid v d,
  pop_block_lem d {c = c} m {n = n - 1} {ch = (pop_channel d c ch).1},
  pop_refines d v,
)

-- A block pushed into a valid channel comes back, after the samples that were ahead, when all
-- is popped that is then available: in order, and short of what exceeded the capacity.
pub pop-push_block :
    {A : Type 0} (d : A) {c : ℕ} (xs : List A) {n : ℕ} {ch : Channel A}
    → IsValid c n ch
    → (pop_block d c (push_block c ch xs) (min (n + length xs) c)).0
      ≡ drop (n + length xs - c) (ahead d c n ch ++ xs)
pop-push_block d {c} xs {n} {ch} v =
    let (valid, pushed) = push_block_lem d xs v in
    let m = min (n + length xs) c in
    let (_, popped, _) =
      pop_block_lem d {c = c} m {n = m} {ch = push_block c ch xs} (omega arith) valid in
    sym (append-nil (pop_block d c (push_block c ch xs) m).0)
    ∙ ap
        (λ k.
          (pop_block d c (push_block c ch xs) m).0
          ++ ahead d c k (pop_block d c (push_block c ch xs) m).1)
        {x = 0} {y = m - m} (omega arith)
    ∙ popped
    ∙ pushed
