-- ===== src/Dsp/SmootherBank/Ramps.antt =====
-- What a ramp does sample by sample, and that it ends at its target.
use tanh_lib.Base.{
  ℕ, zero, suc, ◌-◌, ◌<◌, ◌≤◌, ◌≡◌, ◌≢◌, refl, false, if◌then◌else◌, ltb, List, [], ◌∷◌, some,
  length, get_elem?, set, arith, get_elem?-set_ne, get_elem?-set_self, Bool-cases, inl, inr,
}
use tanh_lib.Dsp.Float.{FloatOps}
use tanh_lib.Dsp.SmootherBank.{
  Lane, SmootherBank, start_ramp, set_lane_target, next_lane, snapped, set_target, next_all,
  next_first,
}

-- `n` samples of a lane.
unfoldable pub run : {F : Type 0} → FloatOps F → ℕ → Lane F → Lane F
run ops zero l = l
run ops (suc n) l = run ops n (next_lane ops l)

-- `n` steps added one by one.
abbrev pub climb : {F : Type 0} → FloatOps F → ℕ → F → F → F
climb ops zero step x = x
climb ops (suc n) step x = climb ops n step (ops.add x step)

module _ {F : Type 0} (ops : FloatOps F) where
  run-before :
      (k : ℕ) (l : Lane F)
      → k < l.samples_remaining
      → run ops k l ≡ record l {
        current = climb ops k l.step l.current;
        samples_remaining = l.samples_remaining - k;
      }
  unfolding run next_lane
  run-before zero l h = ground arith
  run-before (suc k) l h = ground (arith, run-before k (next_lane ops l))

  run-done : (k : ℕ) (x : F) → run ops k (snapped ops x) ≡ snapped ops x
  unfolding run next_lane
  run-done zero x = refl
  run-done (suc k) x = run-done k x

  run-after :
      (k : ℕ) (l : Lane F)
      → 0 < l.samples_remaining
      → l.samples_remaining ≤ k
      → run ops k l ≡ snapped ops l.target
  unfolding run next_lane
  run-after zero l p h = absurd (omega arith)
  run-after (suc k) l p h = ground (arith, run-after k (next_lane ops l), run-done k l.target)

  -- The lane as a ramp starts.
  abbrev pub started : Lane F → F → ℕ → Lane F
  started l value n = record {
    current = l.current;
    target = value;
    step = ops.div (ops.sub value l.current) (ops.from_size n);
    samples_remaining = n;
  }

  set_lane_target-started :
      (l : Lane F) (value : F) (n : ℕ)
      → ops.eq value l.target ≡ false
      → 0 < n
      → set_lane_target ops l value n ≡ started l value n
  unfolding set_lane_target start_ramp
  set_lane_target-started l value n e p = ground arith

  -- A lane that is given a new target with a ramp of `n` samples, n above 0, has after k < n samples
  -- the target, the k-th point of the ramp and n - k samples to go, and after k ≥ n samples it is
  -- exactly at the target with none to go.
  pub run-set_lane_target :
      (l : Lane F) (value : F) (n k : ℕ)
      → ops.eq value l.target ≡ false
      → 0 < n
      → run ops k (set_lane_target ops l value n) ≡ (
          if ltb k n
          then (record (started l value n) {
            current = climb ops k (started l value n).step l.current;
            samples_remaining = n - k;
          })
          else snapped ops value)
  run-set_lane_target l value n k e p =
      rw (set_lane_target-started l value n e p) (elim (Bool-cases (ltb k n)) [
        | inl t ↦ rw t (run-before k (started l value n) (ground arith))
        | inr f ↦ rw f (run-after k (started l value n) p (ground arith))
      ])

next_first-get :
    {F : Type 0} (ops : FloatOps F) (n i : ℕ) (ls : List (Lane F)) (l : Lane F)
    → get_elem? ls i ≡ some l
    → get_elem? (next_first ops n ls) i ≡ some (if ltb i n then next_lane ops l else l)
unfolding next_first
next_first-get ops zero i ls l h = ground arith
next_first-get ops (suc n) i [] l h = (cc)
next_first-get ops (suc n) zero (x ∷ ls) l h = ground arith
next_first-get ops (suc n) (suc i) (x ∷ ls) l h = ground (arith, next_first-get ops n i ls l h)

-- With no more values asked for than there are lanes, `next_all` succeeds: it moves each lane whose
-- value it writes by one sample, whatever the other lanes are, and leaves the others as they were.
pub next_all_lem :
    {F : Type 0} (ops : FloatOps F) (b : SmootherBank F) (n i : ℕ) (l : Lane F)
    → n ≤ length b.lanes
    → get_elem? b.lanes i ≡ some l
    → (b' : SmootherBank F) × (next_all ops b n ≡ some b')
      × (get_elem? b'.lanes i ≡ some (if ltb i n then next_lane ops l else l))
unfolding next_all
next_all_lem ops b n i l h e = (
  record b { lanes = next_first ops n b.lanes },
  ground arith,
  next_first-get ops n i b.lanes l e,
)

get_elem?-lt : {A : Type 0} (xs : List A) (i : ℕ) {x : A} → get_elem? xs i ≡ some x → i < length xs
get_elem?-lt [] i h = (cc)
get_elem?-lt (x ∷ xs) zero h = omega arith
get_elem?-lt (x ∷ xs) (suc i) h = omega (arith, get_elem?-lt xs i h)

-- `set_target` on a lane of the bank succeeds, starts the lane's ramp with the bank's number of
-- samples, and leaves the other lanes and that number as they were.
pub set_target_lem :
    {F : Type 0} (ops : FloatOps F) (b : SmootherBank F) (i : ℕ) (l : Lane F) (value : F)
    → get_elem? b.lanes i ≡ some l
    → (b' : SmootherBank F) × (set_target ops b i value ≡ some b')
      × (get_elem? b'.lanes i ≡ some (set_lane_target ops l value b.ramp_samples))
      × ((j : ℕ) → i ≢ j → get_elem? b'.lanes j ≡ get_elem? b.lanes j)
      × (b'.ramp_samples ≡ b.ramp_samples)
unfolding set_target
set_target_lem ops b i l value e = (
  record b { lanes = set b.lanes i (set_lane_target ops l value b.ramp_samples) },
  ground (arith, e),
  get_elem?-set_self b.lanes i _ (get_elem?-lt b.lanes i e),
  (λ j ne. get_elem?-set_ne b.lanes _ ne),
  refl,
)
