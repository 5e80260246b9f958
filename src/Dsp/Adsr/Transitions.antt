-- ===== src/Dsp/Adsr/Transitions.antt =====
-- When the envelope changes its state, and the level that it then has.
use tanh_lib.Base.{◌≡◌, refl, subst, Bool, true, false, Bool-cases, inl, inr}
use tanh_lib.Dsp.Float.{FloatOps, clamp_float}
use tanh_lib.Dsp.Adsr.{
  State, idle, attack, decay, sustain, release, Adsr, process, advance, process_attack,
  process_decay, process_release, attack_increment, decay_decrement, release_decrement, zero_level,
  one,
}

module _ {F : Type 0} (ops : FloatOps F) where
  abbrev pub clamped : F → F
  clamped x = clamp_float ops x (zero_level ops) (one ops)

  -- The level that the ramp of the state leads to, before it is compared.
  abbrev pub ramp : Adsr F → F
  ramp a = elim a.state [
    | idle ↦ a.current_level
    | attack ↦ ops.add a.current_level (attack_increment ops a)
    | decay ↦ ops.sub a.current_level (decay_decrement ops a)
    | sustain ↦ a.sustain_level
    | release ↦ ops.sub a.current_level (release_decrement ops a)
  ]

  -- The ramp is at its end: near the peak, near the sustain level, or at silence.
  abbrev pub is_done : Adsr F → F → Bool
  is_done a level = elim a.state [
    | idle ↦ false
    | attack ↦ ops.le (ops.sub (one ops) (ops.decimal 1 2)) level
    | decay ↦ ops.le level (ops.add a.sustain_level (ops.decimal 1 2))
    | sustain ↦ false
    | release ↦ ops.le level (ops.decimal 1 7)
  ]

  -- The step from an envelope to a state and a level: a state goes on along its ramp, or its ramp is
  -- done and the state after it begins at the end of the ramp.
  pub data Follows (a : Adsr F) : State → F → Type 0 where
    goes_on : is_done a (ramp a) ≡ false → Follows a a.state (clamped (ramp a))
    peaks : a.state ≡ attack → is_done a (ramp a) ≡ true → Follows a decay (clamped (one ops))
    settles :
        a.state ≡ decay → is_done a (ramp a) ≡ true → Follows a sustain (clamped a.sustain_level)
    ends : a.state ≡ release → is_done a (ramp a) ≡ true → Follows a idle (clamped (zero_level ops))

  advance-Follows :
      (s : State) (a : Adsr F)
      → a.state ≡ s
      → Follows a (advance ops s a).state (clamped (advance ops s a).current_level)
  unfolding advance process_attack process_decay process_release attack_increment decay_decrement
      release_decrement
  advance-Follows idle a e =
      let at : ramp a ≡ a.current_level = rw e refl in
      subst (λ x. Follows a a.state (clamped x)) at (goes_on (rw e refl))
  advance-Follows sustain a e =
      let at : ramp a ≡ a.sustain_level = rw e refl in
      subst (λ x. Follows a a.state (clamped x)) at (goes_on (rw e refl))
  advance-Follows attack a e =
      let level = ops.add a.current_level (attack_increment ops a) in
      let at : ramp a ≡ level = rw e refl in
      elim (Bool-cases (ops.le (ops.sub (one ops) (ops.decimal 1 2)) level)) [
        | inl t ↦ rw t (peaks e (rw e t))
        | inr t ↦ rw t (subst (λ x. Follows a a.state (clamped x)) at (goes_on (rw e t)))
      ]
  advance-Follows decay a e =
      let level = ops.sub a.current_level (decay_decrement ops a) in
      let at : ramp a ≡ level = rw e refl in
      elim (Bool-cases (ops.le level (ops.add a.sustain_level (ops.decimal 1 2)))) [
        | inl t ↦ rw t (settles e (rw e t))
        | inr t ↦ rw t (subst (λ x. Follows a a.state (clamped x)) at (goes_on (rw e t)))
      ]
  advance-Follows release a e =
      let level = ops.sub a.current_level (release_decrement ops a) in
      let at : ramp a ≡ level = rw e refl in
      elim (Bool-cases (ops.le level (ops.decimal 1 7))) [
        | inl t ↦ rw t (ends e (rw e t))
        | inr t ↦ rw t (subst (λ x. Follows a a.state (clamped x)) at (goes_on (rw e t)))
      ]

  -- A sample moves the level along the ramp of the state, which stays until the ramp is done: an
  -- attack within 0.01 of 1, a decay within 0.01 above the sustain level, a release at 1e-7. Then
  -- the next state, decay, sustain or idle, begins at the end of the ramp. Levels are clamped.
  pub process-Follows : (a : Adsr F) → Follows a (process ops a).state (process ops a).current_level
  unfolding process
  process-Follows a = advance-Follows a.state a refl
