-- ===== src/Core/Rcu/Tests.antt =====
-- One thread and one writer, step by step.
use tanh_lib.Base.{ℕ, ◌+◌, ◌≡◌, refl, true, false, none}
use tanh_lib.Core.Rcu.{
  Rcu, reading, init, is_member, Reach, start, later, register, load_period, store_generation,
  load_data, begin_update, publish, retire, begin_cleanup, visit_node, delete_retired, generation,
  visit, delete_older,
}
use tanh_lib.Core.Rcu.Inv.{IsLive}
use tanh_lib.Core.Rcu.Safety.{read_safety, read_stable, buffered_read_is_unsafe}

-- Thread 0 reads version 0 while a writer publishes version 1 and cleans up.
abbrev overlapped : (s : Rcu ℕ) × Reach false (init 5 8 32) s
unfolding is_member
overlapped =
    let r₀ : Reach false (init 5 8 32) (init 5 8 32) = start in
    let r₁ = later r₀ (register 0 refl refl refl refl) in
    let r₂ = later r₁ (load_period 0 refl refl refl) in
    let r₃ = later r₂ (store_generation 0 {p = 1} refl) in
    let r₄ = later r₃ (load_data 0 {p = 1} refl) in
    let r₅ = later r₄ (begin_update refl) in
    let r₆ = later r₅ (publish 5 6 (λ x. x + 1) refl refl refl) in
    let r₇ = later r₆ (retire refl) in
    let r₈ = later r₇ (begin_cleanup refl) in (_, later r₈ (visit_node refl))

read_safety_example : IsLive overlapped.0.heap 0
unfolding is_member
read_safety_example = read_safety 5 8 32 0 1 0 overlapped.1 refl

read_stable_example :
    delete_older (visit false (generation (reading 1 0)) 2) overlapped.0.retired overlapped.0.heap 0
    ≡ overlapped.0.heap 0
unfolding is_member
read_stable_example = read_stable 5 8 32 0 1 0 overlapped.1 (delete_retired refl) refl refl

buffered_read_is_unsafe_example :
    (s : Rcu ℕ) × (p : ℕ) × (v : ℕ) × Reach true (init 5 8 32) s
    × (s.reader 0 ≡ reading p v)
    × (s.heap v ≡ none)
buffered_read_is_unsafe_example = buffered_read_is_unsafe 5 8 32 0 (λ x. x + 1)
