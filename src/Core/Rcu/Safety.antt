-- ===== src/Core/Rcu/Safety.antt =====
-- What readers may rely on in every reachable state, without store buffers.
use tanh_lib.Base.{
  ℕ, ◌<◌, ◌≡◌, ◌⊎◌, inl, inr, refl, Bool, true, false, Option, none, [], ◌∷◌, arith, length, update,
  if◌then◌else◌, leb, ltb,
}
use tanh_lib.Core.Rcu.{
  Retired, generation, visit, keep_newer, delete_older, delete_all, idle, loaded, locked, reading,
  released, checking, waiting, reaping, Rcu, init, is_member, Step, register, end_thread,
  load_period, store_generation, load_data, unlock, load_data_early, drain_store, begin_update,
  publish, retire, begin_cleanup, visit_node, delete_retired, check_emergency, begin_synchronize,
  pass_node, delete_everything, end_synchronize, reap, Reach, start, later,
}
use tanh_lib.Core.Rcu.Inv.{IsLive, Inv}
use tanh_lib.Core.Rcu.Reading.{now-IsReading, move-Inv, at}
use tanh_lib.Core.Rcu.Publishing.{
  register-Inv, end_thread-Inv, begin_update-Inv, publish-Inv, retire-Inv,
}
use tanh_lib.Core.Rcu.Reclaiming.{
  begin_cleanup-Inv, visit_node-Inv, check_emergency-Inv, settle-Inv, pass_node-Inv,
}
use tanh_lib.Core.Rcu.Deleting.{delete_retired-Inv, delete_everything-Inv, reap-Inv}

check-Inv :
    {T : Type 0} {s : Rcu T}
    → Inv s
    → s.writer ≡ checking
    → (b : Bool)
    → Inv (record s {
      shared = record s.shared {
        writer = if b then waiting true s.nodes s.grace_period else reaping;
      };
    })
check-Inv inv e true = check_emergency-Inv inv true checking e (λ v g. g)
check-Inv inv e false = (settle-Inv inv checking e (λ v g. g)).0

-- Every step keeps the invariant.
pub Step-Inv : {T : Type 0} {s t : Rcu T} → Step false s t → Inv s → Inv t
Step-Inv (register i _ _ _ _) inv = register-Inv inv i
Step-Inv (end_thread i e) inv = end_thread-Inv inv i e
Step-Inv {s = s} (load_period i e m d) inv =
    move-Inv inv i (loaded s.grace_period) ((m, d), inv.period_pos, omega arith)
Step-Inv (store_generation i {p} e) inv = move-Inv inv i (locked p) (at inv i e)
Step-Inv {s = s} (load_data i {p} e) inv =
    move-Inv inv i (reading p s.data_ptr) (now-IsReading inv i p (at inv i e))
Step-Inv (unlock i e) inv = move-Inv inv i idle tt
Step-Inv (load_data_early b i e) inv = absurd (cc)
Step-Inv (drain_store i e) inv = absurd (at inv i e)
Step-Inv (begin_update e) inv = begin_update-Inv inv e
Step-Inv (publish {old} x y f e _ _) inv = publish-Inv inv old y e
Step-Inv (retire {old} e) inv = retire-Inv inv old e
Step-Inv (begin_cleanup {k} e) inv = begin_cleanup-Inv inv k e
Step-Inv (visit_node {k} {i} {rest} {lo} e) inv = visit_node-Inv inv k i rest lo e
Step-Inv (delete_retired {k} {lo} e) inv = delete_retired-Inv inv k lo e
Step-Inv {s = s} (check_emergency e) inv =
    check-Inv inv e (leb s.emergency_threshold (length s.retired))
Step-Inv (begin_synchronize e) inv = check_emergency-Inv inv false released e (λ v g. g)
Step-Inv (pass_node {b} {i} {rest} {p} e pass) inv = pass_node-Inv inv b i rest p e pass
Step-Inv (delete_everything {p} e) inv = delete_everything-Inv inv p e
Step-Inv (end_synchronize {p} e) inv = (settle-Inv inv (waiting false [] p) e (λ v g. g)).1
Step-Inv (reap e) inv = reap-Inv inv e

init-Inv : {T : Type 0} (x : T) (a b : ℕ) → Inv (init x a b)
init-Inv x a b = record {
  period_pos = omega arith;
  cur_allocated = omega arith;
  cur_live = (x, refl);
  entries = tt;
  writers = tt;
  readers = λ i. tt;
}

pub Reach-Inv : {T : Type 0} (x : T) (a b : ℕ) {s : Rcu T} → Reach false (init x a b) s → Inv s
Reach-Inv x a b start = init-Inv x a b
Reach-Inv x a b (later r st) = Step-Inv st (Reach-Inv x a b r)

-- In every reachable state a version that a thread reads has not been deleted.
pub read_safety :
    {T : Type 0} (x : T) (a b : ℕ) {s : Rcu T} (i p v : ℕ)
    → Reach false (init x a b) s
    → s.reader i ≡ reading p v
    → IsLive s.heap v
read_safety x a b i p v r e = (at (Reach-Inv x a b r) i e).live

-- The clean-ups change a version only by deleting it.
delete_older-cases :
    {T : Type 0} (lo v : ℕ) (l : Retired) (heap : ℕ → Option T)
    → (delete_older lo l heap v ≡ heap v) ⊎ (delete_older lo l heap v ≡ none)
unfolding delete_older
delete_older-cases lo v [] heap = inl refl
delete_older-cases lo v ((w, r) ∷ l) heap =
    let rest = delete_older-cases lo v l (if ltb r lo then update heap w none else heap) in
    ground arith

delete_all-cases :
    {T : Type 0} (v : ℕ) (l : Retired) (heap : ℕ → Option T)
    → (delete_all l heap v ≡ heap v) ⊎ (delete_all l heap v ≡ none)
unfolding delete_all
delete_all-cases v [] heap = inl refl
delete_all-cases v ((w, r) ∷ l) heap =
    let rest = delete_all-cases v l (update heap w none) in ground arith

Step-heap :
    {T : Type 0} {s t : Rcu T} (v : ℕ)
    → Step false s t
    → v < s.next
    → (t.heap v ≡ s.heap v) ⊎ (t.heap v ≡ none)
Step-heap {s = s} v (publish {old} x y f e _ _) lt = inl (ground arith)
Step-heap {s = s} v (delete_retired {k} {lo} e) lt = delete_older-cases lo v s.retired s.heap
Step-heap {s = s} v (delete_everything e) lt = delete_all-cases v s.retired s.heap
Step-heap v (register i _ _ _ _) lt = inl refl
Step-heap v _ lt = inl refl

-- While a thread reads a version, no step of any thread changes what it reads.
pub read_stable :
    {T : Type 0} (x : T) (a b : ℕ) {s t : Rcu T} (i p v : ℕ)
    → Reach false (init x a b) s
    → Step false s t
    → s.reader i ≡ reading p v
    → t.reader i ≡ reading p v
    → t.heap v ≡ s.heap v
read_stable x a b i p v r st e f =
    let (y, live) = read_safety x a b i p v (later r st) f in
    elim (Step-heap v st (at (Reach-Inv x a b r) i e).allocated) [ inl same ↦ same | inr gone ↦ cc ]

-- With store buffers a reader can be left with a deleted version: whatever the data, the
-- thresholds, the thread and the update, if the thread's load of the pointer overtakes its
-- store of the period.
pub buffered_read_is_unsafe :
    {T : Type 0} (x : T) (a b i : ℕ) (f : T → T)
    → (s : Rcu T) × (p : ℕ) × (v : ℕ) × Reach true (init x a b) s
      × (s.reader i ≡ reading p v)
      × (s.heap v ≡ none)
unfolding is_member visit generation keep_newer delete_older
buffered_read_is_unsafe x a b i f =
    let r₀ : Reach true (init x a b) (init x a b) = start in
    let r₁ = later r₀ (register i refl refl refl refl) in
    let r₂ = later r₁ (load_period i refl (ground arith) refl) in
    let r₃ = later r₂ (load_data_early refl i {p = 1} (ground arith)) in
    let r₄ = later r₃ (begin_update refl) in
    let r₅ = later r₄ (publish x (f x) f refl refl refl) in
    let r₆ = later r₅ (retire refl) in
    let r₇ = later r₆ (begin_cleanup refl) in
    let r₈ = later r₇ (visit_node refl) in
    let r₉ = later r₈ (delete_retired refl) in
    (_, 1, 0, later r₉ (drain_store i {p = 1} {v = 0} (ground arith)), ground arith, ground arith)
