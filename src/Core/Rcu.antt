-- ===== src/Core/Rcu.antt =====
-- include/tanh/core/threading/RCU.h: readers that never block, one writer at a time (the mutex)
-- and deferred reclamation by grace periods. One step is one access to shared memory, and any
-- thread that can may take the next one.
pub mod Inv
pub mod Reading
pub mod Writing
pub mod Publishing
pub mod Reclaiming
pub mod Deleting
pub mod Safety
mod Tests
use tanh_lib.Base.{
  ℕ, zero, suc, ◌+◌, ◌/◌, ◌<◌, ◌≡◌, ◌≢◌, Bool, true, false, not, ◌||◌, ◌&&◌, if◌then◌else◌, ltb,
  leb, ◌==◌, Option, none, some, List, [], ◌∷◌, length, update,
}

-- A version of the data is named by a number; it is in `heap` until it is deleted. `retired` is
-- `m_retired_list`, a version and the grace period in which it was retired.
abbrev pub Retired : Type 0
Retired = List (ℕ × ℕ)

-- A thread with respect to `rcu_read_lock`, the load of `m_data_ptr` and `rcu_read_unlock`.
pub data ReaderPc : Type 0 where
  idle : ReaderPc
  loaded : ℕ → ReaderPc  -- has read `m_grace_period`
  locked : ℕ → ReaderPc  -- has stored it in `m_read_generation`
  reading : ℕ → ℕ → ReaderPc  -- the period and the version that it holds
  pending : ℕ → ℕ → ReaderPc  -- the same, with the store still in its store buffer

-- What `m_read_generation` of the thread's node holds, as other threads see it.
pub generation : ReaderPc → ℕ
generation idle = 0
generation (loaded p) = 0
generation (locked p) = p
generation (reading p v) = p
generation (pending p v) = 0

-- Which call of `cleanup_safe_versions` in `update` is running: the first, or the `i`-th of the
-- loop of three.
pub data Tier : Type 0 where
  tier1 : Tier
  tier2 : ℕ → Tier

-- The writer, which holds `m_writer_mutex` unless it is `released`.
pub data WriterPc : Type 0 where
  released : WriterPc
  copied : ℕ → WriterPc  -- `old_data`
  published : ℕ → WriterPc  -- the new version is in `m_data_ptr`, `old_data` not yet retired
  cleaning : Tier → WriterPc  -- about to call `cleanup_safe_versions`
  scanning : Tier → List ℕ → ℕ → WriterPc  -- the nodes left to visit, `min_active_period`
  checking : WriterPc  -- about to test for the third tier
  waiting : Bool → List ℕ → ℕ → WriterPc  -- in `synchronize_rcu`, called from `update` if `true`
  reaping : WriterPc  -- about to call `cleanup_dead_nodes`

-- What all threads see.
pub record Shared (T : Type 0) : Type 0 where
  pub heap : ℕ → Option T
  pub next : ℕ  -- the first version not yet allocated
  pub data_ptr : ℕ
  pub grace_period : ℕ
  pub retired : Retired
  pub cleanup_threshold : ℕ
  pub emergency_threshold : ℕ
  pub nodes : List ℕ  -- the threads whose nodes are in the list of `m_reader_head`
  pub dead : ℕ → Bool
  pub writer : WriterPc

pub record Rcu (T : Type 0) : Type 0 where
  pub shared : Shared T
  pub open shared use *
  pub reader : ℕ → ReaderPc

-- The loop of `cleanup_safe_versions` at one node.
pub visit : Bool → ℕ → ℕ → ℕ
visit is_dead reader_period lo =
    if is_dead
    then lo
    else (if reader_period == 0 then lo else (if ltb reader_period lo then reader_period else lo))

-- The last loop of `cleanup_safe_versions`: what stays retired, and the heap without the rest.
pub keep_newer : ℕ → Retired → Retired
keep_newer lo [] = []
keep_newer lo ((v, r) ∷ l) = let rest = keep_newer lo l in if ltb r lo then rest else (v, r) ∷ rest

pub delete_older : {T : Type 0} → ℕ → Retired → (ℕ → Option T) → ℕ → Option T
delete_older lo [] heap = heap
delete_older lo ((v, r) ∷ l) heap =
    delete_older lo l (if ltb r lo then update heap v none else heap)

-- `for (auto& retired : m_retired_list) delete retired.m_ptr`
pub delete_all : {T : Type 0} → Retired → (ℕ → Option T) → ℕ → Option T
delete_all [] heap = heap
delete_all ((v, r) ∷ l) heap = delete_all l (update heap v none)

-- The head of the loop of the second tier, before round `i`.
pub second_tier : Retired → ℕ → WriterPc
second_tier [] i = checking
second_tier (x ∷ l) i = if ltb i 3 then cleaning (tier2 i) else checking

-- Where `update` goes on after a call of `cleanup_safe_versions`, which left `l`.
pub after_cleanup : ℕ → Tier → Retired → WriterPc
unfolding second_tier
after_cleanup threshold tier1 l = if leb threshold (length l) then second_tier l 0 else checking
after_cleanup threshold (tier2 i) l =
    if ltb (length l) (threshold / 2) then checking else second_tier l (i + 1)

-- The test of `synchronize_rcu` that ends the wait for one node.
pub may_pass : Bool → ℕ → ℕ → Bool
may_pass is_dead reader_period current =
    is_dead || ((reader_period == 0) || (reader_period == current))

-- `cleanup_dead_nodes`
pub live_nodes : (ℕ → Bool) → List ℕ → List ℕ
live_nodes dead [] = []
live_nodes dead (i ∷ l) = let rest = live_nodes dead l in if dead i then rest else i ∷ rest

-- `RCU(initial_data, cleanup_threshold, emergency_threshold)`
abbrev pub init : {T : Type 0} → T → ℕ → ℕ → Rcu T
init x cleanup emergency = record {
  shared = record {
    heap = update (λ _. none) 0 (some x);
    next = 1;
    data_ptr = 0;
    grace_period = 1;
    retired = [];
    cleanup_threshold = cleanup;
    emergency_threshold = emergency;
    nodes = [];
    dead = λ _. false;
    writer = released;
  };
  reader = λ _. idle;
}

pub is_member : ℕ → List ℕ → Bool
is_member i [] = false
is_member i (j ∷ l) = (i == j) || is_member i l

-- The steps. With `buffered` a store may become visible to other threads after a later load of
-- its own thread, which the orders `release` and `acquire` permit.
pub data Step {T : Type 0} (buffered : Bool) (s : Rcu T) : Rcu T → Type 0 where
  -- `register_reader_thread`, under the mutex
  register :
      (i : ℕ)
      → s.writer ≡ released
      → s.reader i ≡ idle
      → is_member i s.nodes ≡ false
      → s.dead i ≡ false
      → Step buffered s (record s { shared = record s.shared { nodes = i ∷ s.nodes } })
  -- the thread ends: `~ThreadRCUState`
  end_thread :
      (i : ℕ)
      → s.reader i ≡ idle
      → Step buffered s (record s { shared = record s.shared { dead = update s.dead i true } })
  load_period :
      (i : ℕ)
      → s.reader i ≡ idle
      → is_member i s.nodes ≡ true
      → s.dead i ≡ false
      → Step buffered s (record s { reader = update s.reader i (loaded s.grace_period) })
  store_generation :
      (i : ℕ) {p : ℕ}
      → s.reader i ≡ loaded p
      → Step buffered s (record s { reader = update s.reader i (locked p) })
  load_data :
      (i : ℕ) {p : ℕ}
      → s.reader i ≡ locked p
      → Step buffered s (record s { reader = update s.reader i (reading p s.data_ptr) })
  unlock :
      (i : ℕ) {p v : ℕ}
      → s.reader i ≡ reading p v
      → Step buffered s (record s { reader = update s.reader i idle })
  load_data_early :
      buffered ≡ true
      → (i : ℕ) {p : ℕ} → s.reader i ≡ loaded p
      → Step buffered s (record s { reader = update s.reader i (pending p s.data_ptr) })
  drain_store :
      (i : ℕ) {p v : ℕ}
      → s.reader i ≡ pending p v
      → Step buffered s (record s { reader = update s.reader i (reading p v) })
  -- `update` takes the mutex and reads `m_data_ptr`
  begin_update :
      s.writer ≡ released
      → Step buffered s (record s { shared = record s.shared { writer = copied s.data_ptr } })
  -- the modified copy is published
  publish :
      {old : ℕ} (x y : T) (f : T → T)
      → s.writer ≡ copied old
      → s.heap old ≡ some x
      → y ≡ f x
      → Step buffered s (record s {
        shared = record s.shared {
          heap = update s.heap s.next (some y);
          next = s.next + 1;
          data_ptr = s.next;
          writer = published old;
        };
      })
  retire :
      {old : ℕ}
      → s.writer ≡ published old
      → Step buffered s (record s {
        shared = record s.shared {
          grace_period = s.grace_period + 1;
          retired = (old, s.grace_period) ∷ s.retired;
          writer = cleaning tier1;
        };
      })
  begin_cleanup :
      {k : Tier}
      → s.writer ≡ cleaning k
      → Step buffered s
          (record s { shared = record s.shared { writer = scanning k s.nodes s.grace_period } })
  visit_node :
      {k : Tier} {i : ℕ} {rest : List ℕ} {lo : ℕ}
      → s.writer ≡ scanning k (i ∷ rest) lo
      → Step buffered s (record s {
        shared = record s.shared {
          writer = scanning k rest (visit (s.dead i) (generation (s.reader i)) lo);
        };
      })
  delete_retired :
      {k : Tier} {lo : ℕ}
      → s.writer ≡ scanning k [] lo
      → Step buffered s (record s {
        shared = record s.shared {
          heap = delete_older lo s.retired s.heap;
          retired = keep_newer lo s.retired;
          writer = after_cleanup s.cleanup_threshold k (keep_newer lo s.retired);
        };
      })
  -- the test of the third tier
  check_emergency :
      s.writer ≡ checking
      → Step buffered s (record s {
        shared = record s.shared {
          writer =
              if leb s.emergency_threshold (length s.retired)
              then waiting true s.nodes s.grace_period
              else reaping;
        };
      })
  -- `synchronize`, called by itself
  begin_synchronize :
      s.writer ≡ released
      → Step buffered s
          (record s { shared = record s.shared { writer = waiting false s.nodes s.grace_period } })
  pass_node :
      {b : Bool} {i : ℕ} {rest : List ℕ} {p : ℕ}
      → s.writer ≡ waiting b (i ∷ rest) p
      → may_pass (s.dead i) (generation (s.reader i)) p ≡ true
      → Step buffered s (record s { shared = record s.shared { writer = waiting b rest p } })
  delete_everything :
      {p : ℕ}
      → s.writer ≡ waiting true [] p
      → Step buffered s (record s {
        shared = record s.shared {
          heap = delete_all s.retired s.heap;
          retired = [];
          writer = reaping;
        };
      })
  end_synchronize :
      {p : ℕ}
      → s.writer ≡ waiting false [] p
      → Step buffered s (record s { shared = record s.shared { writer = released } })
  reap :
      s.writer ≡ reaping
      → Step buffered s (record s {
        shared = record s.shared { nodes = live_nodes s.dead s.nodes; writer = released };
      })

pub data Reach {T : Type 0} (buffered : Bool) (s : Rcu T) : Rcu T → Type 0 where
  start : Reach buffered s s
  later : {t u : Rcu T} → Reach buffered s t → Step buffered t u → Reach buffered s u
