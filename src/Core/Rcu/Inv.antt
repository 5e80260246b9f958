-- ===== src/Core/Rcu/Inv.antt =====
-- The invariant of `Rcu` for sequentially consistent threads: what a reader holds is current,
-- about to be retired, or retired in a period no earlier than the one the reader announced.
use tanh_lib.Base.{ℕ, ◌≤◌, ◌<◌, ◌≡◌, ◌≢◌, ◌⊎◌, true, false, Option, some, [], ◌∷◌}
use tanh_lib.Core.Rcu.{
  Retired, ReaderPc, idle, loaded, locked, reading, pending, WriterPc, copied, published, scanning,
  waiting, Shared, Rcu, is_member,
}

abbrev pub IsLive : {T : Type 0} → (ℕ → Option T) → ℕ → Type 0
IsLive {T} heap v = (x : T) × (heap v ≡ some x)

-- Each entry was retired in an earlier period, and is not the current version.
abbrev pub AllRetired : ℕ → ℕ → ℕ → Retired → Type 0
AllRetired period cur next [] = Unit {0}
AllRetired period cur next ((w, r) ∷ l) =
    (r < period) × (w ≢ cur) × (w < next) × AllRetired period cur next l

-- An entry with version `v` was retired in period `p` or later.
abbrev pub AllNewer : ℕ → ℕ → Retired → Type 0
AllNewer p v [] = Unit {0}
AllNewer p v ((w, r) ∷ l) = (v ≡ w → p ≤ r) × AllNewer p v l

-- The version that the writer has unpublished and not yet retired.
abbrev pub IsUnretired : WriterPc → ℕ → Type 0
IsUnretired (published old) v = v ≡ old
IsUnretired _ v = ⊥

-- What the writer still has to learn of, or has learnt of, a reader `i` of `v` in period `p`.
abbrev pub IsSeen : WriterPc → ℕ → ℕ → ℕ → ℕ → Type 0
IsSeen (scanning _ rest lo) cur i p v = (is_member i rest ≡ true) ⊎ (lo ≤ p) ⊎ (v ≡ cur)
IsSeen (waiting _ rest _) cur i p v = (is_member i rest ≡ true) ⊎ (v ≡ cur)
IsSeen _ cur i p v = Unit {0}

abbrev pub IsEnrolled : {T : Type 0} → Shared T → ℕ → Type 0
IsEnrolled s i = (is_member i s.nodes ≡ true) × (s.dead i ≡ false)

pub record IsReading {T : Type 0} (s : Shared T) (i p v : ℕ) : Type 0 where
  pub enrolled : IsEnrolled s i
  pub positive : 0 < p
  pub started : p ≤ s.grace_period
  pub allocated : v < s.next
  pub live : IsLive s.heap v
  pub newer : AllNewer p v s.retired
  pub held : (v ≡ s.data_ptr) ⊎ IsUnretired s.writer v ⊎ (p < s.grace_period)
  pub seen : IsSeen s.writer s.data_ptr i p v

abbrev pub ReaderInv : {T : Type 0} → Shared T → ℕ → ReaderPc → Type 0
ReaderInv s i idle = Unit {0}
ReaderInv s i (loaded p) = IsEnrolled s i × (0 < p) × (p ≤ s.grace_period)
ReaderInv s i (locked p) = IsEnrolled s i × (0 < p) × (p ≤ s.grace_period)
ReaderInv s i (reading p v) = IsReading s i p v
ReaderInv s i (pending p v) = ⊥

abbrev pub WriterInv : {T : Type 0} → Shared T → WriterPc → Type 0
WriterInv s (copied old) = old ≡ s.data_ptr
WriterInv s (published old) = (old ≢ s.data_ptr) × (old < s.next)
WriterInv s (waiting _ _ p) = p ≡ s.grace_period
WriterInv s _ = Unit {0}

pub record Inv {T : Type 0} (s : Rcu T) : Type 0 where
  pub period_pos : 0 < s.grace_period
  pub cur_allocated : s.data_ptr < s.next
  pub cur_live : IsLive s.heap s.data_ptr
  pub entries : AllRetired s.grace_period s.data_ptr s.next s.retired
  pub writers : WriterInv s.shared s.writer
  pub readers : (i : ℕ) → ReaderInv s.shared i (s.reader i)
