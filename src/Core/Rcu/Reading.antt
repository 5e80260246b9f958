-- ===== src/Core/Rcu/Reading.antt =====
-- A reader's step keeps the invariant.
use tanh_lib.Base.{
  ℕ, ◌≤◌, ◌<◌, ◌≡◌, inl, inr, refl, sym, subst, [], ◌∷◌, update, if◌then◌else◌, ◌==◌, Bool-cases,
  ==_iff,
}
use tanh_lib.Core.Rcu.{
  Retired, ReaderPc, WriterPc, released, copied, published, cleaning, scanning, checking, waiting,
  reaping, Rcu,
}
use tanh_lib.Core.Rcu.Inv.{AllRetired, AllNewer, IsSeen, IsEnrolled, IsReading, ReaderInv, Inv}

-- An entry never names the current version.
pub AllNewer-cur :
    (period p cur next : ℕ) (l : Retired) → AllRetired period cur next l → AllNewer p cur l
AllNewer-cur period p cur next [] h = tt
AllNewer-cur period p cur next ((w, r) ∷ l) (_, other, _, rest) =
    (λ e. absurd (other (sym e)), AllNewer-cur period p cur next l rest)

IsSeen-cur : (w : WriterPc) (cur i p : ℕ) → IsSeen w cur i p cur
IsSeen-cur (scanning _ _ _) cur i p = inr (inr refl)
IsSeen-cur (waiting _ _ _) cur i p = inr refl
IsSeen-cur released cur i p = tt
IsSeen-cur (copied _) cur i p = tt
IsSeen-cur (published _) cur i p = tt
IsSeen-cur (cleaning _) cur i p = tt
IsSeen-cur checking cur i p = tt
IsSeen-cur reaping cur i p = tt

module _ {T : Type 0} {s : Rcu T} (inv : Inv s) where
  -- What a reader knows as soon as it has loaded the pointer.
  pub now-IsReading :
      (i p : ℕ)
      → IsEnrolled s.shared i × (0 < p) × (p ≤ s.grace_period)
      → IsReading s.shared i p s.data_ptr
  now-IsReading i p (enrolled, pos, le) = record {
    enrolled = enrolled;
    positive = pos;
    started = le;
    allocated = inv.cur_allocated;
    live = inv.cur_live;
    newer = AllNewer-cur s.grace_period p s.data_ptr s.next s.retired inv.entries;
    held = inl refl;
    seen = IsSeen-cur s.writer s.data_ptr i p;
  }

  -- Only thread `i` moves.
  pub move-Inv :
      (i : ℕ) (pc : ReaderPc)
      → ReaderInv s.shared i pc
      → Inv (record s { reader = update s.reader i pc })
  move-Inv i pc h = record {
    period_pos = inv.period_pos;
    cur_allocated = inv.cur_allocated;
    cur_live = inv.cur_live;
    entries = inv.entries;
    writers = inv.writers;
    readers = λ j. elim (Bool-cases (i == j)) [
      | inl e ↦
          subst (λ b. ReaderInv s.shared j (if b then pc else s.reader j)) (sym e)
            (subst (λ k. ReaderInv s.shared k pc) ((==_iff i j).0 e) h)
      | inr e ↦
          subst (λ b. ReaderInv s.shared j (if b then pc else s.reader j)) (sym e) (inv.readers j)
    ];
  }

  -- What the invariant says of a reader whose place is known.
  pub at : (i : ℕ) {pc : ReaderPc} → s.reader i ≡ pc → ReaderInv s.shared i pc
  at i e = subst (ReaderInv s.shared i) e (inv.readers i)
