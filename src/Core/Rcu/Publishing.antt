-- ===== src/Core/Rcu/Publishing.antt =====
-- The steps of `register_reader_thread`, of a thread's end and of `update` up to the first
-- clean-up keep the invariant.
use tanh_lib.Base.{
  ℕ, ◌+◌, ◌≤◌, ◌<◌, ◌≡◌, ◌≢◌, ◌⊎◌, inl, inr, refl, sym, ap, ◌∙◌, subst, true, false, some, ◌∷◌,
  arith, update, if◌then◌else◌, ◌==◌, Bool-cases, ==_iff,
}
use tanh_lib.Core.Rcu.{
  ReaderPc, idle, loaded, locked, reading, pending, WriterPc, released, copied, published, cleaning,
  Shared, Rcu, tier1,
}
use tanh_lib.Core.Rcu.Inv.{IsLive, IsUnretired, IsEnrolled, IsReading, ReaderInv, WriterInv, Inv}
use tanh_lib.Core.Rcu.Writing.{AllRetired-mono, is_member-cons}

module _ {T : Type 0} {s : Rcu T} (inv : Inv s) where
  -- A change of the shared state keeps what readers know if it keeps those enrolled that are
  -- not idle, and what they know while they read.
  pub keep-readers :
      (t : Shared T)
      → s.grace_period ≤ t.grace_period
      → ((i : ℕ) → s.reader i ≢ idle → IsEnrolled s.shared i → IsEnrolled t i)
      → ((i p v : ℕ) → s.reader i ≡ reading p v → IsReading s.shared i p v → IsReading t i p v)
      → (i : ℕ) → ReaderInv t i (s.reader i)
  keep-readers t le enrolled known i = go (s.reader i) refl (inv.readers i)
    where
      go : (pc : ReaderPc) → s.reader i ≡ pc → ReaderInv s.shared i pc → ReaderInv t i pc
      go idle e h = tt
      go (loaded p) e (a, b, c) = (enrolled i (λ f. cc) a, b, omega arith)
      go (locked p) e (a, b, c) = (enrolled i (λ f. cc) a, b, omega arith)
      go (reading p v) e h = known i p v e h
      go (pending p v) e h = h

  -- What a reader holds, where the writer's place is known.
  pub holds-at :
      (i p v : ℕ) {w : WriterPc}
      → s.writer ≡ w
      → IsReading s.shared i p v
      → (v ≡ s.data_ptr) ⊎ IsUnretired w v ⊎ (p < s.grace_period)
  holds-at i p v e h =
      subst (λ w. (v ≡ s.data_ptr) ⊎ IsUnretired w v ⊎ (p < s.grace_period)) e h.held

  pub register-Inv : (i : ℕ) → Inv (record s { shared = record s.shared { nodes = i ∷ s.nodes } })
  register-Inv i =
      let t : Shared T = record s.shared { nodes = i ∷ s.nodes } in
      record {
        period_pos = inv.period_pos;
        cur_allocated = inv.cur_allocated;
        cur_live = inv.cur_live;
        entries = inv.entries;
        writers = inv.writers;
        readers =
            keep-readers t (omega arith) (λ j _ (a, b). (is_member-cons j i s.nodes a, b))
              λ j p v _ h. record {
                enrolled = (is_member-cons j i s.nodes h.enrolled.0, h.enrolled.1);
                positive = h.positive;
                started = h.started;
                allocated = h.allocated;
                live = h.live;
                newer = h.newer;
                held = h.held;
                seen = h.seen;
              };
      }

  pub end_thread-Inv :
      (i : ℕ)
      → s.reader i ≡ idle
      → Inv (record s { shared = record s.shared { dead = update s.dead i true } })
  end_thread-Inv i e =
      let t : Shared T = record s.shared { dead = update s.dead i true } in
      let alive : (j : ℕ) → s.reader j ≢ idle → IsEnrolled s.shared j → IsEnrolled t j =
        λ j busy (a, b). elim (Bool-cases (i == j)) [
          | inl f ↦ absurd (busy (sym (ap s.reader ((==_iff i j).0 f)) ∙ e))
          | inr f ↦ (a, subst (λ c. (if c then true else s.dead j) ≡ false) (sym f) b)
        ] in
      record {
        period_pos = inv.period_pos;
        cur_allocated = inv.cur_allocated;
        cur_live = inv.cur_live;
        entries = inv.entries;
        writers = inv.writers;
        readers = keep-readers t (omega arith) alive λ j p v f h. record {
          enrolled = alive j (λ g. cc) h.enrolled;
          positive = h.positive;
          started = h.started;
          allocated = h.allocated;
          live = h.live;
          newer = h.newer;
          held = h.held;
          seen = h.seen;
        };
      }

  pub begin_update-Inv :
      s.writer ≡ released
      → Inv (record s { shared = record s.shared { writer = copied s.data_ptr } })
  begin_update-Inv e =
      let t : Shared T = record s.shared { writer = copied s.data_ptr } in
      record {
        period_pos = inv.period_pos;
        cur_allocated = inv.cur_allocated;
        cur_live = inv.cur_live;
        entries = inv.entries;
        writers = refl;
        readers =
            keep-readers t (omega arith) (λ j _ h. h)
              λ j p v _ h. record {
                enrolled = h.enrolled;
                positive = h.positive;
                started = h.started;
                allocated = h.allocated;
                live = h.live;
                newer = h.newer;
                held = holds-at j p v e h;
                seen = tt;
              };
      }

  update-IsLive :
      (y : T) (v : ℕ) → v < s.next → IsLive s.heap v → IsLive (update s.heap s.next (some y)) v
  update-IsLive y v lt (x, e) = (x, ground arith)

  pub publish-Inv :
      (old : ℕ) (y : T)
      → s.writer ≡ copied old
      → Inv (record s {
        shared = record s.shared {
          heap = update s.heap s.next (some y);
          next = s.next + 1;
          data_ptr = s.next;
          writer = published old;
        };
      })
  publish-Inv old y e =
      let t : Shared T = record s.shared {
        heap = update s.heap s.next (some y);
        next = s.next + 1;
        data_ptr = s.next;
        writer = published old;
      } in
      let cur : old ≡ s.data_ptr = subst (WriterInv s.shared) e inv.writers in
      record {
        period_pos = inv.period_pos;
        cur_allocated = omega arith;
        cur_live = (y, ground arith);
        entries =
            AllRetired-mono s.grace_period s.grace_period s.data_ptr s.next s.next (s.next + 1)
              s.retired (omega arith) (omega arith) (inr (omega arith)) inv.entries;
        writers = omega (arith, inv.cur_allocated);
        readers =
            keep-readers t (omega arith) (λ j _ h. h)
              λ j p v _ h. record {
                enrolled = h.enrolled;
                positive = h.positive;
                started = h.started;
                allocated = omega (arith, h.allocated);
                live = update-IsLive y v h.allocated h.live;
                newer = h.newer;
                held = elim (holds-at j p v e h) [
                  | inl g ↦ inr (inl (g ∙ sym cur))
                  | inr (inl g) ↦ absurd g
                  | inr (inr g) ↦ inr (inr g)
                ];
                seen = tt;
              };
      }

  pub retire-Inv :
      (old : ℕ)
      → s.writer ≡ published old
      → Inv (record s {
        shared = record s.shared {
          grace_period = s.grace_period + 1;
          retired = (old, s.grace_period) ∷ s.retired;
          writer = cleaning tier1;
        };
      })
  retire-Inv old e =
      let t : Shared T = record s.shared {
        grace_period = s.grace_period + 1;
        retired = (old, s.grace_period) ∷ s.retired;
        writer = cleaning tier1;
      } in
      let (other, known) = subst (WriterInv s.shared) e inv.writers in
      record {
        period_pos = omega arith;
        cur_allocated = inv.cur_allocated;
        cur_live = inv.cur_live;
        entries = (
          omega arith,
          other,
          known,
          AllRetired-mono s.grace_period (s.grace_period + 1) s.data_ptr s.data_ptr s.next s.next
              s.retired (omega arith) (omega arith) (inl refl) inv.entries,
        );
        writers = tt;
        readers =
            keep-readers t (omega arith) (λ j _ h. h)
              λ j p v _ h. record {
                enrolled = h.enrolled;
                positive = h.positive;
                started = omega (arith, h.started);
                allocated = h.allocated;
                live = h.live;
                newer = (λ _. h.started, h.newer);
                held = elim (holds-at j p v e h) [
                  | inl g ↦ inl g
                  | inr g ↦ inr (inr (omega (arith, h.started)))
                ];
                seen = tt;
              };
      }
