-- ===== src/Core/Rcu/Reclaiming.antt =====
-- The steps of the clean-ups, of `synchronize_rcu` and of `cleanup_dead_nodes` keep the
-- invariant.
use tanh_lib.Base.{
  ℕ, ◌≤◌, ◌<◌, ◌≡◌, ◌⊎◌, inl, inr, refl, sym, ap, subst, Bool, true, false, List, ◌∷◌, arith,
  ==_iff,
}
use tanh_lib.Core.Rcu.{
  reading, WriterPc, released, cleaning, scanning, waiting, reaping, Shared, Rcu, is_member, Tier,
  generation, visit, may_pass,
}
use tanh_lib.Core.Rcu.Inv.{IsSeen, IsUnretired, IsReading, WriterInv, Inv}
use tanh_lib.Core.Rcu.Writing.{visit-le, visit-le_generation, may_pass-eq}
use tanh_lib.Core.Rcu.Publishing.{keep-readers, holds-at}

-- A member of a list is its head or a member of its tail.
is_member-split :
    (i j : ℕ) (l : List ℕ) → is_member i (j ∷ l) ≡ true → (i ≡ j) ⊎ (is_member i l ≡ true)
unfolding is_member
is_member-split i j l h = ground (arith, ==_iff i j)

module _ {T : Type 0} {s : Rcu T} (inv : Inv s) where
  -- Only the writer's place changes, and it has nothing unpublished.
  turn-Inv :
      (w w' : WriterPc)
      → s.writer ≡ w
      → ((v : ℕ) → IsUnretired w v → ⊥)
      → WriterInv (record s.shared { writer = w' }) w'
      → ((i p v : ℕ)
          → s.reader i ≡ reading p v
          → IsReading s.shared i p v
          → IsSeen w' s.data_ptr i p v)
      → Inv (record s { shared = record s.shared { writer = w' } })
  turn-Inv w w' e quiet own seen =
      let t : Shared T = record s.shared { writer = w' } in
      record {
        period_pos = inv.period_pos;
        cur_allocated = inv.cur_allocated;
        cur_live = inv.cur_live;
        entries = inv.entries;
        writers = own;
        readers =
            keep-readers inv t (omega arith) (λ j _ h. h)
              λ j p v f h. record {
                enrolled = h.enrolled;
                positive = h.positive;
                started = h.started;
                allocated = h.allocated;
                live = h.live;
                newer = h.newer;
                held = elim (holds-at inv j p v e h) [
                  | inl g ↦ inl g
                  | inr (inl g) ↦ absurd (quiet v g)
                  | inr (inr g) ↦ inr (inr g)
                ];
                seen = seen j p v f h;
              };
      }

  pub IsSeen-at :
      (i p v : ℕ) {w : WriterPc}
      → s.writer ≡ w
      → IsReading s.shared i p v
      → IsSeen w s.data_ptr i p v
  IsSeen-at i p v e h = subst (λ w. IsSeen w s.data_ptr i p v) e h.seen

  -- The generation that a reading thread shows, with its node alive.
  shown :
      (i p v : ℕ)
      → s.reader i ≡ reading p v
      → IsReading s.shared i p v
      → (s.dead i ≡ false) × (generation (s.reader i) ≡ p) × (0 < p)
  unfolding generation
  shown i p v e h = (h.enrolled.1, ap generation e, h.positive)

  pub begin_cleanup-Inv :
      (k : Tier)
      → s.writer ≡ cleaning k
      → Inv (record s { shared = record s.shared { writer = scanning k s.nodes s.grace_period } })
  begin_cleanup-Inv k e =
      turn-Inv (cleaning k) (scanning k s.nodes s.grace_period) e (λ v g. g) tt
        (λ i p v _ h. inl h.enrolled.0)

  pub visit_node-Inv :
      (k : Tier) (j : ℕ) (rest : List ℕ) (lo : ℕ)
      → s.writer ≡ scanning k (j ∷ rest) lo
      → Inv (record s {
        shared = record s.shared {
          writer = scanning k rest (visit (s.dead j) (generation (s.reader j)) lo);
        };
      })
  visit_node-Inv k j rest lo e =
      turn-Inv (scanning k (j ∷ rest) lo)
        (scanning k rest (visit (s.dead j) (generation (s.reader j)) lo)) e (λ v g. g) tt
        (λ i p v f h. after i p v f h (IsSeen-at i p v e h))
    where
      low : ℕ
      low = visit (s.dead j) (generation (s.reader j)) lo

      after :
          (i p v : ℕ)
          → s.reader i ≡ reading p v
          → IsReading s.shared i p v
          → (is_member i (j ∷ rest) ≡ true) ⊎ (lo ≤ p) ⊎ (v ≡ s.data_ptr)
          → (is_member i rest ≡ true) ⊎ (low ≤ p) ⊎ (v ≡ s.data_ptr)
      after i p v f h (inl m) = elim (is_member-split i j rest m) [
        | inl g ↦ inr (
            inl (
              subst (λ x. visit (s.dead x) (generation (s.reader x)) lo ≤ p) g
                (let (a, b, c) = shown i p v f h in rw (a, b) (visit-le_generation p lo c))))
        | inr g ↦ inl g
      ]
      after i p v f h (inr (inl le)) =
          inr (inl (omega (arith, visit-le (s.dead j) (generation (s.reader j)) lo)))
      after i p v f h (inr (inr c)) = inr (inr c)

  pub check_emergency-Inv :
      (b : Bool) (w : WriterPc)
      → s.writer ≡ w
      → ((v : ℕ) → IsUnretired w v → ⊥)
      → Inv (record s { shared = record s.shared { writer = waiting b s.nodes s.grace_period } })
  check_emergency-Inv b w e quiet =
      turn-Inv w (waiting b s.nodes s.grace_period) e quiet refl (λ i p v _ h. inl h.enrolled.0)

  -- The writer goes to a place that says nothing of the readers.
  pub settle-Inv :
      (w : WriterPc)
      → s.writer ≡ w
      → ((v : ℕ) → IsUnretired w v → ⊥)
      → (Inv (record s { shared = record s.shared { writer = reaping } }))
        × (Inv (record s { shared = record s.shared { writer = released } }))
  settle-Inv w e quiet = (
    turn-Inv w reaping e quiet tt (λ i p v _ h. tt),
    turn-Inv w released e quiet tt (λ i p v _ h. tt),
  )

  pub pass_node-Inv :
      (b : Bool) (j : ℕ) (rest : List ℕ) (q : ℕ)
      → s.writer ≡ waiting b (j ∷ rest) q
      → may_pass (s.dead j) (generation (s.reader j)) q ≡ true
      → Inv (record s { shared = record s.shared { writer = waiting b rest q } })
  pass_node-Inv b j rest q e pass =
      turn-Inv (waiting b (j ∷ rest) q) (waiting b rest q) e (λ v g. g) now
        (λ i p v f h. after i p v f h (IsSeen-at i p v e h))
    where
      now : q ≡ s.grace_period
      now = subst (WriterInv s.shared) e inv.writers

      after :
          (i p v : ℕ)
          → s.reader i ≡ reading p v
          → IsReading s.shared i p v
          → (is_member i (j ∷ rest) ≡ true) ⊎ (v ≡ s.data_ptr)
          → (is_member i rest ≡ true) ⊎ (v ≡ s.data_ptr)
      after i p v f h (inr c) = inr c
      after i p v f h (inl m) = elim (is_member-split i j rest m) [
        | inr g ↦ inl g
        | inl g ↦
            let (a, b', c) = shown i p v f h in
            let passed : may_pass (s.dead i) (generation (s.reader i)) q ≡ true =
              subst (λ x. may_pass (s.dead x) (generation (s.reader x)) q ≡ true) (sym g) pass in
            let same : p ≡ q = may_pass-eq p q c (rw (a, b') at passed) in
            elim (holds-at inv i p v e h) [
              | inl d ↦ inr d
              | inr (inl d) ↦ absurd d
              | inr (inr d) ↦ absurd (omega (arith, now))
            ]
      ]
