-- ===== src/Core/Rcu/Deleting.antt =====
-- The steps that delete versions, or nodes of threads that have ended, keep the invariant.
use tanh_lib.Base.{ℕ, ◌≡◌, inl, inr, sym, ◌∙◌, subst, true, Option, some, [], arith}
use tanh_lib.Core.Rcu.{
  Retired, released, scanning, waiting, reaping, Shared, Rcu, is_member, Tier, keep_newer,
  delete_older, delete_all, live_nodes, after_cleanup,
}
use tanh_lib.Core.Rcu.Inv.{AllNewer, IsLive, IsSeen, IsEnrolled, IsReading, WriterInv, Inv}
use tanh_lib.Core.Rcu.Reading.{AllNewer-cur}
use tanh_lib.Core.Rcu.Writing.{
  AllNewer-mono, AllRetired-keep_newer, AllNewer-keep_newer, delete_older-eq, delete_all-eq,
  is_member-live_nodes, after_cleanup-cases,
}
use tanh_lib.Core.Rcu.Publishing.{keep-readers, holds-at}
use tanh_lib.Core.Rcu.Reclaiming.{IsSeen-at}

same-IsLive :
    {T : Type 0} {a b : Option T} → b ≡ a → (x : T) × (a ≡ some x) → (x : T) × (b ≡ some x)
same-IsLive e (x, f) = (x, e ∙ f)

module _ {T : Type 0} {s : Rcu T} (inv : Inv s) where
  -- After a clean-up, what the writer has to see of the readers starts anew.
  fresh-IsSeen :
      (n : ℕ) (k : Tier) (l : Retired) (i p v : ℕ) → IsSeen (after_cleanup n k l) s.data_ptr i p v
  fresh-IsSeen n k l i p v = elim (after_cleanup-cases n k l) [
    | inl e ↦ rw e tt
    | inr (k', e) ↦ rw e tt
  ]

  fresh-WriterInv :
      (t : Shared T) (n : ℕ) (k : Tier) (l : Retired) → WriterInv t (after_cleanup n k l)
  fresh-WriterInv t n k l = elim (after_cleanup-cases n k l) [
    | inl e ↦ rw e tt
    | inr (k', e) ↦ rw e tt
  ]

  pub delete_retired-Inv :
      (k : Tier) (lo : ℕ)
      → s.writer ≡ scanning k [] lo
      → Inv (record s {
        shared = record s.shared {
          heap = delete_older lo s.retired s.heap;
          retired = keep_newer lo s.retired;
          writer = after_cleanup s.cleanup_threshold k (keep_newer lo s.retired);
        };
      })
  unfolding is_member
  delete_retired-Inv k lo e =
      let t : Shared T = record s.shared {
        heap = delete_older lo s.retired s.heap;
        retired = keep_newer lo s.retired;
        writer = after_cleanup s.cleanup_threshold k (keep_newer lo s.retired);
      } in
      let cur_newer : AllNewer lo s.data_ptr s.retired =
        AllNewer-cur s.grace_period lo s.data_ptr s.next s.retired inv.entries in
      let spared : (i p v : ℕ) → IsReading s.shared i p v → AllNewer lo v s.retired = λ i p v h.
        elim (IsSeen-at inv i p v e h) [
          | inl m ↦ absurd (cc)
          | inr (inl le) ↦ AllNewer-mono p lo v s.retired le h.newer
          | inr (inr c) ↦ subst (λ x. AllNewer lo x s.retired) (sym c) cur_newer
        ] in
      record {
        period_pos = inv.period_pos;
        cur_allocated = inv.cur_allocated;
        cur_live = same-IsLive (delete_older-eq lo s.retired s.heap cur_newer) inv.cur_live;
        entries = AllRetired-keep_newer s.grace_period s.data_ptr s.next lo s.retired inv.entries;
        writers = fresh-WriterInv t s.cleanup_threshold k (keep_newer lo s.retired);
        readers =
            keep-readers inv t (omega arith) (λ j _ h. h)
              λ i p v f h. record {
                enrolled = h.enrolled;
                positive = h.positive;
                started = h.started;
                allocated = h.allocated;
                live = same-IsLive (delete_older-eq lo s.retired s.heap (spared i p v h)) h.live;
                newer = AllNewer-keep_newer p v lo s.retired h.newer;
                held = elim (holds-at inv i p v e h) [
                  | inl g ↦ inl g
                  | inr (inl g) ↦ absurd g
                  | inr (inr g) ↦ inr (inr g)
                ];
                seen = fresh-IsSeen s.cleanup_threshold k (keep_newer lo s.retired) i p v;
              };
      }

  pub delete_everything-Inv :
      (q : ℕ)
      → s.writer ≡ waiting true [] q
      → Inv (record s {
        shared = record s.shared {
          heap = delete_all s.retired s.heap;
          retired = [];
          writer = reaping;
        };
      })
  unfolding is_member
  delete_everything-Inv q e =
      let t : Shared T = record s.shared {
        heap = delete_all s.retired s.heap;
        retired = [];
        writer = reaping;
      } in
      let cur_kept : delete_all s.retired s.heap s.data_ptr ≡ s.heap s.data_ptr =
        delete_all-eq s.grace_period s.data_ptr s.next s.retired s.heap inv.entries in
      let current : (i p v : ℕ) → IsReading s.shared i p v → v ≡ s.data_ptr =
        λ i p v h. elim (IsSeen-at inv i p v e h) [ inl m ↦ absurd (cc) | inr c ↦ c ] in
      record {
        period_pos = inv.period_pos;
        cur_allocated = inv.cur_allocated;
        cur_live = same-IsLive cur_kept inv.cur_live;
        entries = tt;
        writers = tt;
        readers =
            keep-readers inv t (omega arith) (λ j _ h. h)
              λ i p v f h. record {
                enrolled = h.enrolled;
                positive = h.positive;
                started = h.started;
                allocated = h.allocated;
                live =
                    subst (IsLive (delete_all s.retired s.heap)) (sym (current i p v h))
                      (same-IsLive cur_kept inv.cur_live);
                newer = tt;
                held = inl (current i p v h);
                seen = tt;
              };
      }

  pub reap-Inv :
      s.writer ≡ reaping
      → Inv (record s {
        shared = record s.shared { nodes = live_nodes s.dead s.nodes; writer = released };
      })
  reap-Inv e =
      let t : Shared T = record s.shared { nodes = live_nodes s.dead s.nodes; writer = released } in
      let kept : (i : ℕ) → IsEnrolled s.shared i → IsEnrolled t i =
        λ i (a, b). (is_member-live_nodes s.dead i s.nodes a b, b) in
      record {
        period_pos = inv.period_pos;
        cur_allocated = inv.cur_allocated;
        cur_live = inv.cur_live;
        entries = inv.entries;
        writers = tt;
        readers =
            keep-readers inv t (omega arith) (λ j _ h. kept j h)
              λ i p v f h. record {
                enrolled = kept i h.enrolled;
                positive = h.positive;
                started = h.started;
                allocated = h.allocated;
                live = h.live;
                newer = h.newer;
                held = elim (holds-at inv i p v e h) [
                  | inl g ↦ inl g
                  | inr (inl g) ↦ absurd g
                  | inr (inr g) ↦ inr (inr g)
                ];
                seen = tt;
              };
      }
