-- ===== src/Modulation/Schedule/Edges.antt =====
-- One edge of a node: to a node that is new, on the stack, or in a component.
use tanh_lib.Base.{
  ℕ, ◌<◌, ◌≤◌, ◌≡◌, sym, ap, ◌∙◌, subst, true, leb, List, ◌∷◌, ◌++◌, none, some, min, contains,
  contains-append, concat, append_assoc, arith, leb→le, contains-cases, contains-append_cases,
  Bool-cases, inl, inr, ◌≢◌,
}
use tanh_lib.Modulation.Schedule.{Graph, Tarjan, index_of, lower}
use tanh_lib.Modulation.Schedule.Inv.{here, step, Inv, has_index, Descending-lt}
use tanh_lib.Modulation.Schedule.Loop.{
  Resolved, Finds, Extends, Segment, Loop, Post, stacked-has_index, Resolved-mono, Resolved-extends,
  Finds-extends,
}

lower_self : (v n : ℕ) (s : Tarjan) → (lower v n s).lowlink v ≡ min (s.lowlink v) n
unfolding lower
lower_self v n s = ground arith

lower-other : (v n x : ℕ) (s : Tarjan) → x ≢ v → (lower v n s).lowlink x ≡ s.lowlink x
unfolding lower
lower-other v n x s h = ground arith

-- What has no index is not what has one.
apart : (s : Tarjan) (x v : ℕ) → has_index (s.index x) ≡ true → s.index v ≡ none → x ≢ v
apart s x v h e same = (cc)

pub Extends-trans : {s t r : Tarjan} → Extends s t → Extends t r → Extends s r
Extends-trans e f = record {
  index_kept = λ x h. f.index_kept x (ap has_index (e.index_kept x h) ∙ h) ∙ e.index_kept x h;
  lowlink_kept = λ x h. f.lowlink_kept x (ap has_index (e.index_kept x h) ∙ h) ∙ e.lowlink_kept x h;
  done_kept = λ x h. f.done_kept x (e.done_kept x h);
}

Inv-lower : {adj : Graph} (v n : ℕ) {s : Tarjan} → Inv adj s → Inv adj (lower v n s)
unfolding lower
Inv-lower v n i = record {
  stacked = i.stacked;
  indexed = i.indexed;
  descending = i.descending;
  apart = i.apart;
  nodup = i.nodup;
  ordered = i.ordered;
  linked = i.linked;
}

Extends-lower : {s t : Tarjan} (v n : ℕ) → Extends s t → s.index v ≡ none → Extends s (lower v n t)
unfolding lower
Extends-lower {s} {t} v n e fresh = record {
  index_kept = e.index_kept;
  lowlink_kept = λ x h. lower-other v n x t (apart s x v h fresh) ∙ e.lowlink_kept x h;
  done_kept = e.done_kept;
}

resolved-cons :
    (t : Tarjan) (low w : ℕ) (tried : List ℕ)
    → Resolved t low w
    → ((y : ℕ) → contains y tried ≡ true → Resolved t low y)
    → (y : ℕ) → contains y (w ∷ tried) ≡ true
    → Resolved t low y
resolved-cons t low w tried r rest y h = elim (contains-cases y w tried h) [
  | inl same ↦ subst (Resolved t low) same r
  | inr k ↦ rest y k
]

-- A low link is lowered to `low'`.
Segment-lower :
    {adj : Graph} (t : Tarjan) (v n low low' : ℕ) (seg : List ℕ)
    → low' ≤ low
    → Segment adj t v low seg
    → Segment adj (lower v n t) v low' seg
unfolding lower
Segment-lower t v n low low' seg h g = record {
  reached = g.reached;
  escapes = g.escapes;
  edges = λ x y k e. Resolved-mono t low low' y h (g.edges x y k e);
}

module _ {adj : Graph} {v : ℕ} {s t : Tarjan} {low : ℕ} {tried : List ℕ}
    (l : Loop adj v s t low tried) (fresh : s.index v ≡ none) (w : ℕ)
    (edge : contains w (adj v) ≡ true) where
  -- An edge to a node whose component is complete changes nothing.
  pub Loop-done : contains w (concat t.sccs) ≡ true → Loop adj v s t low (w ∷ tried)
  Loop-done d = record {
    inv = l.inv;
    seg = l.seg;
    stack_eq = l.stack_eq;
    self = l.self;
    extends = l.extends;
    low_eq = l.low_eq;
    low_le = l.low_le;
    low_at = l.low_at;
    segment = l.segment;
    resolved = resolved-cons t low w tried (inl d) l.resolved;
  }

  v-stacked : contains v t.stack ≡ true
  v-stacked = rw l.stack_eq (contains-append v l.seg (v ∷ s.stack) ∙ ground arith)

  v-index : index_of (t.index v) ≡ s.index_counter
  v-index = ap index_of l.self

  -- An edge to a node on the stack lowers the low link to its index.
  pub Loop-stacked :
      (i : ℕ)
      → t.index w ≡ some i
      → contains w t.stack ≡ true
      → Loop adj v s (lower v i t) (min low i) (w ∷ tried)
  unfolding lower
  Loop-stacked i e k = record {
    inv = Inv-lower v i l.inv;
    seg = l.seg;
    stack_eq = l.stack_eq;
    self = l.self;
    extends = Extends-lower v i l.extends fresh;
    low_eq = lower_self v i t ∙ ap (λ n. min n i) l.low_eq;
    low_le = omega (arith, l.low_le);
    low_at = elim (Bool-cases (leb low i)) [
      | inl h ↦ subst (Finds adj t t.stack v) (omega (arith, leb→le low i h)) l.low_at
      | inr h ↦ (w, k, step edge here, ap index_of e ∙ ground (arith, h))
    ];
    segment = Segment-lower t v i low (min low i) l.seg (omega arith) l.segment;
    resolved =
        resolved-cons t (min low i) w tried (inr (k, rw e (omega arith)))
          (λ y h. Resolved-mono t low (min low i) y (omega arith) (l.resolved y h));
  }

  -- An edge to a new node: `r` is the state after the recursive call.
  module _ {r : Tarjan} (q : Post adj w t r) where
    kept-v : r.index v ≡ t.index v
    kept-v = q.extends.index_kept v (ap has_index l.self)

    low-v : r.lowlink v ≡ low
    low-v = q.extends.lowlink_kept v (ap has_index l.self) ∙ l.low_eq

    counter-lt : low < t.index_counter
    counter-lt =
        let below = Descending-lt t.index t.index_counter t.stack v l.inv.descending v-stacked in
        omega (arith, below, v-index, l.low_le)

    found : Finds adj r r.stack v (min low (r.lowlink w))
    found = elim (Bool-cases (leb low (r.lowlink w))) [
      | inl h ↦
          subst (Finds adj r r.stack v) (omega (arith, leb→le low (r.lowlink w) h))
            (Finds-extends l.inv q.extends q.seg q.stack_eq v low l.low_at)
      | inr h ↦ elim q.outcome [
        | inl (empty, closed) ↦ absurd (ground (arith, h, closed, counter-lt))
        | inr (y, k, p, e) ↦ (
          y,
          rw q.stack_eq (contains-append y q.seg t.stack ∙ ground (arith, k)),
          step edge p,
          e ∙ ground (arith, h),
        )
      ]
    ]

    segments : Segment adj r v (min low (r.lowlink w)) (q.seg ++ l.seg)
    segments = record {
      reached = λ x h. elim (contains-append_cases x q.seg l.seg h) [
        | inl k ↦ step edge (q.segment.reached x k)
        | inr k ↦ l.segment.reached x k
      ];
      escapes = λ x h. elim (contains-append_cases x q.seg l.seg h) [
        | inl k ↦ q.segment.escapes x k
        | inr k ↦ escape x k
      ];
      edges = λ x y h e. elim (contains-append_cases x q.seg l.seg h) [
        | inl k ↦
            Resolved-mono r (r.lowlink w) (min low (r.lowlink w)) y (omega arith)
              (q.segment.edges x y k e)
        | inr k ↦
            Resolved-mono r low (min low (r.lowlink w)) y (omega arith)
              (Resolved-extends l.inv q.extends q.seg q.stack_eq low y (l.segment.edges x y k e))
      ];
    }
      where
        escape :
            (x : ℕ)
            → contains x l.seg ≡ true
            → (i : ℕ) × Finds adj r r.stack x i × (i < index_of (r.index x))
        escape x k =
            let (i, f, lt) = l.segment.escapes x k in
            let stacked : contains x t.stack ≡ true =
              rw l.stack_eq (contains-append x l.seg (v ∷ s.stack) ∙ ground (arith, k)) in
            (
              i,
              Finds-extends l.inv q.extends q.seg q.stack_eq x i f,
              subst (λ k. i < k)
                  (sym (ap index_of (q.extends.index_kept x (stacked-has_index l.inv x stacked))))
                  lt,
            )

    target : Resolved r (min low (r.lowlink w)) w
    target = elim (Bool-cases (contains w r.stack)) [
      | inl k ↦ inr (k, omega (arith, ap index_of q.self, counter-lt))
      | inr k ↦ inl (ground (arith, sym (q.inv.indexed w) ∙ ap has_index q.self, k))
    ]

    pub Loop-new : Loop adj v s (lower v (r.lowlink w) r) (min low (r.lowlink w)) (w ∷ tried)
    unfolding lower
    Loop-new = record {
      inv = Inv-lower v (r.lowlink w) q.inv;
      seg = q.seg ++ l.seg;
      stack_eq =
          q.stack_eq ∙ ap (◌++◌ q.seg) l.stack_eq ∙ sym (append_assoc q.seg l.seg (v ∷ s.stack));
      self = kept-v ∙ l.self;
      extends = Extends-lower v (r.lowlink w) (Extends-trans l.extends q.extends) fresh;
      low_eq = lower_self v (r.lowlink w) r ∙ ap (λ n. min n (r.lowlink w)) low-v;
      low_le = omega (arith, l.low_le);
      low_at = found;
      segment = Segment-lower r v (r.lowlink w) _ (min low (r.lowlink w)) _ (omega arith) segments;
      resolved = resolved-cons r (min low (r.lowlink w)) w tried target (λ y h.
          Resolved-mono r low (min low (r.lowlink w)) y (omega arith)
            (Resolved-extends l.inv q.extends q.seg q.stack_eq low y (l.resolved y h)));
    }
