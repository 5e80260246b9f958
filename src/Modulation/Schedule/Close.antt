-- ===== src/Modulation/Schedule/Close.antt =====
-- The end of `strongconnect`: a component is popped, or the node stays on the stack.
use tanh_lib.Base.{
  ℕ, zero, suc, ◌<◌, ◌≤◌, ◌≡◌, refl, sym, ap, ◌∙◌, subst, Bool, true, false, not, ◌&&◌, ◌||◌, ◌==◌,
  List, [], ◌∷◌, ◌++◌, Option, some, update, contains, contains-append, contains-append_cases,
  concat, concat-snoc, IsNodup, IsNodup-append, append_assoc, arith, clash, Bool-cases, ◌⊎◌, inl,
  inr,
}
use tanh_lib.Modulation.Schedule.{Graph, Tarjan, index_of, pop_until, bind, close}
use tanh_lib.Modulation.Schedule.Inv.{
  Reach, here, step, Inv, Reach-trans, Ordered-closed, Ordered-snoc, Linked-snoc, Descending,
  Descending-drop, Descending-take, Descending-below, Descending-apart, Descending-IsNodup,
}
use tanh_lib.Modulation.Schedule.Loop.{Resolved, Finds, Loop, Post}

-- The loop pops what lies above `v`, and `v`.
pop_until-eq :
    (v : ℕ) (seg base : List ℕ) (on : ℕ → Bool) (scc : List ℕ)
    → contains v seg ≡ false
    → (on' : ℕ → Bool) × (pop_until v (seg ++ (v ∷ base)) on scc
        ≡ some (base, on', scc ++ (seg ++ (v ∷ []))))
      × ((x : ℕ) → on' x ≡ (not (contains x (seg ++ (v ∷ []))) && on x))
unfolding pop_until
pop_until-eq v [] base on scc h = (update on v false, ground arith, λ x. ground arith)
pop_until-eq v (w ∷ seg) base on scc h =
    let (on', e, k) =
      pop_until-eq v seg base (update on w false) (scc ++ (w ∷ [])) (ground (arith, h)) in
    (
      on',
      ground (arith, e, h, append_assoc scc (w ∷ []) (seg ++ (v ∷ []))),
      λ x. k x ∙ ground arith,
    )

module _ {adj : Graph} {v : ℕ} {s t : Tarjan} {low : ℕ} (l : Loop adj v s t low (adj v)) where
  -- What would be popped.
  abbrev scc : List ℕ
  scc = l.seg ++ (v ∷ [])

  split : t.stack ≡ scc ++ s.stack
  split = l.stack_eq ∙ sym (append_assoc l.seg (v ∷ []) s.stack)

  v-index : index_of (t.index v) ≡ s.index_counter
  v-index = ap index_of l.self

  on_scc : Descending t.index t.index_counter (scc ++ s.stack)
  on_scc = subst (Descending t.index t.index_counter) split l.inv.descending

  on_seg : Descending t.index t.index_counter (l.seg ++ (v ∷ s.stack))
  on_seg = subst (Descending t.index t.index_counter) l.stack_eq l.inv.descending

  -- A node of the component has an index from that of `v` on; one below it, a smaller one.
  scc-le : (x : ℕ) → contains x scc ≡ true → s.index_counter ≤ index_of (t.index x)
  scc-le x h = elim (contains-append_cases x l.seg (v ∷ []) h) [
    | inl k ↦ omega (
      arith,
      Descending-below t.index t.index_counter l.seg (v ∷ s.stack) x v on_seg k (ground arith),
      v-index,
    )
    | inr k ↦
        let same : v ≡ x = ground arith in
        subst (λ y. s.index_counter ≤ index_of (t.index y)) same (omega (arith, v-index))
  ]

  base-lt : (x : ℕ) → contains x s.stack ≡ true → index_of (t.index x) < s.index_counter
  base-lt x h = omega (
    arith,
    Descending-below t.index t.index_counter scc s.stack v x on_scc
        (contains-append v l.seg (v ∷ []) ∙ ground arith) h,
    v-index,
  )

  stack-cases :
      (x : ℕ) → contains x t.stack ≡ true → (contains x scc ≡ true) ⊎ (contains x s.stack ≡ true)
  stack-cases x h = contains-append_cases x scc s.stack (subst (λ st. contains x st ≡ true) split h)

  scc-stacked : (x : ℕ) → contains x scc ≡ true → contains x t.stack ≡ true
  scc-stacked x h = rw split (contains-append x scc s.stack ∙ ground (arith, h))

  base-stacked : (x : ℕ) → contains x s.stack ≡ true → contains x t.stack ≡ true
  base-stacked x h = rw split (contains-append x scc s.stack ∙ ground (arith, h))

  -- Every edge out of the component is resolved.
  scc-edges : (x y : ℕ) → contains x scc ≡ true → contains y (adj x) ≡ true → Resolved t low y
  scc-edges x y h e = elim (contains-append_cases x l.seg (v ∷ []) h) [
    | inl k ↦ l.segment.edges x y k e
    | inr k ↦
        let same : v ≡ x = ground arith in
        l.resolved y (subst (λ z. contains y (adj z) ≡ true) (sym same) e)
  ]

  scc-reached : (x : ℕ) → contains x scc ≡ true → Reach adj v x
  scc-reached x h = elim (contains-append_cases x l.seg (v ∷ []) h) [
    | inl k ↦ l.segment.reached x k
    | inr k ↦ let same : v ≡ x = ground arith in subst (Reach adj v) same here
  ]

  contains-split : (x : ℕ) → contains x t.stack ≡ (contains x scc || contains x s.stack)
  contains-split x = ap (contains x) split ∙ contains-append x scc s.stack

  base-not_scc : (x : ℕ) → contains x scc ≡ true → contains x s.stack ≡ false
  base-not_scc x h = Descending-apart t.index t.index_counter scc s.stack x on_scc h

  done-not_scc : (x : ℕ) → contains x (concat t.sccs) ≡ true → contains x scc ≡ false
  done-not_scc x d = elim (Bool-cases (contains x scc)) [
    | inl k ↦ absurd (clash d (l.inv.apart x (scc-stacked x k)))
    | inr k ↦ k
  ]

  contains-done :
      (x : ℕ)
      → contains x (concat (t.sccs ++ (scc ∷ []))) ≡ (contains x (concat t.sccs) || contains x scc)
  contains-done x = ap (contains x) (concat-snoc t.sccs scc) ∙ contains-append x (concat t.sccs) scc

  -- The node stays: it has found one below it.
  module _ (deeper : low < s.index_counter) where
    pub Post-open : Post adj v s t
    Post-open = record {
      inv = l.inv;
      seg = scc;
      stack_eq = split;
      self = l.self;
      extends = l.extends;
      segment = rw l.low_eq (record {
        reached = scc-reached;
        escapes = λ x h. elim (contains-append_cases x l.seg (v ∷ []) h) [
          | inl k ↦ l.segment.escapes x k
          | inr k ↦
              let same : v ≡ x = ground arith in
              subst (λ z. (i : ℕ) × Finds adj t t.stack z i × (i < index_of (t.index z))) same
                (low, l.low_at, omega (arith, v-index))
        ];
        edges = scc-edges;
      });
      outcome = rw l.low_eq (inr found);
    }
      where
        found : Finds adj t s.stack v low
        found =
            let (y, k, p, e) = l.low_at in
            elim (stack-cases y k) [
              | inl m ↦ absurd (omega (arith, scc-le y m, e))
              | inr m ↦ (y, m, p, e)
            ]

  -- The node is a root: what is popped is a component.
  module _ (root : low ≡ s.index_counter) where
    settled :
        (x y : ℕ)
        → contains x scc ≡ true
        → contains y (adj x) ≡ true
        → (contains y scc || contains y (concat t.sccs)) ≡ true
    settled x y h e = elim (scc-edges x y h e) [
      | inl d ↦ ground (arith, d)
      | inr (k, le) ↦ elim (stack-cases y k) [
        | inl m ↦ ground (arith, m)
        | inr m ↦ absurd (omega (arith, base-lt y m, root))
      ]
    ]

    -- No path leads out of the component and those before it.
    confined :
        (x y : ℕ)
        → Reach adj x y
        → (contains x scc || contains x (concat t.sccs)) ≡ true
        → (contains y scc || contains y (concat t.sccs)) ≡ true
    confined x y here h = h
    confined x y (step {y = z} e p) h = confined z y p (elim (Bool-cases (contains x scc)) [
      | inl k ↦ settled x z k e
      | inr k ↦
          ground (arith, Ordered-closed adj [] t.sccs x z l.inv.ordered (ground (arith, h, k)) e)
    ])

    below-apart :
        (y : ℕ) → contains y s.stack ≡ true → (contains y scc || contains y (concat t.sccs)) ≡ false
    below-apart y m = ground (arith, scc-above, l.inv.apart y (base-stacked y m))
      where
        scc-above : contains y scc ≡ false
        scc-above = elim (Bool-cases (contains y scc)) [
          | inl k ↦ absurd (omega (arith, scc-le y k, base-lt y m))
          | inr k ↦ k
        ]

    returns : (k x : ℕ) → index_of (t.index x) < k → contains x scc ≡ true → Reach adj x v
    returns zero x b h = absurd (omega arith)
    returns (suc k) x b h = elim (contains-append_cases x l.seg (v ∷ []) h) [
      | inr m ↦ let same : v ≡ x = ground arith in subst (λ z. Reach adj z v) same here
      | inl m ↦
          let (i, (y, on, p, e), lt) = l.segment.escapes x m in
          elim (stack-cases y on) [
            | inl up ↦ Reach-trans p (returns k y (omega (arith, e, lt, b)) up)
            | inr down ↦ absurd (clash (confined x y p (ground (arith, h))) (below-apart y down))
          ]
    ]

    component : (x y : ℕ) → contains x scc ≡ true → contains y scc ≡ true → Reach adj x y
    component x y h k =
        Reach-trans (returns (suc (index_of (t.index x))) x (omega arith) h) (scc-reached y k)

    abbrev popped : (ℕ → Bool) → Tarjan
    popped on = record t { stack = s.stack; on_stack = on; sccs = t.sccs ++ (scc ∷ []) }

    Inv-popped :
        (on : ℕ → Bool)
        → ((x : ℕ) → on x ≡ (not (contains x scc) && t.on_stack x))
        → Inv adj (popped on)
    Inv-popped on e = record {
      stacked = λ x. left_on x;
      indexed = λ x. l.inv.indexed x ∙ ground (arith, contains-split x, contains-done x);
      descending = Descending-drop t.index t.index_counter scc s.stack on_scc;
      apart = λ x h. contains-done x ∙ below-done x h;
      nodup = subst IsNodup (sym (concat-snoc t.sccs scc)) (
          IsNodup-append (concat t.sccs) scc l.inv.nodup
            (Descending-IsNodup t.index t.index_counter scc
              (Descending-take t.index t.index_counter scc s.stack on_scc))
            done-not_scc);
      ordered =
          Ordered-snoc adj [] t.sccs scc l.inv.ordered (λ x y h k. ground (arith, settled x y h k));
      linked = Linked-snoc adj t.sccs scc l.inv.linked component;
    }
      where
        left_on : (x : ℕ) → on x ≡ contains x s.stack
        left_on x = e x ∙ ground (arith, l.inv.stacked x, contains-split x, base-not_scc x)

        below-done :
            (x : ℕ)
            → contains x s.stack ≡ true
            → (contains x (concat t.sccs) || contains x scc) ≡ false
        below-done x h = ground (arith, below-apart x h)

    Post-popped :
        (on : ℕ → Bool)
        → ((x : ℕ) → on x ≡ (not (contains x scc) && t.on_stack x))
        → Post adj v s (popped on)
    Post-popped on e = record {
      inv = Inv-popped on e;
      seg = [];
      stack_eq = refl;
      self = l.self;
      extends = record {
        index_kept = l.extends.index_kept;
        lowlink_kept = l.extends.lowlink_kept;
        done_kept = λ x d. contains-done x ∙ ground (arith, l.extends.done_kept x d);
      };
      segment = record { reached = λ x h. (cc); escapes = λ x h. (cc); edges = λ x y h k. (cc) };
      outcome = inl (refl, l.low_eq ∙ root);
    }

  v-not_seg : contains v l.seg ≡ false
  v-not_seg = elim (Bool-cases (contains v l.seg)) [
    | inl k ↦ absurd (
        omega (
          arith,
          Descending-below t.index t.index_counter l.seg (v ∷ s.stack) v v on_seg k (ground arith),
        ))
    | inr k ↦ k
  ]

  -- `close` succeeds, and `v` is connected.
  pub close-Post : (r : Tarjan) × (close v t ≡ some r) × Post adj v s r
  unfolding close
  close-Post = elim (Bool-cases (t.lowlink v == index_of (t.index v))) [
    | inl e ↦
        let root : low ≡ s.index_counter = ground (arith, l.low_eq, v-index) in
        let (on, popped_eq, on_eq) = pop_until-eq v l.seg s.stack t.on_stack [] v-not_seg in
        (
          popped root on,
          rw e (
              ap
                (λ (o : Option (List ℕ × (ℕ → Bool) × List ℕ)). bind o (λ p.
                  some (record t { stack = p.0; on_stack = p.1; sccs = t.sccs ++ (p.2 ∷ []) })))
                (ap (λ st. pop_until v st t.on_stack []) l.stack_eq ∙ popped_eq)),
          Post-popped root on on_eq,
        )
    | inr e ↦ (t, rw e refl, Post-open (ground (arith, l.low_le, l.low_eq, v-index)))
  ]
