-- ===== src/Modulation/Schedule/Components.antt =====
-- The components: each node once, in the order of the dependencies, and exactly the classes of
-- nodes that reach one another.
use tanh_lib.Base.{
  ℕ, ◌≤◌, ◌≡◌, ◌↔◌, refl, sym, ap, ◌∙◌, subst, true, false, ◌||◌, List, [], ◌∷◌, ◌++◌, none, some,
  contains, contains-append, contains-cases, contains-append_cases, concat, IsNodup, IsNodup-drop,
  IsNodup-apart, clash, arith, length, Option-cases, inl, inr,
}
use tanh_lib.Modulation.Schedule.{Graph, Tarjan, bind, connect_new, connect_all, start}
use tanh_lib.Modulation.Schedule.Inv.{Reach, here, step, Inv, has_index, Ordered, Linked}
use tanh_lib.Modulation.Schedule.Loop.{Extends, Post}
use tanh_lib.Modulation.Schedule.Edges.{Extends-trans}
use tanh_lib.Modulation.Schedule.Fuel.{unseen, unseen-le, unseen-le_length}
use tanh_lib.Modulation.Schedule.Connect.{IsClosed, strongconnect-Connects}

Extends-refl : (s : Tarjan) → Extends s s
Extends-refl s = record {
  index_kept = λ x h. refl;
  lowlink_kept = λ x h. refl;
  done_kept = λ x h. h;
}

module _ {adj : Graph} where
  -- With an empty stack what has an index is in a component.
  indexed-done :
      {t : Tarjan} (i : Inv adj t) (x : ℕ)
      → t.stack ≡ []
      → has_index (t.index x) ≡ true
      → contains x (concat t.sccs) ≡ true
  indexed-done i x e h = ground (arith, sym (i.indexed x) ∙ h, ap (contains x) e)

  -- A node that is connected from an empty stack leaves it empty.
  Post-empty : {v : ℕ} {s r : Tarjan} → Post adj v s r → s.stack ≡ [] → r.stack ≡ []
  Post-empty {s} q e = elim q.outcome [
    | inl (empty, _) ↦ q.stack_eq ∙ ap (λ seg. seg ++ s.stack) empty ∙ e
    | inr (y, k, p, f) ↦ absurd (ground (arith, k, ap (contains y) e))
  ]

  module _ (universe : List ℕ) (closed : IsClosed adj universe) (fuel : ℕ) where
    connect_one :
        (v : ℕ) (s : Tarjan)
        → Inv adj s
        → s.stack ≡ []
        → contains v universe ≡ true
        → unseen s.index universe ≤ fuel
        → (r : Tarjan) × (connect_new adj fuel v (s.index v) s ≡ some r)
          × Inv adj r
          × (r.stack ≡ [])
          × Extends s r
          × (contains v (concat r.sccs) ≡ true)
    unfolding connect_new
    connect_one v s inv empty known enough = elim (Option-cases (s.index v)) [
      | inr (i, e) ↦
          (s, rw e refl, inv, empty, Extends-refl s, indexed-done inv v empty (ap has_index e))
      | inl e ↦
          let (r, ran, q) =
            strongconnect-Connects adj universe closed fuel v s inv e known enough in
          let clean = Post-empty q empty in
          (r, rw e ran, q.inv, clean, q.extends, indexed-done q.inv v clean (ap has_index q.self))
    ]

    connect_each :
        (vs : List ℕ) (s : Tarjan)
        → Inv adj s
        → s.stack ≡ []
        → ((v : ℕ) → contains v vs ≡ true → contains v universe ≡ true)
        → unseen s.index universe ≤ fuel
        → (r : Tarjan) × (connect_all adj fuel vs s ≡ some r)
          × Inv adj r
          × Extends s r
          × ((v : ℕ) → contains v vs ≡ true → contains v (concat r.sccs) ≡ true)
    unfolding connect_all
    connect_each [] s inv empty known enough = (s, refl, inv, Extends-refl s, λ v h. (cc))
    connect_each (v ∷ vs) s inv empty known enough =
        let (t, ran, inv_t, clean, e, done) =
          connect_one v s inv empty (known v (ground arith)) enough in
        let fewer =
          unseen-le s.index t.index universe (λ x h. ap has_index (e.index_kept x h) ∙ h) in
        let (r, ran', inv_r, e', rest) =
          connect_each vs t inv_t clean (λ x h. known x (ground (arith, h)))
            (omega (arith, enough, fewer)) in
        (
          r,
          ap (λ o. bind o (connect_all adj fuel vs)) ran ∙ ran',
          inv_r,
          Extends-trans e e',
          λ x h. elim (contains-cases x v vs h) [
            | inl same ↦ subst (λ y. contains y (concat r.sccs) ≡ true) same (e'.done_kept v done)
            | inr k ↦ rest x k
          ],
        )

  Inv-start : Inv adj start
  Inv-start = record {
    stacked = λ x. refl;
    indexed = λ x. refl;
    descending = tt;
    apart = λ x h. refl;
    nodup = tt;
    ordered = tt;
    linked = tt;
  }

-- Every component is a class: what stands in one with `x` is what reaches `x` and is reached.
abbrev pub AreClasses : Graph → List (List ℕ) → Type 0
AreClasses adj [] = Unit
AreClasses adj (c ∷ cs) =
    ((x y : ℕ) → contains x c ≡ true → (contains y c ≡ true) ↔ (Reach adj x y × Reach adj y x))
    × AreClasses adj cs

Reach-closed :
    (adj : Graph) (xs : List ℕ) {x y : ℕ}
    → IsClosed adj xs
    → Reach adj x y
    → contains x xs ≡ true
    → contains y xs ≡ true
Reach-closed adj xs closed here h = h
Reach-closed adj xs closed (step e p) h = Reach-closed adj xs closed p (closed _ _ h e)

IsClosed-append :
    (adj : Graph) (seen c : List ℕ)
    → IsClosed adj seen
    → ((x y : ℕ)
        → contains x c ≡ true
        → contains y (adj x) ≡ true
        → (contains y seen || contains y c) ≡ true)
    → IsClosed adj (seen ++ c)
IsClosed-append adj seen c closed out x y h e =
    contains-append y seen c ∙ elim (contains-append_cases x seen c h) [
      | inl k ↦ ground (arith, closed x y k e)
      | inr k ↦ out x y k e
    ]

Ordered-AreClasses :
    (adj : Graph) (seen : List ℕ) (cs : List (List ℕ))
    → IsClosed adj seen
    → ((x : ℕ) → contains x (concat cs) ≡ true → contains x seen ≡ false)
    → IsNodup (concat cs)
    → Ordered adj seen cs
    → Linked adj cs
    → AreClasses adj cs
Ordered-AreClasses adj seen [] closed apart nodup o l = tt
Ordered-AreClasses adj seen (c ∷ cs) closed apart nodup o l =
    let more = IsClosed-append adj seen c closed o.0 in
    (
      λ x y h. (
        (λ k. (l.0 x y h k, l.0 y x k h)),
        (λ p.
            elim (contains-append_cases y seen c (
              Reach-closed adj (seen ++ c) more p.0
                (contains-append x seen c ∙ ground (arith, h)))) [
                  | inl k ↦ absurd (
                      clash (Reach-closed adj seen closed p.1 k)
                        (apart x (contains-append x c (concat cs) ∙ ground (arith, h))))
                  | inr k ↦ k
                ]),
      ),
      Ordered-AreClasses adj (seen ++ c) cs more
          (λ x h.
            contains-append x seen c
            ∙ ground (
              arith,
              apart x (contains-append x c (concat cs) ∙ ground (arith, h)),
              IsNodup-apart c (concat cs) x nodup h,
            ))
          (IsNodup-drop c (concat cs) nodup) o.1 l.1,
    )

-- With a list of nodes that holds the sources and is closed under edges, and fuel for its length, the
-- search ends. Its components hold each node once and every source; an edge out of a component
-- leads to it or to one before it; and two nodes stand in one component exactly when each reaches
-- the other.
pub connect_all_lem :
    (adj : Graph) (universe source_ids : List ℕ) (fuel : ℕ)
    → IsClosed adj universe
    → ((v : ℕ) → contains v source_ids ≡ true → contains v universe ≡ true)
    → length universe ≤ fuel
    → (t : Tarjan) × (connect_all adj fuel source_ids start ≡ some t)
      × IsNodup (concat t.sccs)
      × ((v : ℕ) → contains v source_ids ≡ true → contains v (concat t.sccs) ≡ true)
      × Ordered adj [] t.sccs
      × AreClasses adj t.sccs
connect_all_lem adj universe source_ids fuel closed known enough =
    let (t, ran, inv, _, all) =
      connect_each universe closed fuel source_ids start Inv-start refl known
        (omega (arith, enough, unseen-le_length (λ _. none) universe)) in
    (
      t,
      ran,
      inv.nodup,
      all,
      inv.ordered,
      Ordered-AreClasses adj [] t.sccs (λ x y h e. (cc)) (λ x h. refl) inv.nodup inv.ordered
          inv.linked,
    )
