-- ===== src/Modulation/Schedule/Steps.antt =====
-- The steps made of the components: each registered source once, after what it depends on.
use tanh_lib.Base.{
  ℕ, ◌≤◌, ◌≡◌, refl, sym, ap, ◌∙◌, subst, Bool, true, false, ◌&&◌, ◌==◌, List, [], ◌∷◌, ◌++◌, map,
  append-nil, some, contains, concat, IsNodup, arith, length, Bool-cases, ◌⊎◌, inl, inr, ◌↔◌,
}
use tanh_lib.Modulation.Schedule.{
  Graph, ScheduleStep, bulk_step, cyclic_step, registered, steps_of, steps_of_all,
  build_schedule_from_graph,
}
use tanh_lib.Modulation.Schedule.Inv.{Reach, Ordered}
use tanh_lib.Modulation.Schedule.Connect.{IsClosed}
use tanh_lib.Modulation.Schedule.Components.{AreClasses, connect_all_lem}

abbrev pub sources_of : ScheduleStep → List ℕ
sources_of (bulk_step x) = x ∷ []
sources_of (cyclic_step xs) = xs

module _ (is_source : ℕ → Bool) where
  contains-registered :
      (x : ℕ) (xs : List ℕ) → contains x (registered is_source xs) ≡ (is_source x && contains x xs)
  unfolding registered
  contains-registered x [] = ground arith
  contains-registered x (y ∷ xs) = elim (Bool-cases (y == x)) [
    | inl e ↦
        let same : is_source y ≡ is_source x = ap is_source {x = y} {y = x} (ground arith) in
        ground (arith, contains-registered x xs, same)
    | inr e ↦ ground (arith, contains-registered x xs)
  ]

  registered-append :
      (xs ys : List ℕ)
      → registered is_source (xs ++ ys) ≡ registered is_source xs ++ registered is_source ys
  unfolding registered
  registered-append [] ys = refl
  registered-append (x ∷ xs) ys = ground (arith, registered-append xs ys)

  registered-IsNodup : (xs : List ℕ) → IsNodup xs → IsNodup (registered is_source xs)
  unfolding registered
  registered-IsNodup [] n = tt
  registered-IsNodup (x ∷ xs) n = elim (Bool-cases (is_source x)) [
    | inl e ↦ rw e (ground (arith, contains-registered x xs, n.0), registered-IsNodup xs n.1)
    | inr e ↦ rw e (registered-IsNodup xs n.1)
  ]

  -- Dependencies between registered sources.
  abbrev pub between : Graph → Graph
  between adj x = registered is_source (adj x)

  module _ (has_self_edge : ℕ → Bool) where
    -- A component gives one step, of its registered sources, or none if it has none of these.
    steps_of-cases :
        (c : List ℕ)
        → ((step : ScheduleStep) × (steps_of is_source has_self_edge c ≡ step ∷ [])
            × (sources_of step ≡ registered is_source c))
          ⊎ ((steps_of is_source has_self_edge c ≡ []) × (registered is_source c ≡ []))
    unfolding steps_of registered
    steps_of-cases [] = inl (cyclic_step [], refl, refl)
    steps_of-cases (x ∷ []) = elim (Bool-cases (has_self_edge x)) [
      | inl e ↦ inl (cyclic_step (registered is_source (x ∷ [])), rw e refl, refl)
      | inr e ↦ elim (Bool-cases (is_source x)) [
        | inl k ↦ inl (bulk_step x, rw e (rw k refl), rw k refl)
        | inr k ↦ inr (rw e (rw k refl), rw k refl)
      ]
    ]
    steps_of-cases (x ∷ y ∷ c) = inl (cyclic_step (registered is_source (x ∷ y ∷ c)), refl, refl)

    -- The sources of the steps, in their order.
    steps_of_all-sources :
        (cs : List (List ℕ))
        → concat (map sources_of (steps_of_all is_source has_self_edge cs))
          ≡ registered is_source (concat cs)
    unfolding steps_of_all
    steps_of_all-sources [] = unfold registered in refl
    steps_of_all-sources (c ∷ cs) = elim (steps_of-cases c) [
      | inl (s, e, k) ↦ rw e (
          rw k (
            ap (◌++◌ (registered is_source c)) (steps_of_all-sources cs)
            ∙ sym (registered-append c (concat cs))))
      | inr (e, k) ↦ rw e (
          steps_of_all-sources cs
          ∙ sym
              (registered-append c (concat cs) ∙ ap (λ l. l ++ registered is_source (concat cs)) k))
    ]

    steps_of_all-Ordered :
        (adj : Graph) (seen : List ℕ) (cs : List (List ℕ))
        → Ordered adj seen cs
        → Ordered
            (between adj)
            (registered is_source seen)
            (map sources_of (steps_of_all is_source has_self_edge cs))
    unfolding steps_of_all
    steps_of_all-Ordered adj seen [] o = tt
    steps_of_all-Ordered adj seen (c ∷ cs) o = elim (steps_of-cases c) [
      | inl (s, e, k) ↦ rw e (
          rw k (
            (λ x y m d.
                let in_c : contains x c ≡ true = ground (arith, m, contains-registered x c) in
                let edge : contains y (adj x) ≡ true =
                  ground (arith, d, contains-registered y (adj x)) in
                ground (
                  arith,
                  d,
                  contains-registered y (adj x),
                  contains-registered y seen,
                  contains-registered y c,
                  o.0 x y in_c edge,
                )),
            subst
                (λ l.
                  Ordered (between adj) l
                    (map sources_of (steps_of_all is_source has_self_edge cs)))
                (registered-append seen c) (steps_of_all-Ordered adj (seen ++ c) cs o.1),
          ))
      | inr (e, k) ↦ rw e (
          subst
            (λ l.
              Ordered (between adj) l (map sources_of (steps_of_all is_source has_self_edge cs)))
            (registered-append seen c
              ∙ ap (◌++◌ (registered is_source seen)) k
              ∙ append-nil (registered is_source seen))
            (steps_of_all-Ordered adj (seen ++ c) cs o.1))
    ]

    -- A bulk step is of a source with no edge to itself and in no cycle with another node; the
    -- sources of a cyclic step reach one another.
    abbrev pub IsFit : Graph → ScheduleStep → Type 0
    IsFit adj (bulk_step x) =
        (has_self_edge x ≡ false)
        × ((y : ℕ) → Reach adj x y → Reach adj y x → contains y (x ∷ []) ≡ true)
    IsFit adj (cyclic_step xs) =
        (x y : ℕ) → contains x xs ≡ true → contains y xs ≡ true → Reach adj x y

    abbrev pub AreFit : Graph → List ScheduleStep → Type 0
    AreFit adj [] = Unit
    AreFit adj (s ∷ steps) = IsFit adj s × AreFit adj steps

    AreFit-append :
        (adj : Graph) (xs ys : List ScheduleStep)
        → AreFit adj xs
        → AreFit adj ys
        → AreFit adj (xs ++ ys)
    AreFit-append adj [] ys f g = g
    AreFit-append adj (x ∷ xs) ys f g = (f.0, AreFit-append adj xs ys f.1 g)

    -- A component whose nodes reach one another and no others both ways.
    abbrev IsClass : Graph → List ℕ → Type 0
    IsClass adj c =
        (x y : ℕ) → contains x c ≡ true → (contains y c ≡ true) ↔ (Reach adj x y × Reach adj y x)

    cyclic-IsFit :
        (adj : Graph) (c : List ℕ)
        → IsClass adj c
        → IsFit adj (cyclic_step (registered is_source c))
    cyclic-IsFit adj c h x y m n =
        ((h x y (ground (arith, m, contains-registered x c))).0
          (ground (arith, n, contains-registered y c))).0

    steps_of-AreFit :
        (adj : Graph) (c : List ℕ) → IsClass adj c → AreFit adj (steps_of is_source has_self_edge c)
    unfolding steps_of
    steps_of-AreFit adj [] h = ((λ x y m n. (cc)), tt)
    steps_of-AreFit adj (x ∷ []) h = elim (Bool-cases (has_self_edge x)) [
      | inl e ↦ rw e (cyclic-IsFit adj (x ∷ []) h, tt)
      | inr e ↦ elim (Bool-cases (is_source x)) [
        | inl k ↦ rw e (rw k ((e, λ y p q. (h x y (ground arith)).1 (p, q)), tt))
        | inr k ↦ rw e (rw k tt)
      ]
    ]
    steps_of-AreFit adj (x ∷ y ∷ c) h = (cyclic-IsFit adj (x ∷ y ∷ c) h, tt)

    steps_of_all-AreFit :
        (adj : Graph) (cs : List (List ℕ))
        → AreClasses adj cs
        → AreFit adj (steps_of_all is_source has_self_edge cs)
    unfolding steps_of_all
    steps_of_all-AreFit adj [] h = tt
    steps_of_all-AreFit adj (c ∷ cs) h =
        AreFit-append adj (steps_of is_source has_self_edge c) _ (steps_of-AreFit adj c h.0)
          (steps_of_all-AreFit adj cs h.1)

    -- With a list of nodes that holds the sources and is closed under edges, and fuel for its
    -- length, a schedule is built. Its steps hold each registered source of `source_ids`, and no
    -- source twice; what a source of a step depends on, if it is registered, is in the step or in
    -- one before it; a bulk step is of a source in no cycle, and the sources of a cyclic step
    -- reach one another.
    pub build_schedule_from_graph_lem :
        (adj : Graph) (universe source_ids : List ℕ) (fuel : ℕ)
        → IsClosed adj universe
        → ((v : ℕ) → contains v source_ids ≡ true → contains v universe ≡ true)
        → length universe ≤ fuel
        → (steps : List ScheduleStep) × (build_schedule_from_graph fuel is_source source_ids adj
              has_self_edge
            ≡ some steps)
          × IsNodup (concat (map sources_of steps))
          × ((v : ℕ)
              → (is_source v && contains v source_ids) ≡ true
              → contains v (concat (map sources_of steps)) ≡ true)
          × Ordered (between adj) [] (map sources_of steps)
          × AreFit adj steps
    unfolding build_schedule_from_graph
    build_schedule_from_graph_lem adj universe source_ids fuel closed known enough =
        let (t, ran, nodup, all, ordered, classes) =
          connect_all_lem adj universe source_ids fuel closed known enough in
        let sources = steps_of_all-sources t.sccs in
        (
          steps_of_all is_source has_self_edge t.sccs,
          rw ran refl,
          subst IsNodup (sym sources) (registered-IsNodup (concat t.sccs) nodup),
          (λ v h.
              ap (contains v) sources
              ∙ contains-registered v (concat t.sccs)
              ∙ ground (arith, h, all v (ground (arith, h)))),
          steps_of_all-Ordered adj [] t.sccs ordered,
          steps_of_all-AreFit adj t.sccs classes,
        )
