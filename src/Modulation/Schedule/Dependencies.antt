-- ===== src/Modulation/Schedule/Dependencies.antt =====
-- src/modulation/ModulationMatrix.cpp, the end of `rebuild_schedule_with_lock`: the graph of
-- dependencies that the routings make between the sources, and its schedule.
use tanh_lib.Base.{
  ℕ, ◌≡◌, inl, inr, sym, ap, ◌∙◌, subst, Bool, true, false, not, ◌&&◌, ◌||◌, ◌==◌, if◌then◌else◌,
  List, [], ◌∷◌, ◌++◌, map, Option, none, some, update, contains, contains-append, concat, IsNodup,
  arith, length, Bool-cases,
}
use tanh_lib.Modulation.Schedule.{Graph, ScheduleStep, build_schedule_from_graph}
use tanh_lib.Modulation.Schedule.Inv.{Ordered}
use tanh_lib.Modulation.Schedule.Connect.{IsClosed}
use tanh_lib.Modulation.Schedule.Steps.{sources_of, between, AreFit, build_schedule_from_graph_lem}

-- An entry of `m_sources`, with `parameter_keys()`.
pub record Source : Type 0 where
  pub id : ℕ
  pub parameter_keys : List ℕ

-- The ends of a user routing.
pub record Ends : Type 0 where
  pub source_id : ℕ
  pub target_id : ℕ

abbrev pub set_owner : (ℕ → Option ℕ) → ℕ → List ℕ → ℕ → Option ℕ
set_owner owner id [] = owner
set_owner owner id (key ∷ keys) = set_owner (update owner key (some id)) id keys

-- `target_owner`
pub build_owner : (ℕ → Option ℕ) → List Source → ℕ → Option ℕ
build_owner owner [] = owner
build_owner owner (s ∷ sources) = build_owner (set_owner owner s.id s.parameter_keys) sources

-- `adj` and `has_self_edge`.
pub record Edges : Type 0 where
  pub adj : Graph
  pub has_self_edge : ℕ → Bool

-- A round of the loop over the routings; `owner` is that of the target.
pub add_edge : Edges → Option ℕ → ℕ → Edges
add_edge e none source_id = e
add_edge e (some owner_id) source_id =
    if owner_id == source_id
    then (record e { has_self_edge = update e.has_self_edge owner_id true })
    else (record e { adj = update e.adj owner_id (e.adj owner_id ++ (source_id ∷ [])) })

pub add_edges : (ℕ → Option ℕ) → Edges → List Ends → Edges
unfolding add_edge
add_edges owner e [] = e
add_edges owner e (r ∷ rs) = add_edges owner (add_edge e (owner r.target_id) r.source_id) rs

abbrev pub source_ids : List Source → List ℕ
source_ids [] = []
source_ids (s ∷ sources) = s.id ∷ source_ids sources

pub build_edges : List Source → List Ends → Edges
unfolding build_owner add_edges
build_edges sources routings =
    add_edges (build_owner (λ _. none) sources)
      (record { adj = λ _. []; has_self_edge = λ _. false }) routings

abbrev pub routing_sources : List Ends → List ℕ
routing_sources [] = []
routing_sources (r ∷ rs) = r.source_id ∷ routing_sources rs

-- Each level of the recursion gives a node its index, so the nodes bound the depth.
unfoldable pub schedule_of : List Source → List Ends → Option (List ScheduleStep)
unfolding build_edges
schedule_of sources routings =
    let e = build_edges sources routings in
    build_schedule_from_graph (length (source_ids sources ++ routing_sources routings))
      (λ i. contains i (source_ids sources)) (source_ids sources) e.adj e.has_self_edge

-- The routing makes `y` a dependency of `x`.
abbrev pub depends : (ℕ → Option ℕ) → ℕ → ℕ → Ends → Bool
depends owner x y r =
    (r.source_id == y)
    && elim (owner r.target_id) [ none ↦ false | some o ↦ (o == x) && not (x == y) ]

abbrev pub any_depends : (ℕ → Option ℕ) → ℕ → ℕ → List Ends → Bool
any_depends owner x y [] = false
any_depends owner x y (r ∷ rs) = depends owner x y r || any_depends owner x y rs

add_edge-adj_self :
    (e : Edges) (o s y : ℕ)
    → contains y ((add_edge e (some o) s).adj o)
      ≡ (contains y (e.adj o) || ((s == y) && not (o == y)))
unfolding add_edge
add_edge-adj_self e o s y = ground (arith, contains-append y (e.adj o) (s ∷ []))

add_edge-adj_other :
    (e : Edges) (o s x : ℕ) → (o == x) ≡ false → (add_edge e (some o) s).adj x ≡ e.adj x
unfolding add_edge
add_edge-adj_other e o s x ne = ground arith

add_edge-adj :
    (e : Edges) (owner : Option ℕ) (s x y : ℕ)
    → contains y ((add_edge e owner s).adj x) ≡ (
        contains y (e.adj x)
        || ((s == y) && elim owner [ none ↦ false | some o ↦ (o == x) && not (x == y) ]))
add_edge-adj e none s x y = unfold add_edge in ground arith
add_edge-adj e (some o) s x y = elim (Bool-cases (o == x)) [
  | inl same ↦
      let eq : o ≡ x = ground arith in
      subst
        (λ z.
          contains y ((add_edge e (some o) s).adj z)
          ≡ (contains y (e.adj z) || ((s == y) && ((o == z) && not (z == y)))))
        eq (add_edge-adj_self e o s y ∙ ground arith)
  | inr ne ↦ ap (contains y) (add_edge-adj_other e o s x ne) ∙ ground (arith, ne)
]

add_edges-adj :
    (owner : ℕ → Option ℕ) (e : Edges) (rs : List Ends) (x y : ℕ)
    → contains y ((add_edges owner e rs).adj x) ≡ (contains y (e.adj x) || any_depends owner x y rs)
unfolding add_edges
add_edges-adj owner e [] x y = ground arith
add_edges-adj owner e (r ∷ rs) x y =
    add_edges-adj owner (add_edge e (owner r.target_id) r.source_id) rs x y
    ∙ ground (arith, add_edge-adj e (owner r.target_id) r.source_id x y)

-- There is an edge from `x` to `y` exactly when some routing leads from source `y` to a parameter
-- of another source `x`.
pub build_edges-adj :
    (sources : List Source) (routings : List Ends) (x y : ℕ)
    → contains y ((build_edges sources routings).adj x)
      ≡ any_depends (build_owner (λ _. none) sources) x y routings
unfolding build_edges
build_edges-adj sources routings x y = add_edges-adj _ _ routings x y

any_depends-source :
    (owner : ℕ → Option ℕ) (x y : ℕ) (rs : List Ends)
    → any_depends owner x y rs ≡ true
    → contains y (routing_sources rs) ≡ true
any_depends-source owner x y [] h = (cc)
any_depends-source owner x y (r ∷ rs) h = elim (Bool-cases (r.source_id == y)) [
  | inl e ↦ ground (arith, e)
  | inr e ↦ ground (arith, any_depends-source owner x y rs (ground (arith, h, e)))
]

module _ (sources : List Source) (routings : List Ends) where
  abbrev pub nodes : List ℕ
  nodes = source_ids sources ++ routing_sources routings

  nodes-IsClosed : IsClosed (build_edges sources routings).adj nodes
  nodes-IsClosed x y h e =
      let later =
        any_depends-source (build_owner (λ _. none) sources) x y routings
          (sym (build_edges-adj sources routings x y) ∙ e) in
      contains-append y (source_ids sources) (routing_sources routings) ∙ ground (arith, later)

  -- Whatever the sources and the routings, a schedule is built. Its steps hold every source, none
  -- twice; a source that another depends on is in the same step or in one before it; a bulk step is
  -- of a source in no cycle, and the sources of a cyclic step reach one another.
  pub schedule_of_lem :
      (steps : List ScheduleStep) × (schedule_of sources routings ≡ some steps)
      × IsNodup (concat (map sources_of steps))
      × ((v : ℕ)
          → contains v (source_ids sources) ≡ true
          → contains v (concat (map sources_of steps)) ≡ true)
      × Ordered
          (between (λ i. contains i (source_ids sources)) (build_edges sources routings).adj)
          []
          (map sources_of steps)
      × AreFit
          (λ i. contains i (source_ids sources))
          (build_edges sources routings).has_self_edge
          (build_edges sources routings).adj
          steps
  unfolding schedule_of
  schedule_of_lem =
      let (steps, ran, nodup, all, ordered, fit) =
        build_schedule_from_graph_lem (λ i. contains i (source_ids sources))
          (build_edges sources routings).has_self_edge (build_edges sources routings).adj nodes
          (source_ids sources) (length nodes) nodes-IsClosed
          (λ v h.
            contains-append v (source_ids sources) (routing_sources routings) ∙ ground (arith, h))
          (omega arith) in
      (steps, ran, nodup, (λ v h. all v (ground (arith, h))), ordered, fit)
