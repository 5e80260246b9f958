-- ===== src/Modulation/Schedule/Tests.antt =====
-- A graph of five nodes: 1 and 2 modulate one another, 3 itself, 0 follows 1 and 4.
use tanh_lib.Base.{
  ℕ, ◌≡◌, refl, true, ltb, ◌==◌, if◌then◌else◌, List, [], ◌∷◌, none, some, map, contains, concat,
  IsNodup, arith,
}
use tanh_lib.Modulation.Schedule.Inv.{Ordered}
use tanh_lib.Modulation.Schedule.Connect.{IsClosed}
use tanh_lib.Modulation.Schedule.Components.{AreClasses, connect_all_lem}
use tanh_lib.Modulation.Schedule.Steps.{sources_of, between, AreFit}
use tanh_lib.Modulation.Schedule.Dependencies.{
  Source, Ends, source_ids, build_owner, build_edges, any_depends, schedule_of, schedule_of_lem,
  build_edges-adj,
}
use tanh_lib.Modulation.Schedule.{
  Tarjan, start, Graph, ScheduleStep, bulk_step, cyclic_step, build_schedule_from_graph,
  connect_all,
}

abbrev graph : Graph
graph n = if n == 0 then 1 ∷ 4 ∷ [] else if n == 1 then 2 ∷ [] else if n == 2 then 1 ∷ [] else []

schedule_runs :
    build_schedule_from_graph 6 (λ n. ltb n 5) (0 ∷ 1 ∷ 2 ∷ 3 ∷ 4 ∷ []) graph (λ n. n == 3)
    ≡ some (cyclic_step (2 ∷ 1 ∷ []) ∷ bulk_step 4 ∷ bulk_step 0 ∷ cyclic_step (3 ∷ []) ∷ [])
unfolding build_schedule_from_graph
schedule_runs = refl

abbrev nodes : List ℕ
nodes = 0 ∷ 1 ∷ 2 ∷ 3 ∷ 4 ∷ []

graph-IsClosed : IsClosed graph nodes
graph-IsClosed x y h e = ground arith

connect_all_lem_example :
    (t : Tarjan) × (connect_all graph 5 nodes start ≡ some t)
    × IsNodup (concat t.sccs)
    × ((v : ℕ) → contains v nodes ≡ true → contains v (concat t.sccs) ≡ true)
    × Ordered graph [] t.sccs
    × AreClasses graph t.sccs
connect_all_lem_example =
    connect_all_lem graph nodes nodes 5 graph-IsClosed (λ v h. h) (omega arith)

-- Two sources that own parameters of which the other is a source, and a third that follows one.
abbrev sources : List Source
sources =
    record { id = 0; parameter_keys = 10 ∷ [] }
    ∷ record { id = 1; parameter_keys = 11 ∷ 12 ∷ [] }
    ∷ record { id = 2; parameter_keys = 13 ∷ [] }
    ∷ []

abbrev routings : List Ends
routings =
    record { source_id = 0; target_id = 11 }
    ∷ record { source_id = 1; target_id = 10 }
    ∷ record { source_id = 1; target_id = 13 }
    ∷ record { source_id = 2; target_id = 99 }
    ∷ []

cycle_first : schedule_of sources routings ≡ some (cyclic_step (1 ∷ 0 ∷ []) ∷ bulk_step 2 ∷ [])
unfolding schedule_of build_schedule_from_graph
cycle_first = refl

schedule_of_lem_example :
    (steps : List ScheduleStep) × (schedule_of sources routings ≡ some steps)
    × IsNodup (concat (map sources_of steps))
    × ((v : ℕ)
        → contains v (source_ids sources) ≡ true
        → contains v (concat (map sources_of steps)) ≡ true)
    × Ordered
        (between (λ i. contains i (source_ids sources)) (build_edges sources routings).adj)
        []
        (map sources_of steps)
    × AreFit
        (λ i. contains i (source_ids sources))
        (build_edges sources routings).has_self_edge
        (build_edges sources routings).adj
        steps
schedule_of_lem_example = schedule_of_lem sources routings

build_edges-adj_example :
    contains 0 ((build_edges sources routings).adj 1)
    ≡ any_depends (build_owner (λ _. none) sources) 1 0 routings
build_edges-adj_example = build_edges-adj sources routings 1 0
