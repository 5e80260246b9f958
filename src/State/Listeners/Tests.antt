-- ===== src/State/Listeners/Tests.antt =====
-- A child of the root; listener 1 is registered with both and is the source of the change.
use tanh_lib.Base.{
  ℕ, ◌≡◌, ◌↔◌, refl, true, false, ◌==◌, if◌then◌else◌, List, [], ◌∷◌, some, arith, contains,
}
use tanh_lib.State.Samples.{root_only, root_only-IsTree}
use tanh_lib.State.Groups.Create.{create_group_lem}
use tanh_lib.State.Groups.{Groups, create_group}
use tanh_lib.State.Listeners.{
  ParameterListener, others_strategy, all_strategy, Above, hears, notify_listeners,
  notify_listeners_lem,
}

abbrev with_child : Groups
unfolding create_group
with_child = (create_group root_only 0 (97 ∷ [])).0

abbrev listeners : ℕ → List ℕ
listeners g = if g == 0 then 1 ∷ 2 ∷ [] else 3 ∷ 1 ∷ []

abbrev listener : ℕ → ParameterListener
listener l = record {
  strategy = if l == 1 then others_strategy else all_strategy;
  receives_during_gesture = true;
}

others_told : notify_listeners with_child listeners listener 2 false (some 1) (some 1) ≡ 3 ∷ 2 ∷ []
unfolding with_child notify_listeners create_group
others_told = refl

notify_listeners_lem_example :
    (contains 2
        (notify_listeners with_child listeners listener with_child.next false (some 1) (some 1))
      ≡ true)
    ↔ ((hears with_child listeners listener false (some 1) 2 ≡ true)
        × ((a : ℕ) × Above with_child listeners listener 1 a × (contains 2 (listeners a) ≡ true)))
unfolding with_child create_group
notify_listeners_lem_example =
    notify_listeners_lem with_child listeners listener ((97 ∷ []) ∷ []) 2 false (some 1)
      (create_group_lem root_only-IsTree 0 (97 ∷ []) (omega arith)).0 (omega arith)
      (0, omega arith, refl, refl, refl)
