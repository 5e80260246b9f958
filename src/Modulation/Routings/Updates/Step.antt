-- ===== src/Modulation/Routings/Updates/Step.antt =====
-- Updates of the user's routings and of the published ones, in step.
use tanh_lib.Base.{
  ℕ, ◌≡◌, inl, inr, refl, sym, ap, ◌∙◌, subst, Bool, true, ◌==◌, List, [], ◌∷◌, Option, none, some,
  arith, IsNodup, Bool-cases,
}
use tanh_lib.Dsp.Float.{FloatOps}
use tanh_lib.Modulation.Routings.{
  UserRouting, find, has_id, find_user_routing, find_user_routing_between,
}
use tanh_lib.Modulation.Routings.Distinct.{Every, Distinct}
use tanh_lib.Modulation.Routings.Valid.{same_id}
use tanh_lib.Modulation.Routings.Updates.{
  Modes, TargetRange, LiveRouting, modify, Published, change, update_depth_found,
  update_routing_depth, update_routing_depth_between, update_range_found,
  update_routing_replace_range, update_routing_replace_range_between, update_range_normalized,
  clear_range_found, clear_routing_replace_range, clear_routing_replace_range_between,
  compute_depth_precomputed,
}
use tanh_lib.Modulation.Routings.Updates.Mirror.{
  Agrees, AreMirrored, ids, change-AreMirrored, ids-store_live, find-Distinct, modify-Distinct,
}

module _ {F : Type 0} where
  find-Every :
      (P : UserRouting F → Type 0) (q : UserRouting F → Bool) (rs : List (UserRouting F))
      (r : UserRouting F)
      → find q rs ≡ some r
      → Every P rs
      → P r
  unfolding find
  find-Every P q [] r h every = (cc)
  find-Every P q (x ∷ rs) r h every = elim (Bool-cases (q x)) [
    | inl e ↦ let at : x ≡ r = ground (arith, h, e) in subst P at every.0
    | inr e ↦ find-Every P q rs r (ground (arith, h, e)) every.1
  ]

  modify-Every :
      (P : UserRouting F → Type 0) (id : ℕ) (f : UserRouting F → UserRouting F)
      (rs : List (UserRouting F))
      → ((r : UserRouting F) → P r → P (f r))
      → Every P rs
      → Every P (modify id f rs)
  unfolding modify
  modify-Every P id f [] keeps every = tt
  modify-Every P id f (r ∷ rs) keeps every = elim (Bool-cases (r.id == id)) [
    | inl e ↦ rw e (keeps r every.0, every.1)
    | inr e ↦ rw e (every.0, modify-Every P id f rs keeps every.1)
  ]

module _ {F : Type 0} (ops : FloatOps F) (modes : ℕ → Modes) (target : ℕ → TargetRange F) where
  -- The routings on both sides have distinct identifiers, each published one agrees with the user's,
  -- and every target of a user's routing is there.
  pub record InStep (s : Published F) : Type 0 where
    pub once : IsNodup (ids ops modes target s.live)
    pub mirrored : AreMirrored ops modes target s.table.user_routings s.live
    pub ids_distinct : Distinct same_id s.table.user_routings
    pub targets_known : Every (λ r. s.table.targets r.target_id ≡ true) s.table.user_routings

  change-InStep :
      {s : Published F}
      → InStep s
      → (id : ℕ) (f : UserRouting F → UserRouting F) (g : LiveRouting F → LiveRouting F)
      → ((r : UserRouting F) → (f r).id ≡ r.id)
      → ((p : LiveRouting F) → (g p).id ≡ p.id)
      → ((u : UserRouting F) (p : LiveRouting F)
          → find (has_id id) s.table.user_routings ≡ some u
          → Agrees ops modes target u p
          → Agrees ops modes target (f u) (g p))
      → ((r : UserRouting F) → (f r).target_id ≡ r.target_id)
      → InStep (change s id f g)
  unfolding change
  change-InStep {s} i id f g keeps keeps_live both same_target =
      let rs = s.table.user_routings in
      record {
        once =
            subst IsNodup
              (sym (ids-store_live ops modes target id f g keeps keeps_live rs both s.live)) i.once;
        mirrored =
            change-AreMirrored ops modes target id f g keeps keeps_live rs both s.live i.once
              i.mirrored;
        ids_distinct = modify-Distinct id f keeps rs i.ids_distinct;
        targets_known =
            modify-Every (λ r. s.table.targets r.target_id ≡ true) id f rs
              (λ r h. ap s.table.targets (same_target r) ∙ h) i.targets_known;
      }

  depth_found-InStep :
      {s : Published F}
      → InStep s
      → (q : UserRouting F → Bool) (o : Option (UserRouting F)) (depth : F)
      → find q s.table.user_routings ≡ o
      → InStep (update_depth_found ops modes target o s depth).1
  unfolding update_depth_found
  depth_found-InStep i q none depth found = i
  depth_found-InStep {s} i q (some r) depth found =
      let rs = s.table.user_routings in
      let known =
        find-Every (λ u. s.table.targets u.target_id ≡ true) q rs r found i.targets_known in
      let by_id = find-Distinct q rs r found i.ids_distinct in
      rw known (
        change-InStep i r.id _ _ (λ u. refl) (λ p. refl)
          (λ u p here a.
            let same_routing : r ≡ u = ground (arith, sym by_id ∙ here) in
            record {
              depth_eq = refl;
              min_eq = a.min_eq;
              max_eq = a.max_eq;
              has_eq = a.has_eq;
              precomputed_eq =
                  ap (λ x. compute_depth_precomputed ops (modes x.id) depth (target x.target_id))
                    same_routing;
            })
          (λ u. refl))

  range_found-InStep :
      {s : Published F}
      → InStep s
      → (o : Option (UserRouting F)) (lo hi : F)
      → InStep (update_range_found ops modes target o s lo hi).1
  unfolding update_range_found
  range_found-InStep i none lo hi = i
  range_found-InStep i (some r) lo hi =
      change-InStep i r.id _ _ (λ u. refl) (λ p. refl)
        (λ u p here a. record {
          depth_eq = a.depth_eq;
          min_eq = refl;
          max_eq = refl;
          has_eq = refl;
          precomputed_eq = a.precomputed_eq;
        })
        (λ u. refl)

  clear_found-InStep :
      {s : Published F}
      → InStep s
      → (o : Option (UserRouting F)) → InStep (clear_range_found ops modes target o s).1
  unfolding clear_range_found
  clear_found-InStep i none = i
  clear_found-InStep i (some r) =
      change-InStep i r.id _ _ (λ u. refl) (λ p. refl)
        (λ u p here a. record {
          depth_eq = a.depth_eq;
          min_eq = a.min_eq;
          max_eq = a.max_eq;
          has_eq = refl;
          precomputed_eq = a.precomputed_eq;
        })
        (λ u. refl)

  pub data Update : Type 0 where
    depth_update : ℕ → F → Update
    depth_update_between : ℕ → ℕ → F → Update
    range_update : ℕ → F → F → Update
    range_update_between : ℕ → ℕ → F → F → Update
    range_update_normalized : Option (F → F) → ℕ → ℕ → F → F → Update
    range_clear : ℕ → Update
    range_clear_between : ℕ → ℕ → Update

  unfoldable pub run_update : Published F → Update → Published F
  unfolding update_routing_depth update_routing_depth_between update_routing_replace_range
      update_routing_replace_range_between update_range_normalized clear_routing_replace_range
      clear_routing_replace_range_between
  run_update s (depth_update id depth) = (update_routing_depth ops modes target s id depth).1
  run_update s (depth_update_between source_id target_id depth) =
      (update_routing_depth_between ops modes target s source_id target_id depth).1
  run_update s (range_update id lo hi) =
      (update_routing_replace_range ops modes target s id lo hi).1
  run_update s (range_update_between source_id target_id lo hi) =
      (update_routing_replace_range_between ops modes target s source_id target_id lo hi).1
  run_update s (range_update_normalized from_normalized source_id target_id lo hi) =
      (update_range_normalized ops modes target from_normalized s source_id target_id lo hi).1
  run_update s (range_clear_between source_id target_id) =
      (clear_routing_replace_range_between ops modes target s source_id target_id).1
  run_update s (range_clear id) = (clear_routing_replace_range ops modes target s id).1

  -- An update of a routing's depth or range, by its identifier or its ends and whether it finds a
  -- routing or not, leaves every published routing with the depth and the range of the user's
  -- routing of its identifier, and with the precomputed depth of that depth.
  pub run_update-InStep : {s : Published F} → InStep s → (u : Update) → InStep (run_update s u)
  unfolding run_update update_routing_depth update_routing_depth_between
      update_routing_replace_range update_routing_replace_range_between update_range_normalized
      clear_routing_replace_range clear_routing_replace_range_between find_user_routing
      find_user_routing_between
  run_update-InStep i (depth_update id depth) = depth_found-InStep i _ _ depth refl
  run_update-InStep i (depth_update_between source_id target_id depth) =
      depth_found-InStep i _ _ depth refl
  run_update-InStep i (range_update id lo hi) = range_found-InStep i _ lo hi
  run_update-InStep i (range_update_between source_id target_id lo hi) =
      range_found-InStep i _ lo hi
  run_update-InStep i (range_update_normalized none source_id target_id lo hi) = i
  run_update-InStep i (range_update_normalized (some from_normalized) source_id target_id lo hi) =
      range_found-InStep i _ (from_normalized lo) (from_normalized hi)
  run_update-InStep i (range_clear id) = clear_found-InStep i _
  run_update-InStep i (range_clear_between source_id target_id) = clear_found-InStep i _
