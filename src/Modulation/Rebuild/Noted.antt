-- ===== src/Modulation/Rebuild/Noted.antt =====
-- Pass 1: every routing between known ends is rejected, or noted on its target; and what is counted.
use tanh_lib.Base.{
  ℕ, ◌≡◌, ◌⊎◌, inl, inr, refl, ap, subst, ◌∙◌, Bool, true, false, not, ◌&&◌, ◌==◌, if◌then◌else◌,
  List, [], ◌∷◌, Option, none, some, update, arith, Bool-cases,
}
use tanh_lib.Modulation.Rebuild.{
  ModulationRouting, Matrix, Target, TargetInfo, Pass, note_routing, is_replace, info_or_new,
  scope_pair, is_rejected, collect_known, collect_ends, collect_one, collect,
}

unfoldable pub same_scope : ℕ → ℕ → Bool
same_scope src tgt = not (src == 0) && (src == tgt)

-- The flags that a routing of this kind needs are set.
unfoldable pub has_flags : TargetInfo → Bool → Bool → Bool
has_flags i same is_replacing =
    if same
    then (i.has_same_scope_routing
        && (if is_replacing then i.same_scope_replace else i.same_scope_additive))
    else (if is_replacing then i.global_replace else i.global_additive)

-- The routing is rejected, or its scopes are accepted and it is noted on its target.
abbrev pub Noted : Pass → ModulationRouting → ℕ → ℕ → Type 0
Noted p r src tgt =
    (p.rejected_routing_ids r.id ≡ true)
    ⊎ ((is_rejected (scope_pair src tgt) ≡ false)
        × (has_flags (info_or_new (p.target_info r.target_id)) (same_scope src tgt)
              (is_replace r.combine_mode)
            ≡ true))

has_flags-note_routing :
    (i : TargetInfo) (same rep : Bool) → has_flags (note_routing same rep i) same rep ≡ true
unfolding note_routing has_flags
has_flags-note_routing i true true = ground arith
has_flags-note_routing i true false = ground arith
has_flags-note_routing i false true = ground arith
has_flags-note_routing i false false = ground arith

has_flags_mono :
    (i : TargetInfo) (same rep s r : Bool)
    → has_flags i same rep ≡ true
    → has_flags (note_routing s r i) same rep ≡ true
unfolding note_routing has_flags
has_flags_mono i true true s r h = ground arith
has_flags_mono i true false s r h = ground arith
has_flags_mono i false true s r h = ground arith
has_flags_mono i false false s r h = ground arith

update_self : {A : Type 0} (f : ℕ → A) (i : ℕ) (a : A) → update f i a i ≡ a
update_self f i a = ground arith

-- After a routing is noted, the information on a target is the old, or the old with it noted.
update-note :
    (f : ℕ → Option TargetInfo) (i : ℕ) (s rep : Bool) (j : ℕ)
    → (update f i (some (note_routing s rep (info_or_new (f i)))) j
        ≡ some (note_routing s rep (info_or_new (f j))))
      ⊎ (update f i (some (note_routing s rep (info_or_new (f i)))) j ≡ f j)
update-note f i s rep j = elim (Bool-cases (i == j)) [
  | inl e ↦
      let same : i ≡ j = ground arith in
      inl (
        subst
          (λ k.
            update f i (some (note_routing s rep (info_or_new (f i)))) k
            ≡ some (note_routing s rep (info_or_new (f k))))
          same (update_self f i _))
  | inr e ↦ inr (rw e)
]

collect_known_self :
    (p : Pass) (r : ModulationRouting) (src tgt : ℕ) → Noted (collect_known p r src tgt) r src tgt
unfolding collect_known same_scope
collect_known_self p r src tgt = elim (Bool-cases (is_rejected (scope_pair src tgt))) [
  | inl e ↦ rw e (inl (update_self p.rejected_routing_ids r.id true))
  | inr e ↦ rw e (
      inr (
        refl,
        ap (λ i. has_flags (info_or_new i) (same_scope src tgt) (is_replace r.combine_mode))
              (update_self p.target_info r.target_id _)
            ∙ has_flags-note_routing _ (same_scope src tgt) (is_replace r.combine_mode),
      ))
]

-- A round keeps what is rejected.
collect_known-rejected :
    (p : Pass) (q : ModulationRouting) (a b id : ℕ)
    → p.rejected_routing_ids id ≡ true
    → (collect_known p q a b).rejected_routing_ids id ≡ true
unfolding collect_known
collect_known-rejected p q a b id h = ground arith

has_flags-cases :
    (i j : Option TargetInfo) (s r same rep : Bool)
    → (j ≡ some (note_routing s r (info_or_new i))) ⊎ (j ≡ i)
    → has_flags (info_or_new i) same rep ≡ true
    → has_flags (info_or_new j) same rep ≡ true
has_flags-cases i j s r same rep (inl e) h = rw e (has_flags_mono (info_or_new i) same rep s r h)
has_flags-cases i j s r same rep (inr e) h = rw e h

collect_known-flags :
    (p : Pass) (q : ModulationRouting) (a b id : ℕ) (same rep : Bool)
    → has_flags (info_or_new (p.target_info id)) same rep ≡ true
    → has_flags (info_or_new ((collect_known p q a b).target_info id)) same rep ≡ true
unfolding collect_known same_scope
collect_known-flags p q a b id same rep h = elim (Bool-cases (is_rejected (scope_pair a b))) [
  | inl e ↦ rw e h
  | inr e ↦ rw e (
      has_flags-cases _ _ _ _ same rep
        (update-note p.target_info q.target_id (same_scope a b) (is_replace q.combine_mode) id) h)
]

collect_known-Noted :
    (p : Pass) (q : ModulationRouting) (a b : ℕ) (r : ModulationRouting) (src tgt : ℕ)
    → Noted p r src tgt
    → Noted (collect_known p q a b) r src tgt
collect_known-Noted p q a b r src tgt (inl h) = inl (collect_known-rejected p q a b r.id h)
collect_known-Noted p q a b r src tgt (inr (k, h)) =
    inr (k, collect_known-flags p q a b r.target_id _ _ h)

collect_ends-Noted :
    (p : Pass) (q : ModulationRouting) (a : Option ℕ) (t : Option Target) (r : ModulationRouting)
    (src tgt : ℕ)
    → Noted p r src tgt
    → Noted (collect_ends p q a t) r src tgt
unfolding collect_ends
collect_ends-Noted p q none t r src tgt h = h
collect_ends-Noted p q (some a) none r src tgt h = h
collect_ends-Noted p q (some a) (some t) r src tgt h = collect_known-Noted p q a t.scope r src tgt h

collect_ends_self :
    (p : Pass) (r : ModulationRouting) (s : Option ℕ) (k : Option Target) (src : ℕ) (t : Target)
    → s ≡ some src
    → k ≡ some t
    → Noted (collect_ends p r s k) r src t.scope
unfolding collect_ends
collect_ends_self p r s k src t e f = rw e (rw f (collect_known_self p r src t.scope))

module _ (m : Matrix) where
  collect_one-Noted :
      (p : Pass) (q r : ModulationRouting) (src tgt : ℕ)
      → Noted p r src tgt
      → Noted (collect_one m p q) r src tgt
  unfolding collect_one
  collect_one-Noted p q r src tgt h =
      collect_ends-Noted p q (m.sources q.source_id) (m.targets q.target_id) r src tgt h

  collect-Noted :
      (p : Pass) (rs : List ModulationRouting) (r : ModulationRouting) (src tgt : ℕ)
      → Noted p r src tgt
      → Noted (collect m p rs) r src tgt
  unfolding collect
  collect-Noted p [] r src tgt h = h
  collect-Noted p (q ∷ rs) r src tgt h =
      collect-Noted (collect_one m p q) rs r src tgt (collect_one-Noted p q r src tgt h)

  collect_one_self :
      (p : Pass) (r : ModulationRouting) (src : ℕ) (t : Target)
      → m.sources r.source_id ≡ some src
      → m.targets r.target_id ≡ some t
      → Noted (collect_one m p r) r src t.scope
  unfolding collect_one
  collect_one_self p r src t e k = collect_ends_self p r _ _ src t e k

  -- The routing stands in the list.
  abbrev pub IsListed : ModulationRouting → List ModulationRouting → Type 0
  IsListed r [] = ⊥
  IsListed r (q ∷ rs) = (r ≡ q) ⊎ IsListed r rs

  pub collect-listed :
      (p : Pass) (rs : List ModulationRouting) (r : ModulationRouting) (src : ℕ) (t : Target)
      → IsListed r rs
      → m.sources r.source_id ≡ some src
      → m.targets r.target_id ≡ some t
      → Noted (collect m p rs) r src t.scope
  unfolding collect
  collect-listed p [] r src t i e k = absurd i
  collect-listed p (q ∷ rs) r src t (inl same) e k =
      subst (λ q. Noted (collect m (collect_one m p q) rs) r src t.scope) same
        (collect-Noted (collect_one m p r) rs r src t.scope (collect_one_self p r src t e k))
  collect-listed p (q ∷ rs) r src t (inr later) e k =
      collect-listed (collect_one m p q) rs r src t later e k
