-- ===== src/Modulation/Replace/Winner.antt =====
-- Which routing wins a contended sample: the one with the highest priority, then the freshest,
-- then the one that is applied last.
use tanh_lib.Base.{
  ℕ, ◌^◌, ◌<◌, ◌≡◌, refl, ◌∙◌, Bool, true, false, if◌then◌else◌, Option-cases, inl, inr, List, [],
  ◌∷◌, Option, none, some, arith,
}
use tanh_lib.Modulation.Replace.{Routing, Slot, gated_write, track, apply_contended}
use tanh_lib.Modulation.Replace.Offers.{Offer, offer, is_below, winner, IsBest, winner-IsBest}

-- A routing and what it is given for the sample: the value, and whether its source is active.
pub record Input (F : Type 0) : Type 0 where
  pub routing : Routing F
  pub value : F
  pub is_live : Bool

-- The writes of several routings to one sample, in the order of the schedule.
pub apply_all : {F : Type 0} → Slot F → ℕ → List (Input F) → Slot F
apply_all s now [] = s
apply_all s now (x ∷ xs) = apply_all (apply_contended x.routing s now x.value x.is_live).1 now xs

abbrev pub offers : {F : Type 0} → ℕ → List (Input F) → List (Option (Offer F))
offers now [] = []
offers now (x ∷ xs) = offer x.routing now x.value x.is_live ∷ offers now xs

-- The write of an offer, if there is one.
pub commit : {F : Type 0} → Slot F → Option (Offer F) → Slot F
commit s none = s
commit s (some o) = gated_write s o.prio o.fresh o.amount

-- `apply_contended` writes its offer through the gate.
pub apply_contended-commit :
    {F : Type 0} (r : Routing F) (s : Slot F) (now : ℕ) (value : F) (src_active : Bool)
    → (apply_contended r s now value src_active).1 ≡ commit s (offer r now value src_active)
unfolding apply_contended offer commit
apply_contended-commit r s now value src_active = ground arith

commit-gated_write :
    {F : Type 0} (s : Slot F) (o w : Offer F)
    → commit (commit s (some o)) (some w) ≡ commit s (if is_below w o then some o else some w)
unfolding commit gated_write is_below
commit-gated_write s o w = ground arith

commit-cons :
    {F : Type 0} (s : Slot F) (o : Option (Offer F)) (os : List (Option (Offer F)))
    → commit (commit s o) (winner os) ≡ commit s (winner (o ∷ os))
unfolding winner
commit-cons s none os = unfold commit in refl
commit-cons s (some o) os = elim (Option-cases (winner os)) [
  | inl e ↦ rw e (unfold commit in refl)
  | inr (w, e) ↦ rw e (commit-gated_write s o w)
]

-- However many routings write to a sample, and in whatever order, the sample ends as if only the
-- winner had written.
pub apply_all-winner :
    {F : Type 0} (s : Slot F) (now : ℕ) (xs : List (Input F))
    → apply_all s now xs ≡ commit s (winner (offers now xs))
unfolding apply_all
apply_all-winner s now [] = unfold winner commit in refl
apply_all-winner s now (x ∷ xs) =
    let o = offer x.routing now x.value x.is_live in
    rw (apply_contended-commit x.routing s now x.value x.is_live)
      (apply_all-winner (commit s o) now xs ∙ commit-cons s o (offers now xs))

-- The slot that holds an offer.
abbrev pub holding : {F : Type 0} → Offer F → Slot F
holding o = record { sample = o.amount; active = true; priority = o.prio; freshness = o.fresh }

-- On a cleared slot the gate lets every offer through.
pub commit-cleared :
    {F : Type 0} (s : Slot F) (o : Offer F)
    → s.priority ≡ 0
    → s.freshness ≡ 0
    → commit s (some o) ≡ holding o
unfolding commit gated_write
commit-cleared s o p q = ground arith

-- A slot after the best offer, if there was one, is written to it.
abbrev pub written : {F : Type 0} → Slot F → Option (Offer F) → Slot F
written s none = s
written s (some w) = holding w

commit-written :
    {F : Type 0} (s : Slot F) (o : Option (Offer F))
    → s.priority ≡ 0
    → s.freshness ≡ 0
    → commit s o ≡ written s o
commit-written s none p q = unfold commit in refl
commit-written s (some o) p q = commit-cleared s o p q

-- On a slot cleared to priority 0 and freshness 0, any list of routings, applied in order, leaves
-- the slot holding the value, the priority and the freshness of one of the offers made, and no
-- offer of the list has a higher priority, or the same priority and is fresher; if no routing
-- offers anything, the slot stays as it was.
pub apply_all-IsBest :
    {F : Type 0} (s : Slot F) (now : ℕ) (xs : List (Input F))
    → s.priority ≡ 0
    → s.freshness ≡ 0
    → (b : Option (Offer F)) × IsBest b (offers now xs) × (apply_all s now xs ≡ written s b)
apply_all-IsBest s now xs p q =
    let b = winner (offers now xs) in
    (b, winner-IsBest (offers now xs), apply_all-winner s now xs ∙ commit-written s b p q)

-- On a slot cleared to priority 0 and freshness 0, a routing whose source is live and one that
-- holds, the hold priority of the second equal to the priority of the first, leave the value of the
-- live one, in whichever order they are applied, as long as the second was last active before
-- sample 2 ^ 63.
pub live_beats_held :
    {F : Type 0} (s : Slot F) (now : ℕ) (live held : Input F)
    → s.priority ≡ 0
    → s.freshness ≡ 0
    → live.is_live ≡ true
    → held.is_live ≡ false
    → live.routing.replace_priority ≡ held.routing.replace_hold_priority
    → held.routing.last_active_sample < 2 ^ 63
    → ((apply_all s now (live ∷ held ∷ [])).sample ≡ live.value)
      × ((apply_all s now (held ∷ live ∷ [])).sample ≡ live.value)
unfolding apply_all apply_contended track gated_write
live_beats_held s now live held p q l h e b = ground arith
