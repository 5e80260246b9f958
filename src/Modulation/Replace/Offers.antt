-- ===== src/Modulation/Replace/Offers.antt =====
-- What a routing offers for a contended sample, and the best of several offers.
use tanh_lib.Base.{
  ℕ, ◌≡◌, ◌⊎◌, refl, Bool, false, ◌&&◌, ◌||◌, if◌then◌else◌, ltb, ◌==◌, Option-cases, Bool-cases,
  subst, inl, inr, List, [], ◌∷◌, Option, none, some, arith,
}
use tanh_lib.Modulation.Replace.{Routing, live_freshness, is_hold}

-- What a routing offers for a sample.
pub record Offer (F : Type 0) : Type 0 where
  pub prio : ℕ
  pub fresh : ℕ
  pub amount : F

-- A live routing offers its value, fresh since its phase began. An inactive one that holds, and
-- has been active, offers the value held, fresh since it was last active.
unfoldable pub offer : {F : Type 0} → Routing F → ℕ → F → Bool → Option (Offer F)
unfolding is_hold
offer r now value src_active =
    if src_active
    then some (record {
      prio = r.replace_priority;
      fresh = live_freshness (if r.was_active_prev then r.active_phase_start else now);
      amount = value;
    })
    else (if is_hold r.combine_mode && r.held_mono_active
        then some (record {
          prio = r.replace_hold_priority;
          fresh = r.last_active_sample;
          amount = r.held_value;
        })
        else none)

-- The order on priority, then freshness.
unfoldable pub is_below : {F : Type 0} → Offer F → Offer F → Bool
is_below o p = ltb o.prio p.prio || ((o.prio == p.prio) && ltb o.fresh p.fresh)

-- The best of a list of offers: of equals, the last.
unfoldable pub winner : {F : Type 0} → List (Option (Offer F)) → Option (Offer F)
winner [] = none
winner (none ∷ os) = winner os
winner (some o ∷ os) = elim (winner os) [
  | none ↦ some o
  | some w ↦ if is_below w o then some o else some w
]

-- No offer of the list is above `w`.
abbrev pub NoneAbove : {F : Type 0} → Offer F → List (Option (Offer F)) → Type 0
NoneAbove w [] = Unit
NoneAbove w (none ∷ os) = NoneAbove w os
NoneAbove w (some o ∷ os) = (is_below w o ≡ false) × NoneAbove w os

-- `w` is one of the offers.
abbrev pub IsOffered : {F : Type 0} → Offer F → List (Option (Offer F)) → Type 0
IsOffered w [] = ⊥
IsOffered w (o ∷ os) = (o ≡ some w) ⊎ IsOffered w os

-- Nothing is offered.
abbrev pub NoOffer : {F : Type 0} → List (Option (Offer F)) → Type 0
NoOffer [] = Unit
NoOffer (none ∷ os) = NoOffer os
NoOffer (some o ∷ os) = ⊥

NoneAbove-mono :
    {F : Type 0} (v w : Offer F) (os : List (Option (Offer F)))
    → is_below w v ≡ false
    → NoneAbove v os
    → NoneAbove w os
unfolding is_below
NoneAbove-mono v w [] h a = tt
NoneAbove-mono v w (none ∷ os) h a = NoneAbove-mono v w os h a
NoneAbove-mono v w (some o ∷ os) h a = (ground (arith, a.0), NoneAbove-mono v w os h a.1)

-- The best offer of a list: one of the list with none above it, or `none` if nothing is offered.
abbrev pub IsBest : {F : Type 0} → Option (Offer F) → List (Option (Offer F)) → Type 0
IsBest none os = NoOffer os
IsBest (some w) os = IsOffered w os × NoneAbove w os

NoOffer-NoneAbove :
    {F : Type 0} (w : Offer F) (os : List (Option (Offer F))) → NoOffer os → NoneAbove w os
NoOffer-NoneAbove w [] h = tt
NoOffer-NoneAbove w (none ∷ os) h = NoOffer-NoneAbove w os h
NoOffer-NoneAbove w (some o ∷ os) h = absurd h

better-IsBest :
    {F : Type 0} (o w : Offer F) (os : List (Option (Offer F)))
    → IsOffered w os
    → NoneAbove w os
    → IsBest (if is_below w o then some o else some w) (some o ∷ os)
better-IsBest o w os m a = elim (Bool-cases (is_below w o)) [
  | inl e ↦ rw e (
    inl refl,
    (unfold is_below in ground arith, NoneAbove-mono w o os (unfold is_below in ground arith) a),
  )
  | inr e ↦ rw e (inr m, (e, a))
]

pub winner-IsBest : {F : Type 0} (os : List (Option (Offer F))) → IsBest (winner os) os
unfolding winner
winner-IsBest [] = tt
winner-IsBest (none ∷ os) = elim (Option-cases (winner os)) [
  | inl e ↦ rw e (subst (λ b. IsBest b os) e (winner-IsBest os))
  | inr (w, e) ↦ let b = subst (λ b. IsBest b os) e (winner-IsBest os) in rw e (inr b.0, b.1)
]
winner-IsBest (some o ∷ os) = elim (Option-cases (winner os)) [
  | inl e ↦ rw e (
    inl refl,
    (
      unfold is_below in ground arith,
      NoOffer-NoneAbove o os (subst (λ b. IsBest b os) e (winner-IsBest os)),
    ),
  )
  | inr (w, e) ↦
      let b = subst (λ b. IsBest b os) e (winner-IsBest os) in rw e (better-IsBest o w os b.0 b.1)
]
