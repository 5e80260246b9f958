-- ===== src/State/Listeners.antt =====
-- src/state/StateGroup.cpp: the listeners of the groups and who is told of a change.
pub mod Register
mod Tests
use tanh_lib.Base.{
  ℕ, zero, suc, ◌+◌, ◌<◌, ◌≡◌, ◌⊎◌, ◌↔◌, inl, inr, refl, sym, ap, ◌∙◌, subst, Bool, true, false,
  not, ◌&&◌, ◌||◌, ◌==◌, if◌then◌else◌, List, [], ◌∷◌, ◌++◌, Option, none, some, arith, contains,
  contains-append, IsNodup, contains-append_cases, Bool-cases, Option-cases, clash,
}
use tanh_lib.State.Paths.{Str}
use tanh_lib.State.Groups.{Groups}
use tanh_lib.State.Groups.Tree.{IsAt, IsTree}

-- `NotifyStrategies`
pub data NotifyStrategies : Type 0 where
  all_strategy : NotifyStrategies
  none_strategy : NotifyStrategies
  others_strategy : NotifyStrategies
  self_strategy : NotifyStrategies

-- `ParameterListener`; listeners are named by numbers.
pub record ParameterListener : Type 0 where
  pub strategy : NotifyStrategies
  pub receives_during_gesture : Bool

-- `add_listener`, on `m_object_listeners`.
pub add_listener : List ℕ → ℕ → List ℕ
add_listener listeners l = if contains l listeners then listeners else listeners ++ (l ∷ [])

-- `remove_listener`: the first that is found is erased.
pub remove_listener : List ℕ → ℕ → List ℕ
remove_listener [] l = []
remove_listener (x ∷ xs) l = let rest = remove_listener xs l in if x == l then xs else x ∷ rest

-- `listener == source`
abbrev pub is_source : Option ℕ → ℕ → Bool
is_source none l = false
is_source (some s) l = s == l

-- The first `continue`.
pub skipped : NotifyStrategies → Option ℕ → ℕ → Bool
skipped all_strategy source l = false
skipped none_strategy source l = false
skipped others_strategy source l = is_source source l
skipped self_strategy source l = not (is_source source l)

below_zero : {g : ℕ} → g < 0 → ⊥
below_zero h = omega (arith, h)

module _ (st : Groups) (listeners : ℕ → List ℕ) (listener : ℕ → ParameterListener) where
  abbrev pub strategy_of : Option ℕ → NotifyStrategies
  strategy_of none = all_strategy
  strategy_of (some s) = (listener s).strategy

  -- The loop over the listeners of a group: those that are called, in order.
  pub tell : NotifyStrategies → Option ℕ → Bool → List ℕ → List ℕ
  unfolding skipped
  tell strategy source in_gesture [] = []
  tell strategy source in_gesture (l ∷ ls) =
      let rest = tell strategy source in_gesture ls in
      if skipped strategy source l
      then rest
      else if in_gesture && not (listener l).receives_during_gesture
      then rest
      else l ∷ rest

  pub tell_unless_none : NotifyStrategies → List ℕ → List ℕ
  tell_unless_none none_strategy calls = []
  tell_unless_none all_strategy calls = calls
  tell_unless_none others_strategy calls = calls
  tell_unless_none self_strategy calls = calls

  -- `notify_listeners` of a group and then of its parent, on fuel; the result are the calls.
  pub notify_listeners : ℕ → Bool → Option ℕ → Option ℕ → List ℕ
  unfolding tell tell_unless_none
  notify_listeners fuel in_gesture source none = []
  notify_listeners zero in_gesture source (some g) = []
  notify_listeners (suc fuel) in_gesture source (some g) = tell_unless_none (strategy_of source) (
      tell (strategy_of source) source in_gesture (listeners g)
      ++ notify_listeners fuel in_gesture source (st.group g).parent)

  -- The group or one that it lies in.
  pub data Above : ℕ → ℕ → Type 0 where
    this_group : {g : ℕ} → Above g g
    in_parent : {g p a : ℕ} → (st.group g).parent ≡ some p → Above p a → Above g a

  -- Who is to hear of a change, by the strategy of its source.
  abbrev pub hears_strategy : NotifyStrategies → Option ℕ → ℕ → Bool
  hears_strategy all_strategy source l = true
  hears_strategy none_strategy source l = false
  hears_strategy others_strategy source l = not (is_source source l)
  hears_strategy self_strategy source l = is_source source l

  abbrev pub hears : Bool → Option ℕ → ℕ → Bool
  hears in_gesture source l =
      hears_strategy (strategy_of source) source l
      && (not in_gesture || (listener l).receives_during_gesture)

  tell-contains :
      (strategy : NotifyStrategies) (source : Option ℕ) (in_gesture : Bool) (l : ℕ) (ls : List ℕ)
      → contains l (tell strategy source in_gesture ls) ≡ (
          contains l ls
          && (not (skipped strategy source l)
              && (not in_gesture || (listener l).receives_during_gesture)))
  unfolding tell
  tell-contains strategy source in_gesture l [] = refl
  tell-contains strategy source in_gesture l (x ∷ ls) =
      let rest = tell-contains strategy source in_gesture l ls in
      elim (Bool-cases (x == l)) [
        | inl e ↦
            let at : l ≡ x = ground arith in
            subst
              (λ y. contains y (tell strategy source in_gesture (x ∷ ls)) ≡ (
                contains y (x ∷ ls)
                && (not (skipped strategy source y)
                    && (not in_gesture || (listener y).receives_during_gesture))))
              (sym at)
              (ground (
                arith,
                subst
                    (λ y. contains y (tell strategy source in_gesture ls) ≡ (
                      contains y ls
                      && (not (skipped strategy source y)
                          && (not in_gesture || (listener y).receives_during_gesture))))
                    at rest,
              ))
        | inr e ↦ ground (arith, rest, e)
      ]

  -- A round of `notify_listeners`.
  told : (fuel g l : ℕ) (in_gesture : Bool) (source : Option ℕ) → Bool
  told fuel g l in_gesture source =
      (hears in_gesture source l && contains l (listeners g))
      || contains l (notify_listeners fuel in_gesture source (st.group g).parent)

  notify-none :
      (fuel : ℕ) (in_gesture : Bool) (source : Option ℕ) (o : Option ℕ)
      → strategy_of source ≡ none_strategy
      → notify_listeners fuel in_gesture source o ≡ []
  unfolding notify_listeners tell_unless_none
  notify-none fuel in_gesture source none h = refl
  notify-none zero in_gesture source (some g) h = refl
  notify-none (suc fuel) in_gesture source (some g) h = rw h refl

  unless_none-contains :
      (strategy : NotifyStrategies) (source : Option ℕ) (in_gesture : Bool) (l : ℕ)
      (ls rest : List ℕ)
      → (strategy ≡ none_strategy → rest ≡ [])
      → contains l (tell_unless_none strategy (tell strategy source in_gesture ls ++ rest)) ≡ (
          ((hears_strategy strategy source l
              && (not in_gesture || (listener l).receives_during_gesture))
            && contains l ls)
          || contains l rest)
  unfolding tell_unless_none skipped
  unless_none-contains none_strategy source in_gesture l ls rest h = rw (h refl) refl
  unless_none-contains all_strategy source in_gesture l ls rest h =
      contains-append l (tell all_strategy source in_gesture ls) rest
      ∙ rw (tell-contains all_strategy source in_gesture l ls) (ground arith)
  unless_none-contains others_strategy source in_gesture l ls rest h =
      contains-append l (tell others_strategy source in_gesture ls) rest
      ∙ rw (tell-contains others_strategy source in_gesture l ls) (ground arith)
  unless_none-contains self_strategy source in_gesture l ls rest h =
      contains-append l (tell self_strategy source in_gesture ls) rest
      ∙ rw (tell-contains self_strategy source in_gesture l ls) (ground arith)

  notify-step :
      (fuel g l : ℕ) (in_gesture : Bool) (source : Option ℕ)
      → contains l (notify_listeners (suc fuel) in_gesture source (some g))
        ≡ told fuel g l in_gesture source
  unfolding notify_listeners told
  notify-step fuel g l in_gesture source =
      unless_none-contains (strategy_of source) source in_gesture l (listeners g) _
        (λ h. notify-none fuel in_gesture source (st.group g).parent h)

  told→Above :
      (fuel g l : ℕ) (in_gesture : Bool) (source : Option ℕ)
      → contains l (notify_listeners fuel in_gesture source (some g)) ≡ true
      → (hears in_gesture source l ≡ true)
        × ((a : ℕ) × Above g a × (contains l (listeners a) ≡ true))
  unfolding told notify_listeners
  told→Above zero g l in_gesture source h = (cc)
  told→Above (suc fuel) g l in_gesture source h =
      let step = sym (notify-step fuel g l in_gesture source) ∙ h in
      elim (Bool-cases (hears in_gesture source l && contains l (listeners g))) [
        | inl here ↦ (ground (arith, here), (g, this_group, ground (arith, here)))
        | inr below ↦
            let later : contains l (notify_listeners fuel in_gesture source (st.group g).parent)
                ≡ true =
              ground (arith, step, below) in
            elim (Option-cases (st.group g).parent) [
              | inl top ↦
                  elim (clash later
                    (ap (λ o. contains l (notify_listeners fuel in_gesture source o)) top)) [ ]
              | inr (p, up) ↦
                  let (allowed, (a, over, has)) = told→Above fuel p l in_gesture source (
                    subst (λ o. contains l (notify_listeners fuel in_gesture source o) ≡ true) up
                      later) in
                  (allowed, (a, in_parent up over, has))
            ]
      ]

  Above→told :
      (fuel : ℕ) {g a : ℕ} (ns : List Str) (l : ℕ) (in_gesture : Bool) (source : Option ℕ)
      → IsTree st
      → g < fuel
      → IsAt st g ns
      → Above g a
      → hears in_gesture source l ≡ true
      → contains l (listeners a) ≡ true
      → contains l (notify_listeners fuel in_gesture source (some g)) ≡ true
  unfolding told
  Above→told zero ns l in_gesture source tree b at over allowed has = elim (below_zero b) [ ]
  Above→told (suc fuel) {g} ns l in_gesture source tree b at this_group allowed has =
      notify-step fuel g l in_gesture source ∙ ground (arith, allowed, has)
  Above→told (suc fuel) {g} [] l in_gesture source tree b at (in_parent {p = p} up over) allowed
        has =
      let top : some p ≡ none = sym up ∙ ap (λ x. (st.group x).parent) at ∙ tree.root_parent in (cc)
  Above→told (suc fuel) {g} (n ∷ ns) l in_gesture source tree b at (in_parent {p = p} up over)
        allowed has =
      let same_parent : at.0 ≡ p = ground (arith, sym at.2 ∙ up) in
      let later =
        Above→told fuel ns l in_gesture source tree (omega (arith, at.1, b, same_parent))
          (subst (λ x. IsAt st x ns) same_parent at.4) over allowed has in
      notify-step fuel g l in_gesture source ∙ rw up (ground (arith, later))

  -- A change in a group is told to a listener exactly when it is registered with that group or with
  -- one that the group lies in, the strategy of the change's source lets it hear, and it receives
  -- during a gesture if there is one.
  pub notify_listeners_lem :
      {g : ℕ} (ns : List Str) (l : ℕ) (in_gesture : Bool) (source : Option ℕ)
      → IsTree st
      → g < st.next
      → IsAt st g ns
      → (contains l (notify_listeners st.next in_gesture source (some g)) ≡ true) ↔ (
          (hears in_gesture source l ≡ true)
          × ((a : ℕ) × Above g a × (contains l (listeners a) ≡ true)))
  notify_listeners_lem {g} ns l in_gesture source tree b at = (
    told→Above st.next g l in_gesture source,
    (λ h. Above→told st.next ns l in_gesture source tree b at h.1.1 h.0 h.1.2),
  )
