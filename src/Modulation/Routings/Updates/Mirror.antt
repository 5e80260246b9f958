-- ===== src/Modulation/Routings/Updates/Mirror.antt =====
-- What the audio thread reads of a routing agrees with the user's routing, after every update.
use tanh_lib.Base.{
  ℕ, ◌≡◌, inl, inr, refl, sym, ap, ◌∙◌, subst, Bool, true, false, ◌==◌, if◌then◌else◌, List, [],
  ◌∷◌, none, some, arith, contains, IsNodup, Bool-cases,
}
use tanh_lib.Modulation.Routings.{UserRouting, find, has_id}
use tanh_lib.Dsp.Float.{FloatOps}
use tanh_lib.Modulation.Routings.Distinct.{Distinct}
use tanh_lib.Modulation.Routings.Valid.{same_id}
use tanh_lib.Modulation.Routings.Updates.{
  LiveRouting, Modes, TargetRange, compute_depth_precomputed, modify, store_live,
}

module _ {F : Type 0} where
  module _ (id : ℕ) (f : UserRouting F → UserRouting F)
      (keeps : (r : UserRouting F) → (f r).id ≡ r.id) where
    find-modify_self :
        (rs : List (UserRouting F)) (u : UserRouting F)
        → find (has_id id) rs ≡ some u
        → find (has_id id) (modify id f rs) ≡ some (f u)
    unfolding find modify
    find-modify_self [] u h = (cc)
    find-modify_self (r ∷ rs) u h = elim (Bool-cases (r.id == id)) [
      | inl e ↦
          let at : r ≡ u = ground (arith, h, e) in
          let id_eq = keeps r in
          let hit : ((f r).id == id) ≡ true = ground (arith, id_eq, e) in
          rw e (rw hit (ap (λ x. some (f x)) at))
      | inr e ↦ let rest = find-modify_self rs u (ground (arith, h, e)) in rw e (rw e rest)
    ]

    find-modify_other :
        (k : ℕ) (rs : List (UserRouting F))
        → (k == id) ≡ false
        → find (has_id k) (modify id f rs) ≡ find (has_id k) rs
    unfolding find modify
    find-modify_other k [] h = refl
    find-modify_other k (r ∷ rs) h = elim (Bool-cases (r.id == id)) [
      | inl e ↦
          let id_eq = keeps r in
          let miss : (r.id == k) ≡ false = ground (arith, e, h) in
          let missed : ((f r).id == k) ≡ false = ground (arith, e, h, id_eq) in
          rw e (rw missed (rw miss refl))
      | inr e ↦
          let rest = find-modify_other k rs h in
          rw e (ap (λ o. if r.id == k then some r else o) rest)
    ]

    find-id :
        (k : ℕ) (rs : List (UserRouting F)) (u : UserRouting F)
        → find (has_id k) rs ≡ some u
        → u.id ≡ k
    unfolding find
    find-id k [] u h = (cc)
    find-id k (r ∷ rs) u h = elim (Bool-cases (r.id == k)) [
      | inl e ↦ let at : r ≡ u = ground (arith, h, e) in ap (λ x. x.id) (sym at) ∙ ground (arith, e)
      | inr e ↦ find-id k rs u (ground (arith, h, e))
    ]

    find-modify-none :
        (k : ℕ) (rs : List (UserRouting F))
        → find (has_id k) rs ≡ none
        → find (has_id k) (modify id f rs) ≡ none
    unfolding find modify
    find-modify-none k [] h = refl
    find-modify-none k (r ∷ rs) h =
        let id_eq = keeps r in
        let rest = find-modify-none k rs (ground (arith, h)) in
        let miss : (r.id == k) ≡ false = ground (arith, h) in
        let later : find (has_id k) rs ≡ none = ground (arith, h) in
        let missed : ((f r).id == k) ≡ false = ground (arith, miss, id_eq) in
        elim (Bool-cases (r.id == id)) [
          | inl e ↦ rw e (rw missed later)
          | inr e ↦ rw e (rw miss rest)
        ]

    pub modify-Distinct :
        (rs : List (UserRouting F)) → Distinct same_id rs → Distinct same_id (modify id f rs)
    unfolding modify
    modify-Distinct [] d = tt
    modify-Distinct (r ∷ rs) d = elim (Bool-cases (r.id == id)) [
      | inl e ↦ rw e (ap (λ k. find (has_id k) rs) (keeps r) ∙ d.0, d.1)
      | inr e ↦ rw e (find-modify-none r.id rs d.0, modify-Distinct rs d.1)
    ]

  -- With distinct identifiers, what is found by any test is found by its identifier.
  pub find-Distinct :
      (q : UserRouting F → Bool) (rs : List (UserRouting F)) (r : UserRouting F)
      → find q rs ≡ some r
      → Distinct same_id rs
      → find (has_id r.id) rs ≡ some r
  unfolding find
  find-Distinct q [] r h d = (cc)
  find-Distinct q (x ∷ rs) r h d = elim (Bool-cases (q x)) [
    | inl e ↦
        let at : x ≡ r = ground (arith, h, e) in
        subst (λ y. find (has_id y.id) (x ∷ rs) ≡ some y) at (ground arith)
    | inr e ↦
        let found = find-Distinct q rs r (ground (arith, h, e)) d.1 in
        elim (Bool-cases (x.id == r.id)) [
          | inl hit ↦
              let eq : x.id ≡ r.id = ground (arith, hit) in
              let gone = sym d.0 ∙ ap (λ k. find (has_id k) rs) eq ∙ found in (cc)
          | inr miss ↦ rw miss found
        ]
  ]

module _ {F : Type 0} (ops : FloatOps F) (modes : ℕ → Modes) (target : ℕ → TargetRange F) where
  -- The values of a routing on both sides; the precomputed depth is that of the user's depth.
  pub record Agrees (u : UserRouting F) (p : LiveRouting F) : Type 0 where
    pub depth_eq : u.depth ≡ p.depth
    pub min_eq : u.replace_range_min ≡ p.replace_range_min
    pub max_eq : u.replace_range_max ≡ p.replace_range_max
    pub has_eq : u.has_replace_range ≡ p.has_replace_range
    pub precomputed_eq :
        p.depth_abs_precomputed
        ≡ compute_depth_precomputed ops (modes u.id) u.depth (target u.target_id)

  abbrev pub IsMirrored : List (UserRouting F) → LiveRouting F → Type 0
  IsMirrored rs p = (u : UserRouting F) × (find (has_id p.id) rs ≡ some u) × Agrees u p

  abbrev pub AreMirrored : List (UserRouting F) → List (LiveRouting F) → Type 0
  AreMirrored rs [] = Unit
  AreMirrored rs (p ∷ ps) = IsMirrored rs p × AreMirrored rs ps

  abbrev pub ids : List (LiveRouting F) → List ℕ
  ids [] = []
  ids (p ∷ ps) = p.id ∷ ids ps

  module _ (id : ℕ) (f : UserRouting F → UserRouting F) (g : LiveRouting F → LiveRouting F)
      (keeps : (r : UserRouting F) → (f r).id ≡ r.id)
      (keeps_live : (p : LiveRouting F) → (g p).id ≡ p.id) (rs : List (UserRouting F))
      (both : (u : UserRouting F) (p : LiveRouting F)
        → find (has_id id) rs ≡ some u
        → Agrees u p
        → Agrees (f u) (g p)) where
    untouched :
        (ps : List (LiveRouting F))
        → contains id (ids ps) ≡ false
        → AreMirrored rs ps
        → AreMirrored (modify id f rs) ps
    untouched [] h m = tt
    untouched (p ∷ ps) h ((u, found, agree), rest) =
        let apart : (p.id == id) ≡ false = ground (arith, h) in
        (
          (u, find-modify_other id f keeps p.id rs apart ∙ found, agree),
          untouched ps (ground (arith, h)) rest,
        )

    pub change-AreMirrored :
        (ps : List (LiveRouting F))
        → IsNodup (ids ps)
        → AreMirrored rs ps
        → AreMirrored (modify id f rs) (store_live id g ps)
    unfolding store_live
    change-AreMirrored [] n m = tt
    change-AreMirrored (p ∷ ps) (once, n) ((u, found, agree), rest) =
        elim (Bool-cases (p.id == id)) [
          | inl e ↦
              let at : p.id ≡ id = ground (arith, e) in
              let here : find (has_id id) rs ≡ some u =
                ap (λ k. find (has_id k) rs) (sym at) ∙ found in
              let found' : find (has_id id) (modify id f rs) ≡ some (f u) =
                find-modify_self id f keeps rs u (ap (λ k. find (has_id k) rs) (sym at) ∙ found) in
              rw e (
                (
                  f u,
                  ap (λ k. find (has_id k) (modify id f rs)) (keeps_live p ∙ at) ∙ found',
                  both u p here agree,
                ),
                untouched ps (ap (λ k. contains k (ids ps)) (sym at) ∙ once) rest,
              )
          | inr e ↦ rw e (
            (u, find-modify_other id f keeps p.id rs e ∙ found, agree),
            change-AreMirrored ps n rest,
          )
        ]

    pub ids-store_live : (ps : List (LiveRouting F)) → ids (store_live id g ps) ≡ ids ps
    unfolding store_live
    ids-store_live [] = refl
    ids-store_live (p ∷ ps) = elim (Bool-cases (p.id == id)) [
      | inl e ↦ rw e (ap (λ k. k ∷ ids ps) (keeps_live p))
      | inr e ↦ rw e (ap (◌∷◌ p.id) (ids-store_live ps))
    ]
