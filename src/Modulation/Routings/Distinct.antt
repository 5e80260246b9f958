-- ===== src/Modulation/Routings/Distinct.antt =====
-- Lists in which no two elements are the same by a test.
use tanh_lib.Base.{
  ◌≡◌, refl, Bool, true, false, List, [], ◌∷◌, ◌++◌, none, some, if◌then◌else◌, arith, Bool-cases,
  inl, inr,
}
use tanh_lib.Modulation.Routings.{find, erase_if}

abbrev pub Distinct : {A : Type 0} → (A → A → Bool) → List A → Type 0
Distinct same [] = Unit
Distinct same (x ∷ xs) = (find (same x) xs ≡ none) × Distinct same xs

abbrev pub Every : {A : Type 0} → (A → Type 0) → List A → Type 0
Every P [] = Unit
Every P (x ∷ xs) = P x × Every P xs

module _ {A : Type 0} where
  pub find-snoc :
      (p : A → Bool) (xs : List A) (x : A)
      → find p xs ≡ none
      → find p (xs ++ (x ∷ [])) ≡ (if p x then some x else none)
  unfolding find
  find-snoc p [] x h = refl
  find-snoc p (y ∷ xs) x h = ground (arith, find-snoc p xs x)

  pub find-erase_if-none :
      (p q : A → Bool) (xs : List A) → find p xs ≡ none → find p (erase_if q xs) ≡ none
  unfolding find erase_if
  find-erase_if-none p q [] h = refl
  find-erase_if-none p q (x ∷ xs) h = ground (arith, find-erase_if-none p q xs)

  pub find-erase_if_self : (p : A → Bool) (xs : List A) → find p (erase_if p xs) ≡ none
  unfolding find erase_if
  find-erase_if_self p [] = refl
  find-erase_if_self p (x ∷ xs) = ground (arith, find-erase_if_self p xs)

  -- What a test does not erase is found as before by a test that it does not pass.
  pub find-erase_if_other :
      (p q : A → Bool) (xs : List A)
      → ((x : A) → p x ≡ true → q x ≡ false)
      → find p (erase_if q xs) ≡ find p xs
  unfolding find erase_if
  find-erase_if_other p q [] apart = refl
  find-erase_if_other p q (x ∷ xs) apart =
      let rest = find-erase_if_other p q xs apart in
      elim (Bool-cases (p x)) [
        | inl hit ↦ let stays = apart x hit in ground (arith, hit, stays)
        | inr miss ↦ ground (arith, miss, rest)
      ]

  pub Distinct-erase_if :
      (same : A → A → Bool) (q : A → Bool) (xs : List A)
      → Distinct same xs
      → Distinct same (erase_if q xs)
  unfolding erase_if
  Distinct-erase_if same q [] d = tt
  Distinct-erase_if same q (x ∷ xs) d = elim (Bool-cases (q x)) [
    | inl e ↦ rw e (Distinct-erase_if same q xs d.1)
    | inr e ↦ rw e (find-erase_if-none (same x) q xs d.0, Distinct-erase_if same q xs d.1)
  ]

  pub Every-erase_if :
      (P : A → Type 0) (q : A → Bool) (xs : List A) → Every P xs → Every P (erase_if q xs)
  unfolding erase_if
  Every-erase_if P q [] d = tt
  Every-erase_if P q (x ∷ xs) d = elim (Bool-cases (q x)) [
    | inl e ↦ rw e (Every-erase_if P q xs d.1)
    | inr e ↦ rw e (d.0, Every-erase_if P q xs d.1)
  ]

  pub Every-snoc :
      (P : A → Type 0) (xs : List A) (x : A) → Every P xs → P x → Every P (xs ++ (x ∷ []))
  Every-snoc P [] x d h = (h, tt)
  Every-snoc P (y ∷ xs) x d h = (d.0, Every-snoc P xs x d.1 h)

  -- A new element at the end that is the same as no element before it.
  pub Distinct-snoc :
      (same : A → A → Bool) (xs : List A) (x : A)
      → Every (λ y. same y x ≡ false) xs
      → Distinct same xs
      → Distinct same (xs ++ (x ∷ []))
  Distinct-snoc same [] x e d = (unfold find in refl, tt)
  Distinct-snoc same (y ∷ xs) x e d =
      (rw (find-snoc (same y) xs x d.0) (rw (e.0) refl), Distinct-snoc same xs x e.1 d.1)
