-- ===== src/State/Listeners/Register.antt =====
-- `add_listener` and `remove_listener`: a group has each listener once.
use tanh_lib.Base.{
  ℕ, ◌≡◌, inl, inr, refl, sym, ap, ◌∙◌, false, ◌||◌, ◌==◌, List, [], ◌∷◌, arith, contains,
  contains-append, IsNodup, IsNodup-append, Bool-cases,
}
use tanh_lib.State.Listeners.{add_listener, remove_listener}

contains-remove_listener :
    (ls : List ℕ) (l k : ℕ) → (l == k) ≡ false → contains k (remove_listener ls l) ≡ contains k ls
unfolding remove_listener
contains-remove_listener [] l k h = refl
contains-remove_listener (x ∷ ls) l k h =
    let rest = contains-remove_listener ls l k h in
    elim (Bool-cases (x == l)) [ inl e ↦ ground (arith, e, h) | inr e ↦ ground (arith, e, rest) ]

remove_listener-gone :
    (ls : List ℕ) (l k : ℕ) → contains k ls ≡ false → contains k (remove_listener ls l) ≡ false
unfolding remove_listener
remove_listener-gone [] l k h = refl
remove_listener-gone (x ∷ ls) l k h =
    let rest = remove_listener-gone ls l k (ground (arith, h)) in
    elim (Bool-cases (x == l)) [ inl e ↦ ground (arith, e, h) | inr e ↦ ground (arith, e, rest, h) ]

-- Adding a listener, once or again, leaves each listener there once, and adds this one only.
pub add_listener_lem :
    (ls : List ℕ) (l : ℕ)
    → IsNodup ls
    → IsNodup (add_listener ls l)
      × ((k : ℕ) → contains k (add_listener ls l) ≡ ((l == k) || contains k ls))
unfolding add_listener
add_listener_lem ls l n = elim (Bool-cases (contains l ls)) [
  | inl has ↦ rw has (
    n,
    (λ k. elim (Bool-cases (l == k)) [
      | inl e ↦
          let at : l ≡ k = ground arith in ap (λ x. contains x ls) (sym at) ∙ ground (arith, has, e)
      | inr e ↦ ground (arith, e)
    ]),
  )
  | inr new ↦ rw new (
    IsNodup-append ls (l ∷ []) n (refl, tt)
        (λ a h. elim (Bool-cases (l == a)) [
          | inl e ↦
              let at : l ≡ a = ground arith in
              let eq = ap (λ x. contains x ls) at in ground (arith, eq, h, new)
          | inr e ↦ ground (arith, e)
        ]),
    (λ k. contains-append k ls (l ∷ []) ∙ ground arith),
  )
]

-- Removing a listener leaves each of the others there once, and this one no more.
pub remove_listener_lem :
    (ls : List ℕ) (l : ℕ)
    → IsNodup ls
    → IsNodup (remove_listener ls l)
      × (contains l (remove_listener ls l) ≡ false)
      × ((k : ℕ) → (l == k) ≡ false → contains k (remove_listener ls l) ≡ contains k ls)
unfolding remove_listener
remove_listener_lem [] l n = (tt, refl, (λ k h. refl))
remove_listener_lem (x ∷ ls) l (apart, n) =
    let (nodup, gone, others) = remove_listener_lem ls l n in
    elim (Bool-cases (x == l)) [
      | inl e ↦
          let at : x ≡ l = ground arith in
          rw e (n, ap (λ y. contains y ls) (sym at) ∙ apart, (λ k h. ground (arith, e, h)))
      | inr e ↦ rw e (
        (remove_listener-gone ls l x apart, nodup),
        ground (arith, e, gone),
        (λ k h. let other = others k h in ground (arith, other)),
      )
    ]
