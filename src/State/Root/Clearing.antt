-- ===== src/State/Root/Clearing.antt =====
-- What the clearing of a group deletes.
use tanh_lib.Base.{
  ℕ, ◌≡◌, inl, inr, refl, sym, ap, ◌∙◌, Bool, true, false, if◌then◌else◌, List, [], ◌∷◌, Option,
  none, some, arith, Bool-cases, Option-cases,
}
use tanh_lib.State.Paths.{Str, same}
use tanh_lib.State.Groups.Tree.{same→eq}
use tanh_lib.State.Dict.{lookup, has_key, lookup-erase_all}
use tanh_lib.State.Values.{Casts}
use tanh_lib.State.Root.{State, keys_with, starts_with, clear_group}
use tanh_lib.State.Root.Indexed.{IsIndexed}

module _ {D F I : Type 0} (casts : Casts D F I) where
  same_branches : (b : Bool) (o : Option ℕ) → (if b then o else o) ≡ o
  same_branches true o = refl
  same_branches false o = refl

  has_key-keys_with_none :
      (k prefix : Str) (es : List (Str × ℕ))
      → starts_with k prefix ≡ false
      → has_key k (keys_with prefix es) ≡ false
  has_key-keys_with_none k prefix [] h = refl
  has_key-keys_with_none k prefix ((q, x) ∷ es) h =
      let rest = has_key-keys_with_none k prefix es h in
      elim (Bool-cases (same q k)) [
        | inl e ↦
            let eq = ap (λ a. starts_with a prefix) (same→eq q k e) in ground (arith, rest, eq, h)
        | inr e ↦ ground (arith, rest, e)
      ]

  has_key-keys_with :
      (k prefix : Str) (es : List (Str × ℕ)) (r : ℕ)
      → lookup k es ≡ some r
      → starts_with k prefix ≡ true
      → has_key k (keys_with prefix es) ≡ true
  has_key-keys_with k prefix [] r h begins = (cc)
  has_key-keys_with k prefix ((q, x) ∷ es) r h begins = elim (Bool-cases (same q k)) [
    | inl e ↦
        let eq = ap (λ a. starts_with a prefix) (same→eq q k e) in ground (arith, begins, eq, e)
    | inr e ↦
        let rest = has_key-keys_with k prefix es r (ground (arith, h, e)) begins in
        ground (arith, rest, e)
  ]

  -- Clearing a group deletes every parameter whose key begins with the group's full path, whether a
  -- separator follows or not, and no other.
  pub lookup-clear_group :
      {s : State D F I} (full_path k : Str)
      → IsIndexed s
      → lookup k (clear_group casts s full_path).string_index
        ≡ (if starts_with k full_path then none else lookup k s.string_index)
  unfolding clear_group
  lookup-clear_group {s} full_path k sync =
      let keys = keys_with full_path s.storage in
      let gone = lookup-erase_all k keys s.string_index in
      elim (Bool-cases (starts_with k full_path)) [
        | inl begins ↦ gone ∙ (elim (Option-cases (lookup k s.string_index)) [
          | inl miss ↦ rw miss (rw begins (same_branches (has_key k keys) none))
          | inr (r, hit) ↦ rw begins (
              rw (has_key-keys_with k full_path s.storage r (sym (sync.index_eq k) ∙ hit) begins)
                refl)
        ])
        | inr differs ↦
            gone ∙ rw differs (rw (has_key-keys_with_none k full_path s.storage differs) refl)
      ]
