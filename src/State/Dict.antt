-- ===== src/State/Dict.antt =====
-- Maps whose keys are strings, as lists of entries in the order of insertion.
use tanh_lib.Base.{
  ℕ, ◌≡◌, inl, inr, refl, sym, ap, Bool, true, false, ◌||◌, if◌then◌else◌, List, [], ◌∷◌, Option,
  none, some, arith, Bool-cases,
}
use tanh_lib.State.Paths.{Str, same}
use tanh_lib.State.Groups.Tree.{same→eq}

-- `idx.find(key)`
abbrev pub lookup : Str → List (Str × ℕ) → Option ℕ
lookup key [] = none
lookup key ((k, r) ∷ es) = let rest = lookup key es in if same k key then some r else rest

-- `idx[key] = r`
abbrev pub assign : Str → ℕ → List (Str × ℕ) → List (Str × ℕ)
assign key r [] = (key, r) ∷ []
assign key r ((k, q) ∷ es) =
    let rest = assign key r es in if same k key then (k, r) ∷ es else (k, q) ∷ rest

-- `storage.emplace(key, r)`, which leaves an entry that is there.
abbrev pub emplace : Str → ℕ → List (Str × ℕ) → List (Str × ℕ)
emplace key r [] = (key, r) ∷ []
emplace key r ((k, q) ∷ es) =
    let rest = emplace key r es in if same k key then (k, q) ∷ es else (k, q) ∷ rest

-- `idx.erase(key)`
abbrev pub erase : Str → List (Str × ℕ) → List (Str × ℕ)
erase key [] = []
erase key ((k, q) ∷ es) = let rest = erase key es in if same k key then rest else (k, q) ∷ rest

abbrev pub erase_all : List Str → List (Str × ℕ) → List (Str × ℕ)
erase_all [] es = es
erase_all (k ∷ ks) es = erase_all ks (erase k es)

abbrev pub has_key : Str → List Str → Bool
has_key key [] = false
has_key key (k ∷ ks) = same k key || has_key key ks

pub same_sym : (a b : Str) → same a b ≡ same b a
same_sym [] [] = refl
same_sym [] (d ∷ ds) = refl
same_sym (c ∷ cs) [] = refl
same_sym (c ∷ cs) (d ∷ ds) = let rest = same_sym cs ds in ground (arith, rest)

-- A key that is like one of two equal ones is like the other.
pub same-same : (a b k : Str) → same a b ≡ true → same a k ≡ same b k
same-same a b k h = ap (λ x. same x k) (same→eq a b h)

pub lookup-assign :
    (key k : Str) (r : ℕ) (es : List (Str × ℕ))
    → lookup k (assign key r es) ≡ (if same key k then some r else lookup k es)
lookup-assign key k r [] = refl
lookup-assign key k r ((q, s) ∷ es) = elim (Bool-cases (same q key)) [
  | inl e ↦ let eq = same-same q key k e in ground (arith, e, eq)
  | inr e ↦
      let rest = lookup-assign key k r es in
      elim (Bool-cases (same key k)) [
        | inl hit ↦
            let eq = ap (same q) (sym (same→eq key k hit)) in ground (arith, e, rest, hit, eq)
        | inr miss ↦ ground (arith, e, rest, miss)
      ]
]

pub lookup-emplace :
    (key k : Str) (r : ℕ) (es : List (Str × ℕ))
    → lookup key es ≡ none
    → lookup k (emplace key r es) ≡ (if same key k then some r else lookup k es)
lookup-emplace key k r [] h = refl
lookup-emplace key k r ((q, s) ∷ es) h = elim (Bool-cases (same q key)) [
  | inl e ↦ ground (arith, e, h)
  | inr e ↦
      let rest = lookup-emplace key k r es (ground (arith, e, h)) in
      elim (Bool-cases (same key k)) [
        | inl hit ↦
            let eq = ap (same q) (sym (same→eq key k hit)) in ground (arith, e, rest, hit, eq)
        | inr miss ↦ ground (arith, e, rest, miss)
      ]
]

lookup-erase :
    (key k : Str) (es : List (Str × ℕ))
    → lookup k (erase key es) ≡ (if same key k then none else lookup k es)
lookup-erase key k [] = ground arith
lookup-erase key k ((q, s) ∷ es) =
    let rest = lookup-erase key k es in
    elim (Bool-cases (same q key)) [
      | inl e ↦ let eq = same-same q key k e in ground (arith, e, eq, rest)
      | inr e ↦ elim (Bool-cases (same key k)) [
        | inl hit ↦
            let eq = ap (same q) (sym (same→eq key k hit)) in ground (arith, e, rest, hit, eq)
        | inr miss ↦ ground (arith, e, rest, miss)
      ]
    ]

pub lookup-erase_all :
    (k : Str) (ks : List Str) (es : List (Str × ℕ))
    → lookup k (erase_all ks es) ≡ (if has_key k ks then none else lookup k es)
lookup-erase_all k [] es = refl
lookup-erase_all k (key ∷ ks) es =
    let rest = lookup-erase_all k ks (erase key es) in
    let one = lookup-erase key k es in ground (arith, rest, one)
