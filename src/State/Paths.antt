-- ===== src/State/Paths.antt =====
-- include/tanh/state/path_helpers.h: splitting and joining of dotted paths.
mod Tests
use tanh_lib.Base.{
  ℕ, ◌+◌, ◌%◌, ◌^◌, ◌<◌, ◌≤◌, ◌≡◌, ◌≢◌, refl, sym, ap, ◌∙◌, ◌⊎◌, inl, inr, Bool, true, false, ◌&&◌,
  ◌==◌, if◌then◌else◌, List, [], ◌∷◌, ◌++◌, length, contains, contains-append, arith, length-append,
  Bool-cases, clash,
}

-- A string is the list of its character codes.
abbrev pub Str : Type 0
Str = List ℕ

abbrev pub dot : ℕ
dot = 46

-- `path.find('.') != npos`
abbrev pub has_dot : Str → Bool
has_dot path = contains dot path

abbrev pub is_empty_str : Str → Bool
is_empty_str [] = true
is_empty_str (c ∷ cs) = false

-- Equality of strings.
abbrev pub same : Str → Str → Bool
same [] [] = true
same [] (d ∷ ds) = false
same (c ∷ cs) [] = false
same (c ∷ cs) (d ∷ ds) = (c == d) && same cs ds

-- `split_path`
unfoldable pub split_path : Str → Str × Str
split_path [] = ([], [])
split_path (c ∷ cs) =
    let rest = split_path cs in if c == dot then ([], cs) else (c ∷ rest.0, rest.1)

-- `join_path`
unfoldable pub join_path : Str → Str → Str
join_path [] child = child
join_path (c ∷ cs) [] = c ∷ cs
join_path (c ∷ cs) (d ∷ ds) = (c ∷ cs) ++ (dot ∷ d ∷ ds)

-- `join_path_size`, on `size_t`.
unfoldable pub join_path_size : Str → Str → ℕ
join_path_size [] child = length child
join_path_size (c ∷ cs) [] = length (c ∷ cs)
join_path_size (c ∷ cs) (d ∷ ds) = (length (c ∷ cs) + 1 + length (d ∷ ds)) % 2 ^ 64

-- The characters before the first dot and those after it.
pub split_path_lem :
    (path : Str)
    → has_dot path ≡ true
    → (path ≡ (split_path path).0 ++ (dot ∷ (split_path path).1))
      × (has_dot (split_path path).0 ≡ false)
unfolding split_path
split_path_lem [] h = (cc)
split_path_lem (c ∷ cs) h = elim (Bool-cases (c == dot)) [
  | inl e ↦ (ground (arith, e), ground (arith, e))
  | inr e ↦
      let (eq, clear) = split_path_lem cs (ground (arith, h, e)) in
      (ground (arith, e, eq), ground (arith, e, clear))
]

pub split_path-none : (path : Str) → has_dot path ≡ false → split_path path ≡ (path, [])
unfolding split_path
split_path-none [] h = refl
split_path-none (c ∷ cs) h =
    let rest = split_path-none cs (ground (arith, h)) in ground (arith, h, rest)

pub split_path-at : (a b : Str) → has_dot a ≡ false → split_path (a ++ (dot ∷ b)) ≡ (a, b)
unfolding split_path
split_path-at [] b h = refl
split_path-at (c ∷ cs) b h =
    let rest = split_path-at cs b (ground (arith, h)) in ground (arith, h, rest)

-- Splitting what was joined gives the two paths back, when both have a character and the parent
-- has no dot.
pub split_path-join_path :
    (parent child : Str)
    → parent ≢ []
    → child ≢ []
    → has_dot parent ≡ false
    → split_path (join_path parent child) ≡ (parent, child)
unfolding join_path
split_path-join_path [] child np nc h = elim (np refl) [ ]
split_path-join_path (c ∷ cs) [] np nc h = elim (nc refl) [ ]
split_path-join_path (c ∷ cs) (d ∷ ds) np nc h = split_path-at (c ∷ cs) (d ∷ ds) h

-- The joined path has the size that was computed for it, when that is below 2^64.
pub length-join_path :
    (parent child : Str)
    → length parent + 1 + length child < 2 ^ 64
    → length (join_path parent child) ≡ join_path_size parent child
unfolding join_path join_path_size
length-join_path [] child b = refl
length-join_path (c ∷ cs) [] b = refl
length-join_path (c ∷ cs) (d ∷ ds) b = length-append (c ∷ cs) (dot ∷ d ∷ ds) ∙ omega (arith, b)
