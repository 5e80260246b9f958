-- ===== src/Modulation/Scopes/Registry.antt =====
-- A registered scope is found by its name, and has the number of voices it was registered with.
use tanh_lib.Base.{
  ℕ, zero, suc, ◌%◌, ◌^◌, ◌<◌, ◌≡◌, ◌≢◌, inl, inr, refl, sym, ap, ◌∙◌, subst, true, false, ◌==◌,
  if◌then◌else◌, List, [], ◌∷◌, ◌++◌, none, some, get_elem?, set, length, arith, Bool-cases,
  Option-cases, get_elem?-set_self, get_elem?-set_ne,
}
use tanh_lib.State.Paths.{Str, same}
use tanh_lib.State.Groups.Tree.{same_refl}
use tanh_lib.Modulation.Scopes.{
  ModulationScope, ScopeEntry, Matrix, global_text, entry, next, search, with_count, register_again,
  register_found, register_scope, find_scope, count_of, voice_count,
}

-- What a search has found stands there, under that name.
pub search-some :
    (name : Str) (es : List ScopeEntry) (k : ℕ)
    → search name es ≡ some k
    → (e : ScopeEntry) × (get_elem? es k ≡ some e) × (k < length es)
unfolding search
search-some name [] k h = (cc)
search-some name (x ∷ es) k h = elim (Bool-cases (same name x.text)) [
  | inl hit ↦
      let at : 0 ≡ k = ground (arith, hit, h) in
      (x, ap (get_elem? (x ∷ es)) (sym at), omega (arith, at))
  | inr miss ↦ elim (Option-cases (search name es)) [
    | inl nothing ↦ ground (arith, miss, nothing, h)
    | inr (j, found) ↦
        let at : suc j ≡ k = ground (arith, miss, found, h) in
        let (e, there, lt) = search-some name es j found in
        (e, ap (get_elem? (x ∷ es)) (sym at) ∙ there, omega (arith, at, lt))
  ]
]

-- Changing the count of an entry changes no search.
search-set :
    (name : Str) (es : List ScopeEntry) (k : ℕ) (e : ScopeEntry) (count : ℕ)
    → get_elem? es k ≡ some e
    → search name (set es k (with_count e count)) ≡ search name es
unfolding search
search-set name [] k e count h = refl
search-set name (x ∷ es) zero e count h =
    let same_entry : x ≡ e = ground (arith, h) in rw same_entry refl
search-set name (x ∷ es) (suc k) e count h =
    ap (λ r. if same name x.text then some 0 else next r) (search-set name es k e count h)

search-snoc :
    (name : Str) (es : List ScopeEntry) (e : ScopeEntry)
    → search name es ≡ none
    → same name e.text ≡ true
    → search name (es ++ (e ∷ [])) ≡ some (length es)
unfolding search
search-snoc name [] e h s = rw s refl
search-snoc name (x ∷ es) e h s = elim (Bool-cases (same name x.text)) [
  | inl hit ↦ ground (arith, h, hit)
  | inr miss ↦ elim (Option-cases (search name es)) [
    | inl nothing ↦ let rest = search-snoc name es e nothing s in rw miss (ap next rest)
    | inr (j, found) ↦ ground (arith, h, miss, found)
  ]
]

get_elem?-snoc :
    {A : Type 0} (xs : List A) (a : A) → get_elem? (xs ++ (a ∷ [])) (length xs) ≡ some a
get_elem?-snoc [] a = refl
get_elem?-snoc (x ∷ xs) a = get_elem?-snoc xs a

get_elem?-snoc_ne :
    {A : Type 0} (xs : List A) (a : A) (i : ℕ)
    → i ≢ length xs
    → get_elem? (xs ++ (a ∷ [])) i ≡ get_elem? xs i
get_elem?-snoc_ne [] a zero h = elim (h refl) [ ]
get_elem?-snoc_ne [] a (suc i) h = refl
get_elem?-snoc_ne (x ∷ xs) a zero h = refl
get_elem?-snoc_ne (x ∷ xs) a (suc i) h = get_elem?-snoc_ne xs a i (λ e. h (ap suc e))

-- The handle and the matrix that a registration gives.
abbrev pub IsRegistered : Str → ℕ → ModulationScope × Matrix → Type 0
IsRegistered name count r =
    (find_scope r.1 name ≡ some r.0)
    × (voice_count r.1 r.0 ≡ count)
    × ((address : ℕ) → register_scope r.1 address name count ≡ r)

there-IsRegistered :
    (m : Matrix) (name : Str) (count k : ℕ) (e : ScopeEntry)
    → same name global_text ≡ false
    → search name m.other_entries ≡ some k
    → get_elem? m.other_entries k ≡ some e
    → e.voice_count ≡ count
    → suc k < 2 ^ 16
    → IsRegistered name count (record { id = suc k % 2 ^ 16; name = e.name }, m)
unfolding find_scope voice_count register_scope register_found register_again entry
there-IsRegistered m name count k e apart found there counts small =
    let same_count : (e.voice_count == count) ≡ true = ground (arith, counts) in
    let id : suc k % 2 ^ 16 ≡ suc k = omega (arith, small) in
    (
      rw apart (rw found (rw there refl)),
      ap (λ i. count_of (entry m i)) id ∙ rw there counts,
      (λ address. rw apart (rw found (rw there (rw same_count refl)))),
    )

module _ (m : Matrix) (address : ℕ) (name : Str) (count : ℕ) (apart : same name global_text ≡ false)
    (small : suc (length m.other_entries) < 2 ^ 16) where
  -- What the registration is to give, with the entries of all other scopes as they were.
  abbrev pub Registers : ModulationScope × Matrix → Type 0
  Registers r = IsRegistered name count r × ((id : ℕ) → id ≢ r.0.id → entry r.1 id ≡ entry m id)

  pub entry-other :
      (es : List ScopeEntry) (k : ℕ)
      → suc k < 2 ^ 16
      → ((j : ℕ) → j ≢ k → get_elem? es j ≡ get_elem? m.other_entries j)
      → (id : ℕ) → id ≢ suc k % 2 ^ 16
      → entry (record m { other_entries = es }) id ≡ entry m id
  unfolding entry
  entry-other es k b same_others zero ne = refl
  entry-other es k b same_others (suc j) ne = same_others j (λ e. ne (omega (arith, b, e)))

  again-Registers :
      (k : ℕ) (e : ScopeEntry)
      → search name m.other_entries ≡ some k
      → get_elem? m.other_entries k ≡ some e
      → k < length m.other_entries
      → Registers (register_again m k (some e) count)
  unfolding register_again entry
  again-Registers k e found there lt = elim (Bool-cases (e.voice_count == count)) [
    | inl eq ↦ rw eq (
      there-IsRegistered m name count k e apart found there (ground (arith, eq))
          (omega (arith, lt, small)),
      (λ id ne. refl),
    )
    | inr differs ↦ rw differs (
      there-IsRegistered (record m { other_entries = set m.other_entries k (with_count e count) })
          name count k (with_count e count) apart
          (search-set name m.other_entries k e count there ∙ found)
          (get_elem?-set_self m.other_entries k (with_count e count) lt) refl
          (omega (arith, lt, small)),
      entry-other (set m.other_entries k (with_count e count)) k (omega (arith, lt, small))
          (λ j ne. get_elem?-set_ne m.other_entries (with_count e count) (λ i. ne (sym i))),
    )
  ]

  -- Registering a scope under a name other than "global", with room for one more, gives a handle
  -- that its name is found under and that has the number of voices
  -- asked for; registering it again gives the same handle and changes nothing, and no other scope's
  -- entry changes.
  pub register_scope_lem : Registers (register_scope m address name count)
  unfolding register_scope register_found
  register_scope_lem = elim (Option-cases (search name m.other_entries)) [
    | inl nothing ↦
        let new : ScopeEntry = record { name = address; text = name; voice_count = count } in
        let n = length m.other_entries in
        let after : ModulationScope × Matrix = (
          record { id = suc n % 2 ^ 16; name = address },
          record m { other_entries = m.other_entries ++ (new ∷ []) },
        ) in
        let run : register_scope m address name count ≡ after = rw apart (rw nothing refl) in
        subst Registers (sym run) (
          there-IsRegistered after.1 name count n new apart
              (search-snoc name m.other_entries new nothing (same_refl name))
              (get_elem?-snoc m.other_entries new) refl small,
          entry-other after.1.other_entries n small
              (λ j ne. get_elem?-snoc_ne m.other_entries new j ne),
        )
    | inr (k, found) ↦
        let (e, there, lt) = search-some name m.other_entries k found in
        let run : register_scope m address name count ≡ register_again m k (some e) count =
          rw apart (rw found (rw there refl)) in
        subst Registers (sym run) (again-Registers k e found there lt)
  ]
