-- ===== src/Modulation/Scopes/Fits.antt =====
-- Sources that are prepared for the number of voices of their scope, under the changes of the entries.
use tanh_lib.Base.{
  ℕ, zero, suc, ◌<◌, ◌≡◌, ◌≢◌, inl, inr, refl, sym, ap, ◌∙◌, subst, true, ◌==◌, ◌||◌, List, [], ◌∷◌,
  ◌++◌, Option, none, some, get_elem?, set, length, arith, Bool-cases, Option-cases,
  get_elem?-set_self, get_elem?-set_ne,
}
use tanh_lib.Modulation.Scopes.{
  ModulationScope, ScopeEntry, Source, Matrix, entry, with_count, count_of, voice_count,
  prepare_scoped, resize, is_at, prepare_all, store_source, add_source, without,
}

-- The scope of the source is registered, and the source has its number of voices.
abbrev pub Fits : Matrix → Source → Type 0
Fits m s = (e : ScopeEntry) × (entry m s.scope.id ≡ some e) × (s.voices ≡ e.voice_count)

abbrev pub AllFit : Matrix → List Source → Type 0
AllFit m [] = Unit
AllFit m (s ∷ ss) = Fits m s × AllFit m ss

pub record IsPrepared (m : Matrix) : Type 0 where
  pub prepared : m.is_prepared ≡ true
  pub sources_fit : AllFit m m.sources

pub AllFit-entries :
    (m n : Matrix) (ss : List Source)
    → ((id : ℕ) (e : ScopeEntry) → entry m id ≡ some e → entry n id ≡ some e)
    → AllFit m ss
    → AllFit n ss
AllFit-entries m n [] kept fit = tt
AllFit-entries m n (s ∷ ss) kept ((e, there, voices), rest) =
    ((e, kept s.scope.id e there, voices), AllFit-entries m n ss kept rest)

AllFit-prepare_scoped :
    (m n : Matrix) (k count : ℕ) (e : ScopeEntry) (ss : List Source)
    → entry n (suc k) ≡ some e
    → e.voice_count ≡ count
    → ((id : ℕ) → id ≢ suc k → entry n id ≡ entry m id)
    → AllFit m ss
    → AllFit n (prepare_scoped (suc k) count ss)
unfolding prepare_scoped
AllFit-prepare_scoped m n k count e [] there counts others fit = tt
AllFit-prepare_scoped m n k count e (s ∷ ss) there counts others ((d, at, voices), rest) =
    let more = AllFit-prepare_scoped m n k count e ss there counts others rest in
    elim (Bool-cases (s.scope.id == suc k)) [
      | inl hit ↦
          let eq : s.scope.id ≡ suc k = ground (arith, hit) in
          rw hit ((e, ap (entry n) eq ∙ there, sym counts), more)
      | inr miss ↦
          rw miss ((d, others s.scope.id (λ eq. ground (arith, eq, miss)) ∙ at, voices), more)
    ]

entry-set :
    (m : Matrix) (k : ℕ) (e : ScopeEntry) (ss : List Source) (id : ℕ)
    → id ≢ suc k
    → entry (record m { other_entries = set m.other_entries k e; sources = ss }) id ≡ entry m id
unfolding entry
entry-set m k e ss zero ne = refl
entry-set m k e ss (suc j) ne = get_elem?-set_ne m.other_entries e (λ eq. ne (ap suc (sym eq)))

pub get_elem?-bound :
    {A : Type 0} (xs : List A) (k : ℕ) (a : A) → get_elem? xs k ≡ some a → k < length xs
get_elem?-bound [] k a h = (cc)
get_elem?-bound (x ∷ xs) zero a h = omega arith
get_elem?-bound (x ∷ xs) (suc k) a h = omega (arith, get_elem?-bound xs k a h)

pub resize-IsPrepared :
    {m : Matrix}
    → IsPrepared m
    → (id : ℕ) (o : Option ScopeEntry) (count : ℕ) → entry m id ≡ o
    → IsPrepared (resize m id o count)
unfolding resize entry
resize-IsPrepared p zero o count at = p
resize-IsPrepared p (suc k) none count at = p
resize-IsPrepared {m} p (suc k) (some e) count at = elim (Bool-cases (e.voice_count == count)) [
  | inl eq ↦ rw eq p
  | inr differs ↦
      let after : Matrix = record m {
        other_entries = set m.other_entries k (with_count e count);
        sources = prepare_scoped (suc k) count m.sources;
      } in
      let fit =
        AllFit-prepare_scoped m after k count (with_count e count) m.sources
          (get_elem?-set_self m.other_entries k (with_count e count)
            (get_elem?-bound m.other_entries k e at))
          refl (entry-set m k (with_count e count) after.sources) p.sources_fit in
      rw differs (record { prepared = p.prepared; sources_fit = fit })
]

AllFit-store_source :
    (m : Matrix) (s : Source) (ss : List Source)
    → Fits m s
    → AllFit m ss
    → AllFit m (store_source s ss)
unfolding store_source
AllFit-store_source m s [] fits all = (fits, tt)
AllFit-store_source m s (t ∷ ts) fits (first, rest) = elim (Bool-cases (t.id == s.id)) [
  | inl hit ↦ rw hit (fits, rest)
  | inr miss ↦ rw miss (first, AllFit-store_source m s ts fits rest)
]

pub AllFit-get :
    (m : Matrix) (ss : List Source) (i : ℕ) (s : Source)
    → get_elem? ss i ≡ some s
    → AllFit m ss
    → Fits m s
AllFit-get m [] i s h fit = (cc)
AllFit-get m (x ∷ ss) zero s h fit = let eq : x ≡ s = ground (arith, h) in subst (Fits m) eq fit.0
AllFit-get m (x ∷ ss) (suc i) s h fit = AllFit-get m ss i s h fit.1

pub AllFit-without :
    (m : Matrix) (id : ℕ) (ss : List Source) → AllFit m ss → AllFit m (without id ss)
AllFit-without m id [] fit = tt
AllFit-without m id (s ∷ ss) fit = elim (Bool-cases (s.id == id)) [
  | inl e ↦ rw e (AllFit-without m id ss fit.1)
  | inr e ↦ rw e (fit.0, AllFit-without m id ss fit.1)
]

-- A handle that passes the test of `add_source` has an entry.
accepted :
    (m : Matrix) (scope : ModulationScope)
    → ((scope.id == 0) || is_at (entry m scope.id) scope) ≡ true
    → (e : ScopeEntry) × (entry m scope.id ≡ some e)
unfolding entry
accepted m scope h = elim (Bool-cases (scope.id == 0)) [
  | inl zero_id ↦
      let eq : scope.id ≡ 0 = ground (arith, zero_id) in (m.global_entry, ap (entry m) eq)
  | inr other ↦ elim (Option-cases (entry m scope.id)) [
    | inl nothing ↦ ground (arith, h, other, ap (λ o. is_at o scope) nothing)
    | inr (e, there) ↦ (e, there)
  ]
]

pub add_source-IsPrepared : {m : Matrix} → IsPrepared m → (s : Source) → IsPrepared (add_source m s)
unfolding add_source voice_count
add_source-IsPrepared {m} p s =
    elim (Bool-cases ((s.scope.id == 0) || is_at (entry m s.scope.id) s.scope)) [
      | inl ok ↦
          let (e, there) = accepted m s.scope ok in
          let after : Matrix = record m {
            sources = store_source (record s { voices = voice_count m s.scope }) m.sources;
          } in
          let fit : AllFit m after.sources =
            AllFit-store_source m (record s { voices = voice_count m s.scope }) m.sources
              (e, there, ap count_of there) p.sources_fit in
          let run : add_source m s ≡ after = rw ok (rw p.prepared refl) in
          subst IsPrepared (sym run) (record {
            prepared = p.prepared;
            sources_fit = AllFit-entries m after after.sources (λ id d at. at) fit;
          })
      | inr bad ↦ rw bad p
    ]

pub AllFit-prepare_all : (m : Matrix) (ss : List Source) → AllFit m ss → AllFit m (prepare_all m ss)
unfolding prepare_all voice_count
AllFit-prepare_all m [] fit = tt
AllFit-prepare_all m (s ∷ ss) ((e, there, voices), rest) =
    ((e, there, ap count_of there), AllFit-prepare_all m ss rest)

pub entry-snoc :
    (m : Matrix) (new : ScopeEntry) (id : ℕ) (e : ScopeEntry)
    → entry m id ≡ some e
    → entry (record m { other_entries = m.other_entries ++ (new ∷ []) }) id ≡ some e
unfolding entry
entry-snoc m new zero e h = h
entry-snoc m new (suc k) e h = still m.other_entries k h
  where
    still :
        (es : List ScopeEntry) (k : ℕ)
        → get_elem? es k ≡ some e
        → get_elem? (es ++ (new ∷ [])) k ≡ some e
    still [] k h = (cc)
    still (x ∷ es) zero h = h
    still (x ∷ es) (suc k) h = still es k h
