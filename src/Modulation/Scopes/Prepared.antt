-- ===== src/Modulation/Scopes/Prepared.antt =====
-- Every source is prepared for the number of voices of its scope.
use tanh_lib.Base.{
  ℕ, suc, ◌≡◌, ◌≢◌, inl, inr, refl, sym, ap, ◌∙◌, subst, Bool, not, true, false, ◌==◌,
  if◌then◌else◌, [], ◌∷◌, ◌++◌, none, some, get_elem?, set, arith, Bool-cases, Option-cases,
  get_elem?-set_self,
}
use tanh_lib.State.Paths.{Str, same}
use tanh_lib.Modulation.Scopes.{
  ModulationScope, ScopeEntry, Source, Matrix, global_text, entry, search, with_count,
  register_again, register_found, register_scope, count_of, set_voice_count, prepare, add_source,
  remove_source,
}
use tanh_lib.Modulation.Scopes.Registry.{search-some}
use tanh_lib.Modulation.Scopes.Fits.{
  AllFit, AllFit-get, AllFit-without, IsPrepared, AllFit-entries, AllFit-prepare_all, entry-snoc,
  get_elem?-bound, resize-IsPrepared, add_source-IsPrepared,
}

-- A registration under the name of a scope that has another number of voices.
abbrev pub changes_count : Matrix → Str → ℕ → Bool
changes_count m name count = elim (search name m.other_entries) [
  | none ↦ false
  | some k ↦ elim (get_elem? m.other_entries k) [
    | none ↦ false
    | some e ↦ if e.voice_count == count then false else true
  ]
]

register_found-IsPrepared :
    {m : Matrix}
    → IsPrepared m
    → (address : ℕ) (name : Str) (count : ℕ) → changes_count m name count ≡ false
    → IsPrepared (register_found m address name count (search name m.other_entries)).1
unfolding register_found register_again
register_found-IsPrepared {m} p address name count stays =
    elim (Option-cases (search name m.other_entries)) [
      | inl nothing ↦
          let new : ScopeEntry = record { name = address; text = name; voice_count = count } in
          let after : Matrix = record m { other_entries = m.other_entries ++ (new ∷ []) } in
          let done : IsPrepared after = record {
            prepared = p.prepared;
            sources_fit = AllFit-entries m after m.sources (entry-snoc m new) p.sources_fit;
          } in
          rw nothing done
      | inr (k, found) ↦
          let (e, there, lt) = search-some name m.other_entries k found in
          let eq : (e.voice_count == count) ≡ true = ground (arith, stays, found, there) in
          rw found (rw there (rw eq p))
    ]

register_scope-IsPrepared :
    {m : Matrix}
    → IsPrepared m
    → (address : ℕ) (name : Str) (count : ℕ) → changes_count m name count ≡ false
    → IsPrepared (register_scope m address name count).1
unfolding register_scope
register_scope-IsPrepared {m} p address name count stays =
    elim (Bool-cases (same name global_text)) [
      | inl reserved ↦ rw reserved p
      | inr apart ↦ rw apart (register_found-IsPrepared p address name count stays)
    ]

-- Registering a known name with another number of voices, when a source of that scope is there,
-- leaves a matrix in which not every source is prepared for the number of voices of its scope.
pub register_scope-stale :
    (m : Matrix) (address : ℕ) (name : Str) (count k : ℕ) (e : ScopeEntry) (i : ℕ) (s : Source)
    → IsPrepared m
    → same name global_text ≡ false
    → search name m.other_entries ≡ some k
    → get_elem? m.other_entries k ≡ some e
    → e.voice_count ≢ count
    → get_elem? m.sources i ≡ some s
    → s.scope.id ≡ suc k
    → ¬ IsPrepared (register_scope m address name count).1
unfolding register_scope register_found register_again entry
register_scope-stale m address name count k e i s p apart found there differs is_source at q =
    let test : (e.voice_count == count) ≡ false = ground (arith, differs) in
    let after : Matrix = record m { other_entries = set m.other_entries k (with_count e count) } in
    let run : (register_scope m address name count).1 ≡ after =
      rw apart (rw found (rw there (rw test refl))) in
    let lt = get_elem?-bound m.other_entries k e there in
    let new : entry after s.scope.id ≡ some (with_count e count) =
      ap (entry after) at ∙ get_elem?-set_self m.other_entries k (with_count e count) lt in
    let old : entry m s.scope.id ≡ some e = ap (entry m) at ∙ there in
    let all_after : AllFit after m.sources = (subst IsPrepared run q).sources_fit in
    let (d, was, voices) = AllFit-get m m.sources i s is_source p.sources_fit in
    let (f, now, same_voices) = AllFit-get after m.sources i s is_source all_after in
    let old_count : d.voice_count ≡ e.voice_count = ap count_of (sym was ∙ old) in
    let new_count : f.voice_count ≡ count = ap count_of (sym now ∙ new) in
    differs (sym old_count ∙ sym voices ∙ same_voices ∙ new_count)

-- The calls that change the registry or the sources.
pub data Call : Type 0 where
  register_call : ℕ → Str → ℕ → Call
  resize_call : ModulationScope → ℕ → Call
  prepare_call : Bool → Call
  add_source_call : Source → Call
  remove_source_call : ℕ → Call

unfoldable pub apply : Matrix → Call → Matrix
unfolding register_scope set_voice_count prepare add_source remove_source
apply m (register_call address name count) = (register_scope m address name count).1
apply m (resize_call scope count) = set_voice_count m scope count
apply m (prepare_call has_rate) = prepare m has_rate
apply m (add_source_call s) = add_source m s
apply m (remove_source_call id) = remove_source m id

-- The calls that are excluded: a registration that changes a count, and a sample rate that is not
-- positive.
abbrev pub changes : Matrix → Call → Bool
changes m (register_call address name count) = changes_count m name count
changes m (resize_call scope count) = false
changes m (prepare_call has_rate) = not has_rate
changes m (add_source_call s) = false
changes m (remove_source_call id) = false

-- After every call on a prepared matrix, except the registration of a known name with another number
-- of voices and `prepare` with a sample rate that is not positive, the sample rate is positive, the
-- scope of every source is registered and the source is prepared for its number of voices.
pub apply-IsPrepared :
    {m : Matrix} → IsPrepared m → (c : Call) → changes m c ≡ false → IsPrepared (apply m c)
unfolding apply set_voice_count prepare remove_source
apply-IsPrepared p (register_call address name count) stays =
    register_scope-IsPrepared p address name count stays
apply-IsPrepared p (resize_call scope count) stays = resize-IsPrepared p scope.id _ count refl
apply-IsPrepared {m} p (prepare_call false) stays = (cc)
apply-IsPrepared {m} p (prepare_call true) stays = record {
  prepared = refl;
  sources_fit = AllFit-prepare_all m m.sources p.sources_fit;
}
apply-IsPrepared p (add_source_call s) stays = add_source-IsPrepared p s
apply-IsPrepared {m} p (remove_source_call id) stays = record {
  prepared = p.prepared;
  sources_fit = AllFit-without m id m.sources p.sources_fit;
}
