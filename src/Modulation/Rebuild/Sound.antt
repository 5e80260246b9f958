-- ===== src/Modulation/Rebuild/Sound.antt =====
-- Passes 1b and 2: the buffers that a resolved routing writes to are there.
use tanh_lib.Base.{
  ℕ, ◌<◌, ◌≡◌, ◌⊎◌, inl, inr, refl, sym, ap, subst, ◌∙◌, Bool, true, false, ◌&&◌, ◌||◌, ◌==◌,
  if◌then◌else◌, ltb, leb, List, [], ◌∷◌, Option, none, some, arith, clash, Bool-cases,
}
use tanh_lib.Modulation.Rebuild.{
  ModulationRouting, Matrix, Addresses, Target, TargetInfo, Pass, is_replace, info_or_new,
  scope_pair, is_rejected, VoiceBuffers, MonoBuffers, global_to_global, global_to_scoped,
  scoped_to_scoped, ResolvedRouting, wanted_voice, wanted_mono, replace_voice, replace_mono,
  allocate, allocate_all, same_bool, matches_voice, matches_mono, resolve_known, resolve_one,
  resolve, push_some, allocate_entry, pass_one, rebuild,
}
use tanh_lib.Modulation.Rebuild.Noted.{Noted, has_flags, same_scope, IsListed, collect-listed}

-- The buffers are of the kind that the routing writes.
abbrev pub serves : Bool → Bool → Bool → Bool
serves is_replacing has_additive has_replace = if is_replacing then has_replace else has_additive

-- What backs a resolved routing from a source of scope `src` to the target `t`: voice buffers of
-- its kind, one for each voice of the scope, with the routing's own vectors of that size; or mono
-- buffers of its kind; or nothing, if the target's scope has no voices.
pub data IsBacked (voice_count : ℕ → ℕ) (x : ResolvedRouting) (src : ℕ) (t : Target) : Type 0 where
  by_voice :
      (g : VoiceBuffers)
      → t.voice_owner ≡ some g
      → serves (is_replace x.combine_mode) g.has_additive g.has_replace ≡ true
      → g.num_voices ≡ voice_count t.scope
      → x.routing_mode ≡ (if src == 0 then global_to_scoped else scoped_to_scoped)
      → (src ≡ 0) ⊎ (src ≡ t.scope)
      → x.num_held ≡ (if is_replace x.combine_mode then g.num_voices else 0)
      → x.num_tracked
        ≡ (if is_replace x.combine_mode && g.has_replace_priority then g.num_voices else 0)
      → IsBacked voice_count x src t
  by_mono :
      (g : MonoBuffers)
      → t.voice_owner ≡ none
      → t.mono_owner ≡ some g
      → serves (is_replace x.combine_mode) g.has_additive g.has_replace ≡ true
      → x.routing_mode ≡ global_to_global
      → src ≡ 0
      → IsBacked voice_count x src t
  no_voices :
      t.voice_owner ≡ none
      → t.mono_owner ≡ none
      → voice_count t.scope ≡ 0
      → x.routing_mode ≡ global_to_global
      → IsBacked voice_count x src t

same_bool-eq : (a b : Bool) → same_bool a b ≡ true → a ≡ b
same_bool-eq true b h = sym h
same_bool-eq false true h = (cc)
same_bool-eq false false h = refl

matches_voice-eq :
    (g w : VoiceBuffers) → matches_voice g w ≡ true → g ≡ record w { address = g.address }
unfolding matches_voice
matches_voice-eq g w h = ground (
  arith,
  same_bool-eq g.has_additive w.has_additive,
  same_bool-eq g.has_replace w.has_replace,
  same_bool-eq g.has_replace_priority w.has_replace_priority,
)

matches_mono-eq :
    (g w : MonoBuffers) → matches_mono g w ≡ true → g ≡ record w { address = g.address }
unfolding matches_mono
matches_mono-eq g w h = ground (
  arith,
  same_bool-eq g.has_additive w.has_additive,
  same_bool-eq g.has_replace w.has_replace,
  same_bool-eq g.has_replace_priority w.has_replace_priority,
)

-- Buffers of the sizes and kinds wanted, at some address.
abbrev OwnsVoice : Option VoiceBuffers → Option VoiceBuffers → Type 0
OwnsVoice owner none = owner ≡ none
OwnsVoice owner (some w) = (a : ℕ) × (owner ≡ some (record w { address = a }))

abbrev OwnsMono : Option MonoBuffers → Option MonoBuffers → Type 0
OwnsMono owner none = owner ≡ none
OwnsMono owner (some w) = (a : ℕ) × (owner ≡ some (record w { address = a }))

replace_voice-wanted :
    (w g : Option VoiceBuffers) (l : List VoiceBuffers) → OwnsVoice (replace_voice w g l).0 w
unfolding replace_voice
replace_voice-wanted (some w) (some g) l = elim (Bool-cases (matches_voice g w)) [
  | inl e ↦ rw e (g.address, ap some (matches_voice-eq g w e))
  | inr e ↦ rw e (w.address, refl)
]
replace_voice-wanted (some w) none l = (w.address, refl)
replace_voice-wanted none (some g) l = refl
replace_voice-wanted none none l = refl

replace_mono-wanted :
    (w g : Option MonoBuffers) (l : List MonoBuffers) → OwnsMono (replace_mono w g l).0 w
unfolding replace_mono
replace_mono-wanted (some w) (some g) l = elim (Bool-cases (matches_mono g w)) [
  | inl e ↦ rw e (g.address, ap some (matches_mono-eq g w e))
  | inr e ↦ rw e (w.address, refl)
]
replace_mono-wanted (some w) none l = (w.address, refl)
replace_mono-wanted none (some g) l = refl
replace_mono-wanted none none l = refl

module _ (m : Matrix) (fresh : Addresses) (info : Option TargetInfo) (t : Target) where
  allocate-voice_owner :
      OwnsVoice
        (allocate m fresh info t).voice_owner
        (wanted_voice m fresh.voice (info_or_new info) t.scope)
  unfolding allocate
  allocate-voice_owner = replace_voice-wanted _ _ _

  allocate-mono_owner :
      OwnsMono (allocate m fresh info t).mono_owner (wanted_mono m fresh.mono (info_or_new info))
  unfolding allocate
  allocate-mono_owner = replace_mono-wanted _ _ _

  allocate-scope : (allocate m fresh info t).scope ≡ t.scope
  unfolding allocate
  allocate-scope = refl

  module _ (r : ModulationRouting) (src : ℕ)
      (accepted : is_rejected (scope_pair src t.scope) ≡ false)
      (flagged : has_flags (info_or_new info) (same_scope src t.scope) (is_replace r.combine_mode)
        ≡ true) where
    abbrev voices : VoiceBuffers
    voices = record {
      address = fresh.voice;
      num_voices = m.voice_count t.scope;
      block_size = m.samples_per_block;
      has_additive = (info_or_new info).same_scope_additive || (info_or_new info).global_additive;
      has_replace = (info_or_new info).same_scope_replace || (info_or_new info).global_replace;
      has_replace_priority = leb 2 (info_or_new info).replace_count;
    }

    abbrev monos : MonoBuffers
    monos = record {
      address = fresh.mono;
      block_size = m.samples_per_block;
      has_additive = (info_or_new info).global_additive;
      has_replace = (info_or_new info).global_replace;
      has_replace_priority = leb 2 (info_or_new info).replace_count;
    }

    voices-serve : serves (is_replace r.combine_mode) voices.has_additive voices.has_replace ≡ true
    unfolding has_flags same_scope
    voices-serve = ground (arith, flagged)

    scopes-fit : (src ≡ 0) ⊎ (src ≡ (allocate m fresh info t).scope)
    unfolding scope_pair is_rejected
    scopes-fit = rw allocate-scope (ground (arith, accepted))

    IsBacked-with_voices :
        (info_or_new info).has_same_scope_routing ≡ true
        → 0 < m.voice_count t.scope
        → IsBacked m.voice_count
            (resolve_known info r src (allocate m fresh info t))
            src
            (allocate m fresh info t)
    unfolding resolve_known
    IsBacked-with_voices s p =
        let w : wanted_voice m fresh.voice (info_or_new info) t.scope ≡ some voices =
          unfold wanted_voice in ground (arith, s) in
        let (a, e) =
          subst (OwnsVoice (allocate m fresh info t).voice_owner) w allocate-voice_owner in
        by_voice (record voices { address = a }) e voices-serve
          (ap m.voice_count (sym allocate-scope)) (ground (arith, e)) scopes-fit (ground (arith, e))
          (ground (arith, e))

    IsBacked-without_voices :
        (info_or_new info).has_same_scope_routing ≡ true
        → m.voice_count t.scope ≡ 0
        → IsBacked m.voice_count
            (resolve_known info r src (allocate m fresh info t))
            src
            (allocate m fresh info t)
    unfolding resolve_known
    IsBacked-without_voices s p =
        let w : wanted_voice m fresh.voice (info_or_new info) t.scope ≡ none =
          unfold wanted_voice in ground (arith, s) in
        let u : wanted_mono m fresh.mono (info_or_new info) ≡ none =
          unfold wanted_mono in ground (arith, s) in
        let none_owned =
          subst (OwnsVoice (allocate m fresh info t).voice_owner) w allocate-voice_owner in
        no_voices none_owned
          (subst (OwnsMono (allocate m fresh info t).mono_owner) u allocate-mono_owner)
          (ap m.voice_count allocate-scope ∙ p) (ground (arith, none_owned))

    global_only :
        (info_or_new info).has_same_scope_routing ≡ false
        → (src ≡ 0)
          × (serves (is_replace r.combine_mode) monos.has_additive monos.has_replace ≡ true)
    unfolding has_flags same_scope scope_pair is_rejected
    global_only s = ground (arith, flagged, accepted, s)

    IsBacked-with_mono :
        (info_or_new info).has_same_scope_routing ≡ false
        → IsBacked m.voice_count
            (resolve_known info r src (allocate m fresh info t))
            src
            (allocate m fresh info t)
    unfolding resolve_known
    IsBacked-with_mono s =
        let (zero_scope, served) = global_only s in
        let w : wanted_voice m fresh.voice (info_or_new info) t.scope ≡ none =
          unfold wanted_voice in ground (arith, s) in
        let u : wanted_mono m fresh.mono (info_or_new info) ≡ some monos =
          unfold wanted_mono in ground (arith, s, served) in
        let none_owned =
          subst (OwnsVoice (allocate m fresh info t).voice_owner) w allocate-voice_owner in
        let (a, e) = subst (OwnsMono (allocate m fresh info t).mono_owner) u allocate-mono_owner in
        by_mono (record monos { address = a }) none_owned e served (ground (arith, none_owned))
          zero_scope

    resolve_known-IsBacked :
        IsBacked m.voice_count
          (resolve_known info r src (allocate m fresh info t))
          src
          (allocate m fresh info t)
    resolve_known-IsBacked = elim (Bool-cases (info_or_new info).has_same_scope_routing) [
      | inl e ↦ elim (Bool-cases (ltb 0 (m.voice_count t.scope))) [
        | inl k ↦ IsBacked-with_voices e (ground arith)
        | inr k ↦ IsBacked-without_voices e (ground arith)
      ]
      | inr e ↦ IsBacked-with_mono e
    ]

-- `rebuild` gives the routing buffers on a target that it has.
abbrev pub HasBuffers : Matrix → ResolvedRouting → Type 0
HasBuffers m x =
    (src : ℕ) × (t : Target) × (m.sources x.source_id ≡ some src)
    × (m.targets x.target_id ≡ some t)
    × IsBacked m.voice_count x src t

abbrev pub All : {A : Type 0} → (A → Type 0) → List A → Type 0
All P [] = Unit
All P (x ∷ xs) = P x × All P xs

if-none :
    (b : Bool) (y x : ResolvedRouting)
    → (if b then Option.none else some y) ≡ some x
    → (b ≡ false) × (y ≡ x)
if-none true y x h = (cc)
if-none false y x h = (refl, cc)

module _ (m : Matrix) where
  abbrev p : Pass
  p = pass_one m

  abbrev m' : Matrix
  m' = allocate_all m p

  known :
      (r : ModulationRouting) (src : ℕ) (t : Target)
      → IsListed m r m.user_routings
      → m.sources r.source_id ≡ some src
      → m.targets r.target_id ≡ some t
      → p.rejected_routing_ids r.id ≡ false
      → IsBacked m.voice_count
          (resolve_known
            (p.target_info r.target_id)
            r
            src
            (allocate m (m.addresses r.target_id) (p.target_info r.target_id) t))
          src
          (allocate m (m.addresses r.target_id) (p.target_info r.target_id) t)
  unfolding pass_one
  known r src t i e k kept =
      let noted : Noted p r src t.scope = collect-listed m _ m.user_routings r src t i e k in
      elim noted [
        | inl bad ↦ absurd (clash bad kept)
        | inr (accepted, flagged) ↦
            resolve_known-IsBacked m (m.addresses r.target_id) (p.target_info r.target_id) t r src
              accepted flagged
      ]

  resolve_one-HasBuffers :
      (r : ModulationRouting) (x : ResolvedRouting) (s : Option ℕ) (t : Option Target)
      → IsListed m r m.user_routings
      → m.sources r.source_id ≡ s
      → m.targets r.target_id ≡ t
      → resolve_one p r s (allocate_entry m (m.addresses r.target_id) (p.target_info r.target_id) t)
        ≡ some x
      → HasBuffers m' x
  unfolding resolve_one allocate_entry allocate_all
  resolve_one-HasBuffers r x none t i e k h = (cc)
  resolve_one-HasBuffers r x (some src) none i e k h = (cc)
  resolve_one-HasBuffers r x (some src) (some t) i e k h =
      let (kept, same) = if-none (p.rejected_routing_ids r.id) _ x h in
      subst (HasBuffers m') same (
        src,
        allocate m (m.addresses r.target_id) (p.target_info r.target_id) t,
        e,
        (rw k (refl)),
        known r src t i e k kept,
      )

  push_some-All :
      (o : Option ResolvedRouting) (xs : List ResolvedRouting)
      → ((x : ResolvedRouting) → o ≡ some x → HasBuffers m' x)
      → All (HasBuffers m') xs
      → All (HasBuffers m') (push_some o xs)
  unfolding push_some
  push_some-All none xs h a = a
  push_some-All (some x) xs h a = (h x refl, a)

  resolve-HasBuffers :
      (rs : List ModulationRouting)
      → ((r : ModulationRouting) → IsListed m r rs → IsListed m r m.user_routings)
      → All (HasBuffers m') (resolve m' p rs)
  unfolding resolve allocate_all
  resolve-HasBuffers [] i = tt
  resolve-HasBuffers (r ∷ rs) i =
      push_some-All _ _ (λ x h. resolve_one-HasBuffers r x _ _ (i r (inl refl)) refl refl h)
        (resolve-HasBuffers rs (λ q l. i q (inr l)))

-- After passes 1 to 2, each resolved routing has its source and its target in the matrix, and is
-- backed there: by voice buffers of the kind that it writes, one for each voice of the target's
-- scope, with its own vectors of that size, if its source is global or of that scope; or, from a
-- global source, by mono buffers of that kind; or the scope has no voices and no buffers exist.
pub rebuild-HasBuffers : (m : Matrix) → All (HasBuffers (rebuild m).0) (rebuild m).1
unfolding rebuild
rebuild-HasBuffers m = resolve-HasBuffers m m.user_routings (λ r l. l)
