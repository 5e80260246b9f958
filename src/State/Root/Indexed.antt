-- ===== src/State/Root/Indexed.antt =====
-- The indices and the storage name the same records, whatever is called.
use tanh_lib.Base.{
  ℕ, ◌<◌, ◌≡◌, inl, inr, sym, ap, ◌∙◌, subst, false, ◌==◌, if◌then◌else◌, List, Option, none, some,
  arith, Bool-cases,
}
use tanh_lib.State.Paths.{Str, same}
use tanh_lib.State.Groups.Tree.{same→eq, same_refl}
use tanh_lib.State.Dict.{lookup, lookup-assign, lookup-emplace}
use tanh_lib.State.Values.{Casts}
use tanh_lib.State.Root.{ParameterRecord, State, insert_record, insert_id}

pub record IsIndexed {D F I : Type 0} (s : State D F I) : Type 0 where
  pub index_eq : (k : Str) → lookup k s.string_index ≡ lookup k s.storage
  pub owned :
      (k : Str) (r : ℕ)
      → lookup k s.string_index ≡ some r
      → (r < s.next) × ((s.parameter r).key ≡ k)
  pub by_id :
      (id r : ℕ)
      → s.id_index id ≡ some r
      → ((s.parameter r).id ≡ id) × (lookup (s.parameter r).key s.string_index ≡ some r)

module _ {D F I : Type 0} (casts : Casts D F I) where
  -- A key that has an entry is not one that has none.
  other_key :
      (key k : Str) (r : ℕ) (es : List (Str × ℕ))
      → lookup key es ≡ none
      → lookup k es ≡ some r
      → same key k ≡ false
  other_key key k r es miss hit = elim (Bool-cases (same key k)) [
    | inl e ↦ let eq = ap (λ x. lookup x es) (same→eq key k e) in (cc)
    | inr e ↦ e
  ]

  module _ {s : State D F I} (sync : IsIndexed s) (key : Str) (r : ParameterRecord D F I)
      (counter : ℕ) (named : r.key ≡ key) (miss : lookup key s.string_index ≡ none) where
    abbrev inserted : State D F I
    inserted = insert_record casts s key r counter

    pub lookup-inserted :
        (k : Str)
        → lookup k inserted.string_index
          ≡ (if same key k then some s.next else lookup k s.string_index)
    unfolding insert_record
    lookup-inserted k = lookup-assign key k s.next s.string_index

    pub parameter_new : inserted.parameter s.next ≡ r
    unfolding insert_record
    parameter_new = ground arith

    pub parameter_old : (q : ℕ) → q < s.next → inserted.parameter q ≡ s.parameter q
    unfolding insert_record
    parameter_old q lt = ground (arith, lt)

    index_eq_inserted : (k : Str) → lookup k inserted.string_index ≡ lookup k inserted.storage
    unfolding insert_record
    index_eq_inserted k =
        let new_eq = lookup-emplace key k s.next s.storage (sym (sync.index_eq key) ∙ miss) in
        lookup-inserted k
        ∙ ap (λ o. if same key k then some s.next else o) (sync.index_eq k)
        ∙ sym new_eq

    owned_inserted :
        (k : Str) (q : ℕ)
        → lookup k inserted.string_index ≡ some q
        → (q < inserted.next) × ((inserted.parameter q).key ≡ k)
    unfolding insert_record
    owned_inserted k q e = elim (Bool-cases (same key k)) [
      | inl hit ↦
          let at : s.next ≡ q = ground (arith, hit, e, lookup-inserted k) in
          (
            omega (arith, at),
            ap (λ x. (inserted.parameter x).key) (sym at)
                ∙ ap (λ x. x.key) parameter_new
                ∙ named
                ∙ same→eq key k hit,
          )
      | inr other ↦
          let (lt, own) = sync.owned k q (ground (arith, other, e, lookup-inserted k)) in
          (omega (arith, lt), ap (λ x. x.key) (parameter_old q lt) ∙ own)
    ]

    by_id_inserted :
        (id q : ℕ)
        → s.id_index id ≡ some q
        → ((inserted.parameter q).id ≡ id)
          × (lookup (inserted.parameter q).key inserted.string_index ≡ some q)
    by_id_inserted id q e =
        let (has_id, found) = sync.by_id id q e in
        let lt = (sync.owned (s.parameter q).key q found).0 in
        let other = other_key key (s.parameter q).key q s.string_index miss found in
        let kept = parameter_old q lt in
        (
          ap (λ x. x.id) kept ∙ has_id,
          ap (λ x. lookup x.key inserted.string_index) kept
              ∙ lookup-inserted (s.parameter q).key
              ∙ rw other found,
        )

    insert_record-IsIndexed : IsIndexed inserted
    unfolding insert_record
    insert_record-IsIndexed = record {
      index_eq = index_eq_inserted;
      owned = owned_inserted;
      by_id = by_id_inserted;
    }

    pub insert_id-IsIndexed :
        (o : Option ℕ) → IsIndexed (insert_id casts o r.id key s.next inserted).0
    unfolding insert_id insert_record
    insert_id-IsIndexed (some taken) = insert_record-IsIndexed
    insert_id-IsIndexed none = record {
      index_eq = index_eq_inserted;
      owned = owned_inserted;
      by_id = λ id q e. elim (Bool-cases (r.id == id)) [
        | inl hit ↦
            let at : s.next ≡ q = ground (arith, hit, e) in
            let this = subst (λ x. inserted.parameter x ≡ r) at parameter_new in
            (
              ap (λ x. x.id) this ∙ ground arith,
              ap (λ x. lookup x.key inserted.string_index) this
                  ∙ ap (λ k. lookup k inserted.string_index) named
                  ∙ lookup-inserted key
                  ∙ rw (same_refl key) (ap some at),
            )
        | inr other ↦ by_id_inserted id q (ground (arith, other, e))
      ];
    }
