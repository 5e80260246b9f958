-- ===== src/State/Root/Calls.antt =====
-- Every call on the store keeps the indices in step with the storage.
use tanh_lib.Base.{
  ℕ, ◌≡◌, inl, inr, refl, sym, ap, ◌∙◌, subst, Bool, false, ◌==◌, if◌then◌else◌, List, Option, none,
  some, update, arith, Bool-cases,
}
use tanh_lib.State.Paths.{Str}
use tanh_lib.State.Dict.{lookup, has_key, lookup-erase_all}
use tanh_lib.State.Groups.{Groups}
use tanh_lib.State.Values.{Value, Casts}
use tanh_lib.State.Root.{
  Definition, ParameterRecord, State, keys_with, create_found, create_in_root, write_record,
  set_found, set_in_root, set_by_id, set_gesture_found, set_gesture_from_root, clear_root,
  unless_deleted, clear_group,
}
use tanh_lib.State.Root.Indexed.{IsIndexed, insert_id-IsIndexed}

module _ {D F I : Type 0} (casts : Casts D F I) where
  create_found-IsIndexed :
      {s : State D F I}
      → IsIndexed s
      → (key : Str) (def : Definition F) (zf : F) (zi : I) (o : Option ℕ)
      → lookup key s.string_index ≡ o
      → IsIndexed (create_found casts o s key def zf zi).0
  unfolding create_found
  create_found-IsIndexed sync key def zf zi (some r) found = sync
  create_found-IsIndexed sync key def zf zi none miss =
      insert_id-IsIndexed casts sync key _ _ refl miss _

  -- Changing a record in place leaves its key and its identifier.
  kept :
      {s : State D F I}
      → IsIndexed s
      → (r : ℕ) (p : ParameterRecord D F I) → p.key ≡ (s.parameter r).key
      → p.id ≡ (s.parameter r).id
      → IsIndexed (record s { parameter = update s.parameter r p })
  kept {s} sync r p key_eq id_eq =
      let keys : (q : ℕ) → (update s.parameter r p q).key ≡ (s.parameter q).key = λ q.
        elim (Bool-cases (r == q)) [
          | inl e ↦
              let at : r ≡ q = ground arith in rw e (key_eq ∙ ap (λ x. (s.parameter x).key) at)
          | inr e ↦ rw e refl
        ] in
      let ids : (q : ℕ) → (update s.parameter r p q).id ≡ (s.parameter q).id = λ q.
        elim (Bool-cases (r == q)) [
          | inl e ↦ let at : r ≡ q = ground arith in rw e (id_eq ∙ ap (λ x. (s.parameter x).id) at)
          | inr e ↦ rw e refl
        ] in
      record {
        index_eq = sync.index_eq;
        owned = λ k q e. let (lt, own) = sync.owned k q e in (lt, keys q ∙ own);
        by_id = λ id q e.
            let (has_id, found) = sync.by_id id q e in
            (ids q ∙ has_id, ap (λ k. lookup k s.string_index) (keys q) ∙ found);
      }

  set_found-IsIndexed :
      {s : State D F I}
      → IsIndexed s
      → (g : Groups) (key : Str) (v : Value D F I) (o : Option ℕ)
      → IsIndexed (set_found casts g o s key v).0
  unfolding set_found write_record
  set_found-IsIndexed sync g key v none = sync
  set_found-IsIndexed sync g key v (some r) = kept sync r _ refl refl

  set_gesture_found-IsIndexed :
      {s : State D F I}
      → IsIndexed s
      → (g : Groups) (key : Str) (gesture : Bool) (o : Option ℕ)
      → IsIndexed (set_gesture_found casts g o s key gesture).0
  unfolding set_gesture_found
  set_gesture_found-IsIndexed sync g key gesture none = sync
  set_gesture_found-IsIndexed sync g key gesture (some r) = kept sync r _ refl refl

  unless_deleted-cases :
      (s : State D F I) (keys : List Str) (o : Option ℕ) (r : ℕ)
      → unless_deleted casts s keys o ≡ some r
      → (o ≡ some r) × (has_key (s.parameter r).key keys ≡ false)
  unfolding unless_deleted
  unless_deleted-cases s keys none r e = (cc)
  unless_deleted-cases s keys (some q) r e = elim (Bool-cases (has_key (s.parameter q).key keys)) [
    | inl gone ↦ ground (arith, gone, e)
    | inr stays ↦
        let at : q ≡ r = ground (arith, stays, e) in
        (ap some at, subst (λ x. has_key (s.parameter x).key keys ≡ false) at stays)
  ]

  clear_group-IsIndexed :
      {s : State D F I}
      → IsIndexed s
      → (full_path : Str) → IsIndexed (clear_group casts s full_path)
  unfolding clear_group
  clear_group-IsIndexed {s} sync full_path =
      let keys = keys_with full_path s.storage in
      let gone = λ (k : Str). lookup-erase_all k keys s.string_index in
      record {
        index_eq = λ k.
            gone k
            ∙ ap (λ o. if has_key k keys then none else o) (sync.index_eq k)
            ∙ sym (lookup-erase_all k keys s.storage);
        owned = λ k q e. sync.owned k q (elim (Bool-cases (has_key k keys)) [
          | inl h ↦ ground (arith, h, e, gone k)
          | inr h ↦ ground (arith, h, e, gone k)
        ]);
        by_id = λ id q e.
            let (was, stays) = unless_deleted-cases s keys (s.id_index id) q e in
            let (has_id, found) = sync.by_id id q was in
            (has_id, gone (s.parameter q).key ∙ rw stays found);
      }

  -- The calls that change the store.
  pub data Call : Type 0 where
    create_call : Str → Definition F → F → I → Call
    set_call : Str → Value D F I → Call
    set_by_id_call : (ℕ → Str) → ℕ → Value D F I → Call
    gesture_call : Str → Bool → Call
    clear_call : Call
    clear_group_call : Str → Call

  unfoldable pub apply : Groups → State D F I → Call → State D F I
  unfolding create_in_root set_in_root set_by_id set_gesture_from_root clear_root clear_group
  apply g s (create_call key def zf zi) = (create_in_root casts g s key def zf zi).0
  apply g s (set_call key v) = (set_in_root casts g s key v).0
  apply g s (set_by_id_call text id v) = (set_by_id casts g text s id v).0
  apply g s (gesture_call key gesture) = (set_gesture_from_root casts g s key gesture).0
  apply g s clear_call = clear_root casts s
  apply g s (clear_group_call full_path) = clear_group casts s full_path

  -- A call of any kind, whether it throws or not, keeps the two indices and the storage in step: the
  -- string index has the entries of the storage, each for a record of that key, and what the index
  -- by identifier holds has that identifier and is found under its key.
  pub apply-IsIndexed :
      {s : State D F I} → IsIndexed s → (g : Groups) (c : Call) → IsIndexed (apply g s c)
  unfolding create_in_root set_in_root set_by_id set_gesture_from_root clear_root apply
  apply-IsIndexed sync g (create_call key def zf zi) =
      create_found-IsIndexed sync key def zf zi _ refl
  apply-IsIndexed sync g (set_call key v) = set_found-IsIndexed sync g key v _
  apply-IsIndexed sync g (set_by_id_call text id v) = set_found-IsIndexed sync g _ v _
  apply-IsIndexed sync g (gesture_call key gesture) =
      set_gesture_found-IsIndexed sync g key gesture _
  apply-IsIndexed sync g clear_call = record {
    index_eq = λ k. refl;
    owned = λ k r e. (cc);
    by_id = λ id r e. (cc);
  }
  apply-IsIndexed sync g (clear_group_call full_path) = clear_group-IsIndexed sync full_path
