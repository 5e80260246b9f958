-- ===== src/State/Root/Access.antt =====
-- What is read after a parameter was created, set or deleted.
use tanh_lib.Base.{
  ℕ, ◌≡◌, inl, inr, refl, sym, ap, ◌∙◌, subst, Bool, true, false, ◌==◌, if◌then◌else◌, Option, none,
  some, arith, Bool-cases, clash,
}
use tanh_lib.State.Paths.{Str, same}
use tanh_lib.State.Groups.Tree.{same_refl}
use tanh_lib.State.Groups.{Groups, resolve_path, ok, throws, blocking, duplicate_parameter_id}
use tanh_lib.State.Dict.{lookup}
use tanh_lib.State.Values.{
  ParameterType, double_type, float_type, int_type, bool_type, string_type, Value, double_value,
  float_value, int_value, bool_value, string_value, Casts, Slot, write_value, read_value, to_double,
  to_float, to_int, to_bool,
}
use tanh_lib.State.Root.{
  Definition, ParameterRecord, State, assign_id, insert_id, insert_record, create_found,
  create_in_root, write_record, made_record, initial_slot, blank, may_read, set_found, set_in_root,
  get_found, get_from_root, outcome, notified,
}
use tanh_lib.State.Root.Indexed.{IsIndexed, lookup-inserted, parameter_new, parameter_old}

-- The type of a value.
abbrev pub type_of : {D F I : Type 0} → Value D F I → ParameterType
type_of (double_value d) = double_type
type_of (float_value f) = float_type
type_of (int_value i) = int_type
type_of (bool_value b) = bool_type
type_of (string_value s) = string_type

module _ {D F I : Type 0} (casts : Casts D F I) where
  -- A value of the parameter's own type is read back as it was written.
  read_value-write_value :
      (slot : Slot D F I) (v : Value D F I)
      → slot.type ≡ type_of v
      → read_value casts (type_of v) (write_value casts slot v) ≡ v
  unfolding read_value write_value to_double to_float to_int to_bool
  read_value-write_value slot (double_value d) h = rw h refl
  read_value-write_value slot (float_value f) h = rw h refl
  read_value-write_value slot (int_value i) h = rw h refl
  read_value-write_value slot (bool_value b) h = rw h refl
  read_value-write_value slot (string_value x) h = rw h refl

  may_read-blocking : (v : Value D F I) → may_read casts (type_of v) true ≡ true
  unfolding may_read
  may_read-blocking (double_value d) = refl
  may_read-blocking (float_value f) = refl
  may_read-blocking (int_value i) = refl
  may_read-blocking (bool_value b) = refl
  may_read-blocking (string_value x) = refl

  get_found-write_self :
      (s : State D F I) (key : Str) (r : ℕ) (v : Value D F I)
      → (s.parameter r).slot.type ≡ type_of v
      → get_found casts (some r) (write_record casts s r v) key (type_of v) true ≡ ok v
  unfolding get_found write_record
  get_found-write_self s key r v typed =
      let here : (r == r) ≡ true = ground arith in
      rw (may_read-blocking v)
        (rw here (ap ok (read_value-write_value (s.parameter r).slot v typed)))

  module _ {s : State D F I} (sync : IsIndexed s) where
    -- Records of different keys are different.
    other_record :
        (key k : Str) (r q : ℕ)
        → lookup key s.string_index ≡ some r
        → lookup k s.string_index ≡ some q
        → same key k ≡ false
        → (r == q) ≡ false
    other_record key k r q hit found apart = elim (Bool-cases (r == q)) [
      | inl e ↦
          let at : r ≡ q = ground arith in
          let eq =
            sym (sync.owned key r hit).1
            ∙ ap (λ x. (s.parameter x).key) at
            ∙ (sync.owned k q found).1 in
          elim (clash (subst (λ x. same key x ≡ true) eq (same_refl key)) apart) [ ]
      | inr e ↦ e
    ]

    get_found-write :
        (key k : Str) (r : ℕ) (v : Value D F I) (type : ParameterType) (b : Bool) (o : Option ℕ)
        → lookup key s.string_index ≡ some r
        → lookup k s.string_index ≡ o
        → same key k ≡ false
        → get_found casts o (write_record casts s r v) k type b ≡ get_found casts o s k type b
    unfolding get_found write_record
    get_found-write key k r v type b none hit found apart = refl
    get_found-write key k r v type b (some q) hit found apart =
        rw (other_record key k r q hit found apart) refl

    -- Setting a parameter that exists to a value of its own type returns when the groups of its key
    -- are found from the root, and throws the exception of that search otherwise. In either case
    -- the value is then read back under the key, and what is read under every other key, of any
    -- type, is as before.
    pub get_from_root-set_in_root :
        (g : Groups) (key : Str) (v : Value D F I) (r : ℕ)
        → lookup key s.string_index ≡ some r
        → (s.parameter r).slot.type ≡ type_of v
        → ((set_in_root casts g s key v).1 ≡ outcome (resolve_path g 0 key))
          × (get_from_root casts (set_in_root casts g s key v).0 key (type_of v) true ≡ ok v)
          × ((k : Str) (type : ParameterType) (b : Bool)
              → same key k ≡ false
              → get_from_root casts (set_in_root casts g s key v).0 k type b
                ≡ get_from_root casts s k type b)
    unfolding set_in_root set_found get_from_root notified
    get_from_root-set_in_root g key v r hit typed = rw hit (
      ap (λ k. outcome (resolve_path g 0 k)) (sync.owned key r hit).1,
      rw hit (get_found-write_self s key r v typed),
      (λ k type b apart. get_found-write key k r v type b _ hit refl apart),
    )

    get_found-insert :
        (key k : Str) (p : ParameterRecord D F I) (counter : ℕ) (type : ParameterType) (b : Bool)
        (o : Option ℕ)
        → p.key ≡ key
        → lookup key s.string_index ≡ none
        → lookup k s.string_index ≡ o
        → get_found casts o (insert_record casts s key p counter) k type b
          ≡ get_found casts o s k type b
    unfolding get_found
    get_found-insert key k p counter type b none named miss found = refl
    get_found-insert key k p counter type b (some q) named miss found =
        let kept = parameter_old casts sync key p counter named miss q (sync.owned k q found).0 in
        ap
          (λ x.
            if may_read casts type b
            then ok (read_value casts type x.slot)
            else throws (blocking x.key))
          kept

    insert_id-index :
        (o : Option ℕ) (id : ℕ) (key : Str) (r : ℕ) (t : State D F I)
        → ((insert_id casts o id key r t).0.string_index ≡ t.string_index)
          × ((insert_id casts o id key r t).0.parameter ≡ t.parameter)
    unfolding insert_id
    insert_id-index none id key r t = (refl, refl)
    insert_id-index (some q) id key r t = (refl, refl)

    insert_id-notified :
        (g : Groups) (o : Option ℕ) (id : ℕ) (key : Str) (r : ℕ) (t : State D F I)
        → notified g key (insert_id casts o id key r t).1 ≡ elim o [
          | none ↦ outcome (resolve_path g 0 key)
          | some taken ↦ throws (duplicate_parameter_id id key)
        ]
    unfolding insert_id notified
    insert_id-notified g none id key r t = refl
    insert_id-notified g (some q) id key r t = refl

    get_found-parameter :
        (o : Option ℕ) (t u : State D F I) (k : Str) (type : ParameterType) (b : Bool)
        → t.parameter ≡ u.parameter
        → get_found casts o t k type b ≡ get_found casts o u k type b
    unfolding get_found
    get_found-parameter none t u k type b e = refl
    get_found-parameter (some r) t u k type b e =
        ap
          (λ f.
            if may_read casts type b
            then ok (read_value casts type (f r).slot)
            else throws (blocking (f r).key))
          e

    lookup-insert_id :
        (o : Option ℕ) (id : ℕ) (key k : Str) (p : ParameterRecord D F I) (counter : ℕ)
        → p.key ≡ key
        → lookup key s.string_index ≡ none
        → lookup k
            (insert_id casts o id key s.next (insert_record casts s key p counter)).0.string_index
          ≡ (if same key k then some s.next else lookup k s.string_index)
    lookup-insert_id o id key k p counter named miss =
        ap (lookup k) (insert_id-index o id key s.next (insert_record casts s key p counter)).0
        ∙ lookup-inserted casts sync key p counter named miss k

    get_found-create :
        (o : Option ℕ) (id : ℕ) (key k : Str) (p : ParameterRecord D F I) (counter : ℕ)
        (type : ParameterType) (b : Bool)
        → p.key ≡ key
        → lookup key s.string_index ≡ none
        → same key k ≡ false
        → (let t = (insert_id casts o id key s.next (insert_record casts s key p counter)).0 in
            get_found casts (lookup k t.string_index) t k type b)
          ≡ get_found casts (lookup k s.string_index) s k type b
    get_found-create o id key k p counter type b named miss apart =
        let m = insert_record casts s key p counter in
        let t = (insert_id casts o id key s.next m).0 in
        ap (λ x. get_found casts x t k type b)
          (lookup-insert_id o id key k p counter named miss ∙ rw apart refl)
        ∙ get_found-parameter (lookup k s.string_index) t m k type b
            (insert_id-index o id key s.next m).1
        ∙ get_found-insert key k p counter type b (lookup k s.string_index) named miss refl

    -- Creating a parameter under a new key puts it in the string index and leaves what is read under
    -- every other key, of any type, as it was. When its identifier is taken
    -- it throws, and otherwise it returns or throws as the search for the groups of the key does;
    -- the parameter is there in all three cases.
    pub create_in_root_lem :
        (g : Groups) (key : Str) (def : Definition F) (zf : F) (zi : I)
        → lookup key s.string_index ≡ none
        → ((create_in_root casts g s key def zf zi).1
            ≡ elim (s.id_index (assign_id casts def.id s.next_auto_id).0) [
              | none ↦ outcome (resolve_path g 0 key)
              | some taken ↦
                  throws (duplicate_parameter_id (assign_id casts def.id s.next_auto_id).0 key)
            ])
          × (lookup key (create_in_root casts g s key def zf zi).0.string_index ≡ some s.next)
          × ((k : Str) (type : ParameterType) (b : Bool)
              → same key k ≡ false
              → get_from_root casts (create_in_root casts g s key def zf zi).0 k type b
                ≡ get_from_root casts s k type b)
    unfolding create_in_root create_found get_from_root
    create_in_root_lem g key def zf zi miss =
        let id = (assign_id casts def.id s.next_auto_id).0 in
        let o = s.id_index id in
        rw miss (
          insert_id-notified g o id key s.next _,
          lookup-insert_id o id key key _ _ refl miss ∙ rw (same_refl key) refl,
          (λ k type b apart. get_found-create o id key k _ _ type b refl miss apart),
        )

  initial_slot-type :
      (type : ParameterType) (default : F) (slot : Slot D F I)
      → (initial_slot casts type default slot).type ≡ slot.type
  unfolding initial_slot
  initial_slot-type double_type default slot = refl
  initial_slot-type float_type default slot = refl
  initial_slot-type int_type default slot = refl
  initial_slot-type bool_type default slot = refl
  initial_slot-type string_type default slot = refl

  -- The record that was made has the type of its definition.
  pub create_in_root-type :
      {s : State D F I}
      → IsIndexed s
      → (g : Groups) (key : Str) (def : Definition F) (zf : F) (zi : I)
      → lookup key s.string_index ≡ none
      → ((create_in_root casts g s key def zf zi).0.parameter s.next).slot.type ≡ def.type
  unfolding create_in_root create_found made_record
  create_in_root-type {s} sync g key def zf zi miss =
      let ids = assign_id casts def.id s.next_auto_id in
      let r = made_record casts ids.0 key def zf zi in
      rw miss (
        ap (λ f. (f s.next).slot.type)
          (insert_id-index sync (s.id_index ids.0) ids.0 key s.next
            (insert_record casts s key r ids.1)).1
        ∙ ap (λ x. x.slot.type) (parameter_new casts sync key r ids.1 refl miss)
        ∙ initial_slot-type def.type def.default_value (blank casts def.type zf zi))
