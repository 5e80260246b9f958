-- ===== src/State/Root.antt =====
-- src/state/State.cpp: the parameters by their keys, and the two indices. The records are named by
-- numbers, in the order in which they were made.
pub mod Indexed
pub mod Calls
pub mod Access
pub mod Clearing
mod Tests
use tanh_lib.Base.{
  ℕ, ◌+◌, ◌%◌, ◌^◌, ◌-◌, Bool, true, false, ◌==◌, not, ◌&&◌, leb, if◌then◌else◌, List, [], ◌∷◌,
  Option, none, some, update,
}
use tanh_lib.State.Paths.{Str, same}
use tanh_lib.State.Dict.{lookup, assign, emplace, erase_all, has_key}
use tanh_lib.State.Groups.{
  Groups, resolve_path, Done, Result, ok, throws, StateError, state_key_not_found,
  parameter_already_exists, duplicate_parameter_id, blocking,
}
use tanh_lib.State.Values.{
  ParameterType, double_type, float_type, int_type, bool_type, string_type, Value, float_value,
  Casts, Slot, write_value, read_value, to_double, to_int, to_bool,
}

-- What the store reads of a `ParameterDefinition`.
pub record Definition (F : Type 0) : Type 0 where
  pub type : ParameterType
  pub id : ℕ
  pub default_value : F

-- `ParameterRecord`
pub record ParameterRecord (D F I : Type 0) : Type 0 where
  pub id : ℕ
  pub key : Str
  pub slot : Slot D F I
  pub in_gesture : Bool

-- `m_storage`, `m_string_index_rcu`, `m_id_index_rcu` and `m_next_auto_id`, with the records.
pub record State (D F I : Type 0) : Type 0 where
  pub parameter : ℕ → ParameterRecord D F I
  pub next : ℕ
  pub storage : List (Str × ℕ)
  pub string_index : List (Str × ℕ)
  pub id_index : ℕ → Option ℕ
  pub next_auto_id : ℕ

-- `UINT32_MAX`
abbrev pub no_id : ℕ
no_id = 2 ^ 32 - 1

-- The first part of the path, without the separator, as `starts_with` compares it.
abbrev pub starts_with : Str → Str → Bool
starts_with key [] = true
starts_with [] (c ∷ prefix) = false
starts_with (d ∷ key) (c ∷ prefix) = (d == c) && starts_with key prefix

abbrev pub keys_with : Str → List (Str × ℕ) → List Str
keys_with prefix [] = []
keys_with prefix ((k, r) ∷ es) =
    let rest = keys_with prefix es in if starts_with k prefix then k ∷ rest else rest

-- The search for the group of a key, without the group.
unfoldable pub outcome : Result (ℕ × Str) → Result Done
outcome (ok at) = ok tt
outcome (throws e) = throws e

-- What a call returns that then tells the listeners of the key's group (`notify_after_write`): the
-- search for that group, from the root, throws when there is none. The callbacks are not modelled.
pub notified : Groups → Str → Result Done → Result Done
unfolding outcome
notified g key (ok done) = outcome (resolve_path g 0 key)
notified g key (throws e) = throws e

module _ {D F I : Type 0} (casts : Casts D F I) where
  -- The identifier that a definition gets, and the counter after it.
  pub assign_id : ℕ → ℕ → ℕ × ℕ
  assign_id id next_auto_id =
      if id == no_id
      then (next_auto_id, (next_auto_id + 1) % 2 ^ 32)
      else if leb next_auto_id id
      then (id, (id + 1) % 2 ^ 32)
      else (id, next_auto_id)

  -- A record as it is made.
  abbrev pub blank : ParameterType → F → I → Slot D F I
  blank type zero_float zero_int = record {
    type = type;
    atomic_double = casts.zero_double;
    atomic_float = zero_float;
    atomic_int = zero_int;
    atomic_bool = false;
    string = [];
  }

  -- The initial value, from the default; `String` starts with 0.0.
  pub initial_slot : ParameterType → F → Slot D F I → Slot D F I
  unfolding to_double to_int to_bool
  initial_slot double_type default slot = record slot {
    atomic_double = to_double casts (float_value default);
  }
  initial_slot float_type default slot = record slot { atomic_float = default }
  initial_slot int_type default slot = record slot {
    atomic_int = to_int casts (float_value default);
  }
  initial_slot bool_type default slot = record slot {
    atomic_bool = to_bool casts (float_value default);
  }
  initial_slot string_type default slot = record slot { atomic_double = casts.zero_double }

  -- The record, the storage and the string index, before the index by identifier.
  pub insert_record : State D F I → Str → ParameterRecord D F I → ℕ → State D F I
  insert_record s key r next_auto_id = record {
    parameter = update s.parameter s.next r;
    next = s.next + 1;
    storage = emplace key s.next s.storage;
    string_index = assign key s.next s.string_index;
    id_index = s.id_index;
    next_auto_id = next_auto_id;
  }

  -- The last step, by what the index by identifier has: an exception leaves it unpublished.
  pub insert_id : Option ℕ → ℕ → Str → ℕ → State D F I → State D F I × Result Done
  insert_id none id key r s = (record s { id_index = update s.id_index id (some r) }, ok tt)
  insert_id (some taken) id key r s = (s, throws (duplicate_parameter_id id key))

  pub made_record : ℕ → Str → Definition F → F → I → ParameterRecord D F I
  unfolding initial_slot
  made_record id key def zero_float zero_int = record {
    id = id;
    key = key;
    slot = initial_slot def.type def.default_value (blank def.type zero_float zero_int);
    in_gesture = false;
  }

  -- `create_in_root` up to the telling of the listeners, by what the string index has.
  pub create_found : Option ℕ → State D F I → Str → Definition F → F → I → State D F I × Result Done
  unfolding assign_id made_record insert_record insert_id
  create_found (some taken) s key def zero_float zero_int =
      (s, throws (parameter_already_exists key))
  create_found none s key def zero_float zero_int =
      let ids = assign_id def.id s.next_auto_id in
      insert_id (s.id_index ids.0) ids.0 key s.next
        (insert_record s key (made_record ids.0 key def zero_float zero_int) ids.1)

  pub create_in_root : Groups → State D F I → Str → Definition F → F → I → State D F I × Result Done
  unfolding create_found notified
  create_in_root g s key def zero_float zero_int =
      let made = create_found (lookup key s.string_index) s key def zero_float zero_int in
      (made.0, notified g key made.1)

  -- `write_value` into a record.
  pub write_record : State D F I → ℕ → Value D F I → State D F I
  unfolding write_value
  write_record s r v =
      let old = s.parameter r in
      record s {
        parameter = update s.parameter r (record old { slot = write_value casts old.slot v });
      }

  -- `set_in_root` and `set_by_id`, by what the index has: the listeners are those of the group of
  -- the record's own key.
  pub set_found : Groups → Option ℕ → State D F I → Str → Value D F I → State D F I × Result Done
  unfolding write_record notified
  set_found g none s key v = (s, throws (state_key_not_found key))
  set_found g (some r) s key v = (write_record s r v, notified g (s.parameter r).key (ok tt))

  pub set_in_root : Groups → State D F I → Str → Value D F I → State D F I × Result Done
  unfolding set_found
  set_in_root g s key v = set_found g (lookup key s.string_index) s key v

  -- The message of the exception, "id:" and the digits, is a parameter.
  pub set_by_id : Groups → (ℕ → Str) → State D F I → ℕ → Value D F I → State D F I × Result Done
  unfolding set_found
  set_by_id g id_text s id v = set_found g (s.id_index id) s (id_text id) v

  -- A string is only read when blocking is allowed.
  pub may_read : ParameterType → Bool → Bool
  may_read double_type allow_blocking = true
  may_read float_type allow_blocking = true
  may_read int_type allow_blocking = true
  may_read bool_type allow_blocking = true
  may_read string_type allow_blocking = allow_blocking

  pub get_found : Option ℕ → State D F I → Str → ParameterType → Bool → Result (Value D F I)
  unfolding may_read read_value
  get_found none s key type allow_blocking = throws (state_key_not_found key)
  get_found (some r) s key type allow_blocking =
      if may_read type allow_blocking
      then ok (read_value casts type (s.parameter r).slot)
      else throws (blocking (s.parameter r).key)

  -- `get_from_root<T>`
  pub get_from_root : State D F I → Str → ParameterType → Bool → Result (Value D F I)
  unfolding get_found
  get_from_root s key type allow_blocking =
      get_found (lookup key s.string_index) s key type allow_blocking

  pub get_by_id : (ℕ → Str) → State D F I → ℕ → ParameterType → Bool → Result (Value D F I)
  unfolding get_found
  get_by_id id_text s id type allow_blocking =
      get_found (s.id_index id) s (id_text id) type allow_blocking

  -- `set_gesture_from_root`, by what the index has, without the callbacks.
  pub set_gesture_found : Groups → Option ℕ → State D F I → Str → Bool → State D F I × Result Done
  unfolding notified
  set_gesture_found g none s key gesture = (s, ok tt)
  set_gesture_found g (some r) s key gesture =
      let old = s.parameter r in
      (
        record s { parameter = update s.parameter r (record old { in_gesture = gesture }) },
        notified g key (ok tt),
      )

  pub set_gesture_from_root : Groups → State D F I → Str → Bool → State D F I × Result Done
  unfolding set_gesture_found
  set_gesture_from_root g s key gesture =
      set_gesture_found g (lookup key s.string_index) s key gesture

  -- `State::clear`, before the groups.
  pub clear_root : State D F I → State D F I
  clear_root s = record s {
    storage = [];
    string_index = [];
    id_index = λ _. none;
    next_auto_id = 0;
  }

  pub unless_deleted : State D F I → List Str → Option ℕ → Option ℕ
  unless_deleted s keys none = none
  unless_deleted s keys (some r) = if has_key (s.parameter r).key keys then none else some r

  -- `StateGroup::clear` of a group below the root with the given full path, before its groups.
  pub clear_group : State D F I → Str → State D F I
  unfolding unless_deleted
  clear_group s full_path =
      let keys = keys_with full_path s.storage in
      record s {
        string_index = erase_all keys s.string_index;
        id_index = λ id. unless_deleted s keys (s.id_index id);
        storage = erase_all keys s.storage;
      }
