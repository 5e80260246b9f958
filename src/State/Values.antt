-- ===== src/State/Values.antt =====
-- src/state/State.cpp: `write_value` and `read_value`, which convert between the type of the value
-- and that of the parameter.
use tanh_lib.Base.{Bool, false, ◌||◌, if◌then◌else◌, List, [], ◌∷◌, Option, none, some}
use tanh_lib.State.Paths.{Str, same}

-- `ParameterType`
pub data ParameterType : Type 0 where
  double_type : ParameterType
  float_type : ParameterType
  int_type : ParameterType
  bool_type : ParameterType
  string_type : ParameterType

-- What stands for `T`: its values, by the type.
pub data Value (D F I : Type 0) : Type 0 where
  double_value : D → Value D F I
  float_value : F → Value D F I
  int_value : I → Value D F I
  bool_value : Bool → Value D F I
  string_value : Str → Value D F I

-- The conversions of C++ between `double`, `float`, `int` and `bool`, `std::to_string`, and
-- `std::strtod`, which is `none` when it converts nothing.
pub record Casts (D F I : Type 0) : Type 0 where
  pub zero_double : D
  pub one_double : D
  pub float_to_double : F → D
  pub int_to_double : I → D
  pub bool_to_double : Bool → D
  pub double_to_float : D → F
  pub int_to_float : I → F
  pub bool_to_float : Bool → F
  pub double_to_int : D → I
  pub float_to_int : F → I
  pub bool_to_int : Bool → I
  pub double_to_bool : D → Bool
  pub float_to_bool : F → Bool
  pub int_to_bool : I → Bool
  pub double_to_string : D → Str
  pub float_to_string : F → Str
  pub int_to_string : I → Str
  pub strtod : Str → Option D

-- "true", "1", "yes", "on"
abbrev pub true_words : List Str
true_words =
    (116 ∷ 114 ∷ 117 ∷ 101 ∷ []) ∷ (49 ∷ []) ∷ (121 ∷ 101 ∷ 115 ∷ []) ∷ (111 ∷ 110 ∷ []) ∷ []

-- "false", "0", "no", "off"
abbrev pub false_words : List Str
false_words =
    (102 ∷ 97 ∷ 108 ∷ 115 ∷ 101 ∷ []) ∷ (48 ∷ []) ∷ (110 ∷ 111 ∷ []) ∷ (111 ∷ 102 ∷ 102 ∷ []) ∷ []

abbrev pub is_word : Str → List Str → Bool
is_word s [] = false
is_word s (w ∷ ws) = same s w || is_word s ws

abbrev pub or_zero {ℓ} : {A : Type ℓ} → A → Option A → A
or_zero zero none = zero
or_zero zero (some a) = a

-- The cache and the string of a record, and the type in its definition.
pub record Slot (D F I : Type 0) : Type 0 where
  pub type : ParameterType
  pub atomic_double : D
  pub atomic_float : F
  pub atomic_int : I
  pub atomic_bool : Bool
  pub string : Str

module _ {D F I : Type 0} (casts : Casts D F I) where
  -- `parse_string_as_double`
  unfoldable pub parse_string_as_double : Str → D
  parse_string_as_double s =
      if is_word s true_words
      then casts.one_double
      else if is_word s false_words
      then casts.zero_double
      else or_zero casts.zero_double (casts.strtod s)

  -- `static_cast` of a value; that of a string is of the number that it is parsed as.
  unfoldable pub to_double : Value D F I → D
  unfolding parse_string_as_double
  to_double (double_value d) = d
  to_double (float_value f) = casts.float_to_double f
  to_double (int_value i) = casts.int_to_double i
  to_double (bool_value b) = casts.bool_to_double b
  to_double (string_value s) = parse_string_as_double s

  unfoldable pub to_float : Value D F I → F
  unfolding parse_string_as_double
  to_float (double_value d) = casts.double_to_float d
  to_float (float_value f) = f
  to_float (int_value i) = casts.int_to_float i
  to_float (bool_value b) = casts.bool_to_float b
  to_float (string_value s) = casts.double_to_float (parse_string_as_double s)

  unfoldable pub to_int : Value D F I → I
  unfolding parse_string_as_double
  to_int (double_value d) = casts.double_to_int d
  to_int (float_value f) = casts.float_to_int f
  to_int (int_value i) = i
  to_int (bool_value b) = casts.bool_to_int b
  to_int (string_value s) = casts.double_to_int (parse_string_as_double s)

  unfoldable pub to_bool : Value D F I → Bool
  unfolding parse_string_as_double
  to_bool (double_value d) = casts.double_to_bool d
  to_bool (float_value f) = casts.float_to_bool f
  to_bool (int_value i) = casts.int_to_bool i
  to_bool (bool_value b) = b
  to_bool (string_value s) = casts.double_to_bool (parse_string_as_double s)

  -- The string of a `String` parameter is stored when the value is a string.
  pub keep_string : Str → Value D F I → Str
  keep_string old (double_value d) = old
  keep_string old (float_value f) = old
  keep_string old (int_value i) = old
  keep_string old (bool_value b) = old
  keep_string old (string_value s) = s

  -- `write_value`, by the type of the parameter.
  pub write_typed : ParameterType → Slot D F I → Value D F I → Slot D F I
  unfolding to_double to_float to_int to_bool keep_string
  write_typed double_type slot v = record slot { atomic_double = to_double v }
  write_typed float_type slot v = record slot { atomic_float = to_float v }
  write_typed int_type slot v = record slot { atomic_int = to_int v }
  write_typed bool_type slot v = record slot { atomic_bool = to_bool v }
  write_typed string_type slot v = record slot {
    atomic_double = to_double v;
    string = keep_string slot.string v;
  }

  unfoldable pub write_value : Slot D F I → Value D F I → Slot D F I
  unfolding write_typed
  write_value slot v = write_typed slot.type slot v

  -- The number that `read_value` loads, by the type of the parameter.
  pub load : ParameterType → Slot D F I → Value D F I
  load double_type slot = double_value slot.atomic_double
  load float_type slot = float_value slot.atomic_float
  load int_type slot = int_value slot.atomic_int
  load bool_type slot = bool_value slot.atomic_bool
  load string_type slot = double_value slot.atomic_double

  -- `read_value<std::string>`; "true" and "false" are the first words.
  pub read_string : ParameterType → Slot D F I → Str
  read_string double_type slot = casts.double_to_string slot.atomic_double
  read_string float_type slot = casts.float_to_string slot.atomic_float
  read_string int_type slot = casts.int_to_string slot.atomic_int
  read_string bool_type slot =
      if slot.atomic_bool then 116 ∷ 114 ∷ 117 ∷ 101 ∷ [] else 102 ∷ 97 ∷ 108 ∷ 115 ∷ 101 ∷ []
  read_string string_type slot = slot.string

  -- `read_value<T>`, by `T`.
  unfoldable pub read_value : ParameterType → Slot D F I → Value D F I
  unfolding load read_string to_double to_float to_int to_bool
  read_value double_type slot = double_value (to_double (load slot.type slot))
  read_value float_type slot = float_value (to_float (load slot.type slot))
  read_value int_type slot = int_value (to_int (load slot.type slot))
  read_value bool_type slot = bool_value (to_bool (load slot.type slot))
  read_value string_type slot = string_value (read_string slot.type slot)
