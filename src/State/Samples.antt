-- ===== src/State/Samples.antt =====
-- Conversions, a store and a tree of groups for the tests, over numbers that are all naturals.
use tanh_lib.Base.{ℕ, refl, Bool, false, ◌==◌, if◌then◌else◌, not, [], ◌∷◌, none, arith}
use tanh_lib.State.Values.{Casts, int_type}
use tanh_lib.State.Groups.{Groups, find_group}
use tanh_lib.State.Groups.Tree.{IsTree}
use tanh_lib.State.Root.{State}
use tanh_lib.State.Root.Indexed.{IsIndexed}

abbrev from_bool : Bool → ℕ
from_bool b = if b then 1 else 0

abbrev pub casts : Casts ℕ ℕ ℕ
casts = record {
  zero_double = 0;
  one_double = 1;
  float_to_double = λ n. n;
  int_to_double = λ n. n;
  bool_to_double = from_bool;
  double_to_float = λ n. n;
  int_to_float = λ n. n;
  bool_to_float = from_bool;
  double_to_int = λ n. n;
  float_to_int = λ n. n;
  bool_to_int = from_bool;
  double_to_bool = λ n. not (n == 0);
  float_to_bool = λ n. not (n == 0);
  int_to_bool = λ n. not (n == 0);
  double_to_string = λ n. n ∷ [];
  float_to_string = λ n. n ∷ [];
  int_to_string = λ n. n ∷ [];
  strtod = λ s. none;
}

abbrev pub empty : State ℕ ℕ ℕ
empty = record {
  parameter = λ _. record {
    id = 0;
    key = [];
    slot = record {
      type = int_type;
      atomic_double = 0;
      atomic_float = 0;
      atomic_int = 0;
      atomic_bool = false;
      string = [];
    };
    in_gesture = false;
  };
  next = 0;
  storage = [];
  string_index = [];
  id_index = λ _. none;
  next_auto_id = 0;
}

pub empty-IsIndexed : IsIndexed empty
empty-IsIndexed = record { index_eq = λ k. refl; owned = λ k r e. (cc); by_id = λ id r e. (cc) }

abbrev pub root_only : Groups
root_only = record { group = λ _. record { parent = none; name = []; groups = [] }; next = 1 }

pub root_only-IsTree : IsTree root_only
unfolding find_group
root_only-IsTree = record {
  has_root = omega arith;
  root_parent = refl;
  root_name = refl;
  children = λ g b name c e. (cc);
}
