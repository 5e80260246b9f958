-- ===== src/Modulation/Scopes/Tests.antt =====
-- A matrix with one scope of 4 voices, named "v", and a source in it.
use tanh_lib.Base.{refl, true, [], ◌∷◌, arith}
use tanh_lib.State.Paths.{Str}
use tanh_lib.Modulation.Scopes.{
  ModulationScope, Source, Matrix, global_text, register_scope, entry, search,
}
use tanh_lib.Modulation.Scopes.Registry.{Registers, register_scope_lem}
use tanh_lib.Modulation.Scopes.Fits.{IsPrepared}
use tanh_lib.Modulation.Scopes.Prepared.{
  add_source_call, resize_call, apply, apply-IsPrepared, register_scope-stale,
}

abbrev name : Str
name = 118 ∷ []

abbrev matrix : Matrix
matrix = record {
  global_entry = record { name = 1; text = global_text; voice_count = 1 };
  other_entries = record { name = 2; text = name; voice_count = 4 } ∷ [];
  sources = [];
  is_prepared = true;
}

abbrev scope : ModulationScope
scope = record { id = 1; name = 2 }

abbrev source : Source
source = record { id = 0; scope = scope; voices = 0 }

matrix-IsPrepared : IsPrepared matrix
matrix-IsPrepared = record { prepared = refl; sources_fit = tt }

register_scope_lem_example :
    Registers matrix 3 (119 ∷ []) 8 refl (omega arith) (register_scope matrix 3 (119 ∷ []) 8)
register_scope_lem_example = register_scope_lem matrix 3 (119 ∷ []) 8 refl (omega arith)

abbrev with_source : Matrix
with_source = apply matrix (add_source_call source)

with_source-IsPrepared : IsPrepared with_source
with_source-IsPrepared = apply-IsPrepared matrix-IsPrepared (add_source_call source) refl

apply-IsPrepared_example : IsPrepared (apply with_source (resize_call scope 8))
apply-IsPrepared_example = apply-IsPrepared with_source-IsPrepared (resize_call scope 8) refl

register_scope-stale_example : ¬ IsPrepared (register_scope with_source 3 name 8).1
unfolding apply search entry
register_scope-stale_example =
    register_scope-stale with_source 3 name 8 0 (record { name = 2; text = name; voice_count = 4 })
      0 (record source { voices = 4 }) with_source-IsPrepared refl refl refl (omega arith) refl refl
