-- ===== src/State/Paths/Tests.antt =====
-- Paths made of the letters a and b.
use tanh_lib.Base.{◌≡◌, refl, [], ◌∷◌, arith, length}
use tanh_lib.State.Paths.{
  split_path, join_path, join_path_size, split_path-join_path, length-join_path,
}

split_two : split_path (97 ∷ 46 ∷ 98 ∷ 46 ∷ 97 ∷ []) ≡ (97 ∷ [], 98 ∷ 46 ∷ 97 ∷ [])
unfolding split_path
split_two = refl

join_two : join_path (97 ∷ []) (98 ∷ []) ≡ 97 ∷ 46 ∷ 98 ∷ []
unfolding join_path
join_two = refl

split_path-join_path_example : split_path (join_path (97 ∷ []) (98 ∷ [])) ≡ (97 ∷ [], 98 ∷ [])
split_path-join_path_example = split_path-join_path (97 ∷ []) (98 ∷ []) (λ e. (cc)) (λ e. (cc)) refl

length-join_path_example :
    length (join_path (97 ∷ []) (98 ∷ [])) ≡ join_path_size (97 ∷ []) (98 ∷ [])
length-join_path_example = length-join_path (97 ∷ []) (98 ∷ []) (omega arith)
