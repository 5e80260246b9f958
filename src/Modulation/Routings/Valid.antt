-- ===== src/Modulation/Routings/Valid.antt =====
-- What the table of routings keeps: distinct identifiers and ends, and sources that are registered.
use tanh_lib.Base.{
  ℕ, ◌+◌, ◌%◌, ◌^◌, ◌<◌, ◌≡◌, ◌∙◌, refl, Bool, true, false, not, ◌&&◌, ◌==◌, List, [], ◌∷◌, Option,
  none, some, update, arith, Bool-cases, inl, inr,
}
use tanh_lib.Modulation.Routings.{
  UserRouting, Table, find, erase_if, has_id, has_ends, find_user_routing,
  find_user_routing_between, has_value, store_routing, add_routing, remove_routing,
  remove_routing_between, remove_source, invalid_routing_id,
}
use tanh_lib.Modulation.Routings.Distinct.{
  Distinct, Every, find-snoc, find-erase_if_self, find-erase_if_other, Distinct-erase_if,
  Every-erase_if, Every-snoc, Distinct-snoc,
}

none-has_value : {A : Type 0} (o : Option A) → has_value o ≡ false → o ≡ none
none-has_value none h = refl
none-has_value (some a) h = (cc)

module _ {F : Type 0} where
  abbrev pub same_id : UserRouting F → UserRouting F → Bool
  same_id x y = has_id x.id y

  abbrev pub same_ends : UserRouting F → UserRouting F → Bool
  same_ends x y = has_ends x.source_id x.target_id y

  -- No two routings share their identifier, or both their ends; identifiers in use are neither 0
  -- nor to be given out next or later; each routing has a registered source.
  pub record IsValid (t : Table F) : Type 0 where
    pub ids_distinct : Distinct same_id t.user_routings
    pub ends_distinct : Distinct same_ends t.user_routings
    pub ids_used : Every (λ r. (0 < r.id) × (r.id < t.next_routing_id)) t.user_routings
    pub sources_known : Every (λ r. t.sources r.source_id ≡ true) t.user_routings
    pub next_positive : 0 < t.next_routing_id

  fresh_id :
      (rs : List (UserRouting F)) (n : ℕ) (x : UserRouting F)
      → x.id ≡ n
      → Every (λ r. (0 < r.id) × (r.id < n)) rs
      → Every (λ y. same_id y x ≡ false) rs
  fresh_id [] n x e h = tt
  fresh_id (y ∷ rs) n x e h =
      let (below, rest) = h in (ground (arith, below.1), fresh_id rs n x e rest)

  fresh_ends :
      (rs : List (UserRouting F)) (x : UserRouting F)
      → find (has_ends x.source_id x.target_id) rs ≡ none
      → Every (λ y. same_ends y x ≡ false) rs
  unfolding find
  fresh_ends [] x h = tt
  fresh_ends (y ∷ rs) x h = (ground arith, fresh_ends rs x (ground arith))

  Every-map_lt :
      (rs : List (UserRouting F)) (n k : ℕ)
      → n < k
      → Every (λ r. (0 < r.id) × (r.id < n)) rs
      → Every (λ r. (0 < r.id) × (r.id < k)) rs
  Every-map_lt [] n k l h = tt
  Every-map_lt (y ∷ rs) n k l h =
      let (below, rest) = h in ((below.0, omega (arith, below.1)), Every-map_lt rs n k l rest)

  find-next :
      (rs : List (UserRouting F)) (n : ℕ)
      → Every (λ r. (0 < r.id) × (r.id < n)) rs
      → find (has_id n) rs ≡ none
  unfolding find
  find-next [] n h = refl
  find-next (y ∷ rs) n h = let (below, rest) = h in ground (arith, find-next rs n rest, below.1)

  store_routing-IsValid :
      (t : Table F) (r : UserRouting F)
      → IsValid t
      → t.next_routing_id + 1 < 2 ^ 32
      → find_user_routing_between t r.source_id r.target_id ≡ none
      → t.sources r.source_id ≡ true
      → IsValid (store_routing t r).1
  unfolding store_routing find_user_routing_between
  store_routing-IsValid t r v room new known =
      let x : UserRouting F = record r { id = t.next_routing_id } in
      let next : (t.next_routing_id + 1) % 2 ^ 32 ≡ t.next_routing_id + 1 = omega arith in
      record {
        ids_distinct =
            Distinct-snoc same_id t.user_routings x
              (fresh_id t.user_routings t.next_routing_id x refl v.ids_used) v.ids_distinct;
        ends_distinct =
            Distinct-snoc same_ends t.user_routings x (fresh_ends t.user_routings x new)
              v.ends_distinct;
        ids_used = rw next (
            Every-snoc _ t.user_routings x
              (Every-map_lt t.user_routings t.next_routing_id _ (omega arith) v.ids_used)
              (v.next_positive, omega arith));
        sources_known = Every-snoc _ t.user_routings x v.sources_known known;
        next_positive = rw next (omega arith);
      }

  -- While a 32-bit identifier is left, `add_routing` keeps the table valid.
  pub add_routing-IsValid :
      (is_modulatable : ℕ → Bool) (t : Table F) (r : UserRouting F)
      → IsValid t
      → t.next_routing_id + 1 < 2 ^ 32
      → IsValid (add_routing is_modulatable t r).1
  unfolding add_routing
  add_routing-IsValid is_modulatable t r v room =
      elim (Bool-cases (has_value (find_user_routing_between t r.source_id r.target_id))) [
        | inl e ↦ rw e v
        | inr new ↦ rw new (elim (Bool-cases (t.sources r.source_id)) [
          | inr e ↦ rw e v
          | inl known ↦ rw known (elim (Bool-cases (is_modulatable r.target_id)) [
            | inr e ↦ rw e v
            | inl m ↦ rw m (store_routing-IsValid t r v room (none-has_value _ new) known)
          ])
        ])
      ]

  store_routing-find :
      (t : Table F) (r : UserRouting F)
      → IsValid t
      → find_user_routing (store_routing t r).1 t.next_routing_id
        ≡ some (record r { id = t.next_routing_id })
  unfolding store_routing find_user_routing
  store_routing-find t r v =
      let x : UserRouting F = record r { id = t.next_routing_id } in
      find-snoc (has_id t.next_routing_id) t.user_routings x
        (find-next t.user_routings t.next_routing_id v.ids_used)
      ∙ ground arith

  -- The guards of `add_routing`: a new pair of ends, a registered source, a modulatable target.
  abbrev pub is_accepted : (ℕ → Bool) → Table F → UserRouting F → Bool
  is_accepted is_modulatable t r =
      not (has_value (find_user_routing_between t r.source_id r.target_id))
      && (t.sources r.source_id && is_modulatable r.target_id)

  -- The identifier given out finds the routing if `accepted`, and is 0 on an unchanged table if not.
  abbrev pub AddsOrRefuses : Bool → UserRouting F → Table F → ℕ × Table F → Type 0
  AddsOrRefuses true r t (id, t') =
      (0 < id) × (find_user_routing t' id ≡ some (record r { id = id }))
  AddsOrRefuses false r t (id, t') = (id ≡ invalid_routing_id) × (t' ≡ t)

  -- A routing on a valid table that is new, with a registered source and a modulatable target, is
  -- added under an identifier other than 0, by which it is found again; any other is refused with
  -- 0, and the table stays as it was.
  pub add_routing-find :
      (is_modulatable : ℕ → Bool) (t : Table F) (r : UserRouting F)
      → IsValid t
      → AddsOrRefuses (is_accepted is_modulatable t r) r t (add_routing is_modulatable t r)
  unfolding add_routing
  add_routing-find is_modulatable t r v =
      elim (Bool-cases (has_value (find_user_routing_between t r.source_id r.target_id))) [
        | inl e ↦ rw e (refl, refl)
        | inr new ↦ rw new (elim (Bool-cases (t.sources r.source_id)) [
          | inr e ↦ rw e (refl, refl)
          | inl known ↦ rw known (elim (Bool-cases (is_modulatable r.target_id)) [
            | inr e ↦ rw e (refl, refl)
            | inl m ↦ rw m (unfold store_routing in v.next_positive, store_routing-find t r v)
          ])
        ])
      ]

  erase-IsValid :
      (t : Table F) (q : UserRouting F → Bool)
      → IsValid t
      → IsValid (record t { user_routings = erase_if q t.user_routings })
  erase-IsValid t q v = record {
    ids_distinct = Distinct-erase_if same_id q t.user_routings v.ids_distinct;
    ends_distinct = Distinct-erase_if same_ends q t.user_routings v.ends_distinct;
    ids_used = Every-erase_if _ q t.user_routings v.ids_used;
    sources_known = Every-erase_if _ q t.user_routings v.sources_known;
    next_positive = v.next_positive;
  }

  -- Removing a routing, by its identifier or by its ends, keeps the table valid; none is found there
  -- afterwards, and under every other identifier, or other ends, the same is found as before.
  pub remove_routing-find :
      (t : Table F) (routing_id source_id target_id : ℕ)
      → IsValid t
      → IsValid (remove_routing t routing_id)
        × (find_user_routing (remove_routing t routing_id) routing_id ≡ none)
        × ((id : ℕ)
            → (id == routing_id) ≡ false
            → find_user_routing (remove_routing t routing_id) id ≡ find_user_routing t id)
        × IsValid (remove_routing_between t source_id target_id)
        × (find_user_routing_between
              (remove_routing_between t source_id target_id)
              source_id
              target_id
            ≡ none)
        × ((s u : ℕ)
            → ((s == source_id) && (u == target_id)) ≡ false
            → find_user_routing_between (remove_routing_between t source_id target_id) s u
              ≡ find_user_routing_between t s u)
  unfolding remove_routing remove_routing_between find_user_routing find_user_routing_between
  remove_routing-find t routing_id source_id target_id v = (
    erase-IsValid t (has_id routing_id) v,
    find-erase_if_self (has_id routing_id) t.user_routings,
    (λ id apart.
        find-erase_if_other (has_id id) (has_id routing_id) t.user_routings
          (λ x hit. ground (arith, hit, apart))),
    erase-IsValid t (has_ends source_id target_id) v,
    find-erase_if_self (has_ends source_id target_id) t.user_routings,
    (λ s u apart.
        find-erase_if_other (has_ends s u) (has_ends source_id target_id) t.user_routings
          (λ x hit. ground (arith, hit, apart))),
  )

  still_known :
      (sources : ℕ → Bool) (id : ℕ) (rs : List (UserRouting F))
      → Every (λ r. sources r.source_id ≡ true) rs
      → Every
          (λ r. update sources id false r.source_id ≡ true)
          (erase_if (λ r. r.source_id == id) rs)
  unfolding erase_if
  still_known sources id [] h = tt
  still_known sources id (y ∷ rs) h = elim (Bool-cases (y.source_id == id)) [
    | inl e ↦ rw e (still_known sources id rs h.1)
    | inr e ↦ rw e (ground (arith, h.0), still_known sources id rs h.1)
  ]

  -- Removing a source keeps the table valid: no routing from it is left.
  pub remove_source-IsValid :
      (t : Table F) (id : ℕ)
      → IsValid t
      → IsValid (remove_source t id)
        × (find (λ r. r.source_id == id) (remove_source t id).user_routings ≡ none)
  unfolding remove_source
  remove_source-IsValid t id v =
      let rest = erase-IsValid t (λ r. r.source_id == id) v in
      (
        record {
          ids_distinct = rest.ids_distinct;
          ends_distinct = rest.ends_distinct;
          ids_used = rest.ids_used;
          sources_known = still_known t.sources id t.user_routings v.sources_known;
          next_positive = v.next_positive;
        },
        find-erase_if_self (λ r. r.source_id == id) t.user_routings,
      )
