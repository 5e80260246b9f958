-- ===== src/Modulation/Schedule/Connect.antt =====
-- `strongconnect` with enough fuel connects its node.
use tanh_lib.Base.{
  ℕ, zero, suc, ◌<◌, ◌≤◌, ◌≡◌, refl, sym, ap, ◌∙◌, subst, true, false, ◌||◌, ◌==◌, List, [], ◌∷◌,
  Option, none, some, min, update, contains, concat, arith, Bool-cases, Option-cases, inl, inr,
}
use tanh_lib.Modulation.Schedule.{
  Graph, Tarjan, index_of, bind, enter, lower, visit_edge, visit_edges, strongconnect, close,
}
use tanh_lib.Modulation.Schedule.Inv.{here, Inv, has_index, Descending}
use tanh_lib.Modulation.Schedule.Loop.{Loop, Post}
use tanh_lib.Modulation.Schedule.Edges.{Loop-done, Loop-stacked, Loop-new}
use tanh_lib.Modulation.Schedule.Close.{close-Post}
use tanh_lib.Modulation.Schedule.Fuel.{unseen, unseen-le, unseen-lt}

Descending-cong :
    (i j : ℕ → Option ℕ) (b : ℕ) (xs : List ℕ)
    → ((x : ℕ) → contains x xs ≡ true → j x ≡ i x)
    → Descending i b xs
    → Descending j b xs
Descending-cong i j b [] h d = tt
Descending-cong i j b (x ∷ xs) h d =
    let same = h x (ground arith) in
    (
      rw same d.0,
      rw same (Descending-cong i j (index_of (i x)) xs (λ y k. h y (ground (arith, k))) d.1),
    )

has_index-cases : (o : Option ℕ) → has_index o ≡ true → (i : ℕ) × (o ≡ some i)
has_index-cases none h = (cc)
has_index-cases (some i) h = (i, refl)

module _ {adj : Graph} {s : Tarjan} (inv : Inv adj s) (v : ℕ) (fresh : s.index v ≡ none) where
  new_place : (contains v s.stack ≡ false) × (contains v (concat s.sccs) ≡ false)
  new_place = ground (arith, inv.indexed v, ap has_index fresh)

  other : (x : ℕ) → has_index (s.index x) ≡ true → (v == x) ≡ false
  other x h = elim (Bool-cases (v == x)) [
    | inl e ↦ let same : v ≡ x = ground arith in (cc)
    | inr e ↦ e
  ]

  entered_index : (x : ℕ) → has_index (s.index x) ≡ true → (enter v s).index x ≡ s.index x
  unfolding enter
  entered_index x h = ground (arith, other x h)

  entered_self : index_of ((enter v s).index v) ≡ s.index_counter
  unfolding enter
  entered_self = ground arith

  Inv-enter : Inv adj (enter v s)
  unfolding enter
  Inv-enter = record {
    stacked = λ x. ground (arith, inv.stacked x);
    indexed = λ x. ground (arith, inv.indexed x);
    descending = (
      ground arith,
      subst (λ b. Descending (enter v s).index b s.stack) (sym entered_self)
          (Descending-cong s.index (enter v s).index s.index_counter s.stack
            (λ x h. entered_index x (inv.indexed x ∙ ground (arith, h))) inv.descending),
    );
    apart = λ x h. ground (arith, inv.apart x, new_place.1, h);
    nodup = inv.nodup;
    ordered = inv.ordered;
    linked = inv.linked;
  }

  pub Loop-enter : Loop adj v s (enter v s) s.index_counter []
  unfolding enter
  Loop-enter = record {
    inv = Inv-enter;
    seg = [];
    stack_eq = refl;
    self = ground arith;
    extends = record {
      index_kept = entered_index;
      lowlink_kept = λ x h. ground (arith, other x h);
      done_kept = λ x h. h;
    };
    low_eq = ground arith;
    low_le = omega arith;
    low_at = (v, ground arith, here, ground arith);
    segment = record { reached = λ x h. (cc); escapes = λ x h. (cc); edges = λ x y h k. (cc) };
    resolved = λ y h. (cc);
  }

unseen-enter :
    (s : Tarjan) (v : ℕ) (fresh : s.index v ≡ none) (universe : List ℕ)
    → contains v universe ≡ true
    → unseen (enter v s).index universe < unseen s.index universe
unfolding enter
unseen-enter s v fresh universe known =
    unseen-lt s.index (update s.index v (some s.index_counter)) universe v
      (λ x h. ground (arith, h)) known (ap has_index fresh) (ground arith)

Loop-tried :
    {adj : Graph} {v : ℕ} {s t : Tarjan} {low : ℕ} {all : List ℕ} (l : Loop adj v s t low all)
    (tried : List ℕ)
    → ((w : ℕ) → contains w tried ≡ true → contains w all ≡ true)
    → Loop adj v s t low tried
Loop-tried l tried h = record {
  inv = l.inv;
  seg = l.seg;
  stack_eq = l.stack_eq;
  self = l.self;
  extends = l.extends;
  low_eq = l.low_eq;
  low_le = l.low_le;
  low_at = l.low_at;
  segment = l.segment;
  resolved = λ y k. l.resolved y (h y k);
}

-- A function that connects a new node of `universe`, if at most `fuel` nodes there have no index.
abbrev pub Connects : Graph → List ℕ → ℕ → (ℕ → Tarjan → Option Tarjan) → Type 0
Connects adj universe fuel connect =
    (v : ℕ) (s : Tarjan)
    → Inv adj s
    → s.index v ≡ none
    → contains v universe ≡ true
    → unseen s.index universe ≤ fuel
    → (r : Tarjan) × (connect v s ≡ some r) × Post adj v s r

module _ {adj : Graph} (universe : List ℕ) (fuel : ℕ) (connect : ℕ → Tarjan → Option Tarjan)
    (connects : Connects adj universe fuel connect) (v : ℕ) {s : Tarjan}
    (fresh : s.index v ≡ none) where
  -- One edge, with the node that it leads to tried.
  tried_edge :
      (w : ℕ) (t : Tarjan) (low : ℕ) (tried : List ℕ)
      → contains w (adj v) ≡ true
      → contains w universe ≡ true
      → Loop adj v s t low tried
      → unseen t.index universe ≤ fuel
      → (t' : Tarjan) × (low' : ℕ) × (visit_edge connect v w (t.index w) t ≡ some t')
        × Loop adj v s t' low' (w ∷ tried)
        × (unseen t'.index universe ≤ fuel)
  unfolding visit_edge lower
  tried_edge w t low tried edge known l enough = elim (Option-cases (t.index w)) [
    | inl e ↦
        let (r, ran, q) = connects w t l.inv e known enough in
        (
          lower v (r.lowlink w) r,
          min low (r.lowlink w),
          rw e (rw ran refl),
          Loop-new l fresh w edge q,
          omega (
            arith,
            enough,
            unseen-le t.index r.index universe (λ x h. ap has_index (q.extends.index_kept x h) ∙ h),
          ),
        )
    | inr (i, e) ↦ elim (Bool-cases (contains w t.stack)) [
      | inl k ↦ (
        lower v i t,
        min low i,
        rw e (rw (l.inv.stacked w ∙ k) refl),
        Loop-stacked l fresh w edge i e k,
        enough,
      )
      | inr k ↦ (
        t,
        low,
        rw e (rw (l.inv.stacked w ∙ k) refl),
        Loop-done l fresh w edge (ground (arith, l.inv.indexed w, ap has_index e, k)),
        enough,
      )
    ]
  ]

  -- All edges of `ws`.
  tried_edges :
      (ws : List ℕ) (t : Tarjan) (low : ℕ) (tried : List ℕ)
      → ((w : ℕ) → contains w ws ≡ true → contains w (adj v) ≡ true)
      → ((w : ℕ) → contains w ws ≡ true → contains w universe ≡ true)
      → Loop adj v s t low tried
      → unseen t.index universe ≤ fuel
      → (t' : Tarjan) × (low' : ℕ) × (all : List ℕ) × (visit_edges connect v ws t ≡ some t')
        × Loop adj v s t' low' all
        × ((w : ℕ) → (contains w ws || contains w tried) ≡ true → contains w all ≡ true)
  unfolding visit_edges
  tried_edges [] t low tried edge known l enough = (t, low, tried, refl, l, λ w h. h)
  tried_edges (w ∷ ws) t low tried edge known l enough =
      let (u, low_u, ran, l_u, enough_u) =
        tried_edge w t low tried (edge w (ground arith)) (known w (ground arith)) l enough in
      let (t', low', all, ran', l', covered) =
        tried_edges ws u low_u (w ∷ tried) (λ x h. edge x (ground (arith, h)))
          (λ x h. known x (ground (arith, h))) l_u enough_u in
      (
        t',
        low',
        all,
        ap (λ o. bind o (visit_edges connect v ws)) ran ∙ ran',
        l',
        λ x h. covered x (ground (arith, h)),
      )

-- The universe holds what edges of its nodes lead to.
abbrev pub IsClosed : Graph → List ℕ → Type 0
IsClosed adj universe =
    (x y : ℕ) → contains x universe ≡ true → contains y (adj x) ≡ true → contains y universe ≡ true

pub strongconnect-Connects :
    (adj : Graph) (universe : List ℕ)
    → IsClosed adj universe
    → (fuel : ℕ) → Connects adj universe fuel (strongconnect adj fuel)
unfolding strongconnect
strongconnect-Connects adj universe closed zero v s inv fresh known enough =
    absurd (omega (arith, enough, unseen-enter s v fresh universe known))
strongconnect-Connects adj universe closed (suc fuel) v s inv fresh known enough =
    let (t, low, all, ran, l, covered) =
      tried_edges universe fuel (strongconnect adj fuel)
        (strongconnect-Connects adj universe closed fuel) v fresh (adj v) (enter v s)
        s.index_counter [] (λ w h. h) (λ w h. closed v w known h) (Loop-enter inv v fresh)
        (omega (arith, enough, unseen-enter s v fresh universe known)) in
    let (r, closes, q) = close-Post (Loop-tried l (adj v) (λ w h. covered w (ground (arith, h)))) in
    (r, ap (λ o. bind o (close v)) ran ∙ closes, q)
