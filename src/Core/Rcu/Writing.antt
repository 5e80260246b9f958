-- ===== src/Core/Rcu/Writing.antt =====
-- The lists and heaps that a writer's step changes.
use tanh_lib.Base.{
  ℕ, ◌+◌, ◌/◌, ◌≤◌, ◌<◌, ◌≡◌, ◌⊎◌, inl, inr, refl, ◌∙◌, Bool, true, false, Option, none, List, [],
  ◌∷◌, arith, update, if◌then◌else◌, Bool-cases, ==_iff, ltb, leb, length,
}
use tanh_lib.Core.Rcu.{
  Retired, WriterPc, is_member, visit, may_pass, keep_newer, delete_older, delete_all, live_nodes,
  second_tier, after_cleanup, Tier, tier1, tier2,
}
use tanh_lib.Core.Rcu.Inv.{AllRetired, AllNewer}

pub AllRetired-mono :
    (p q c d m n : ℕ) (l : Retired)
    → p ≤ q
    → m ≤ n
    → (d ≡ c) ⊎ (m ≤ d)
    → AllRetired p c m l
    → AllRetired q d n l
AllRetired-mono p q c d m n [] h k e a = tt
AllRetired-mono p q c d m n ((w, r) ∷ l) h k e (a, b, o, rest) =
    (omega arith, ground arith, omega arith, AllRetired-mono p q c d m n l h k e rest)

pub AllNewer-mono : (p q v : ℕ) (l : Retired) → q ≤ p → AllNewer p v l → AllNewer q v l
AllNewer-mono p q v [] h a = tt
AllNewer-mono p q v ((w, r) ∷ l) h (a, rest) =
    (λ e. omega (arith, a e), AllNewer-mono p q v l h rest)

pub AllRetired-keep_newer :
    (p c n lo : ℕ) (l : Retired) → AllRetired p c n l → AllRetired p c n (keep_newer lo l)
unfolding keep_newer
AllRetired-keep_newer p c n lo [] a = tt
AllRetired-keep_newer p c n lo ((w, r) ∷ l) (a, b, d, rest) = elim (Bool-cases (ltb r lo)) [
  | inl e ↦ rw e (AllRetired-keep_newer p c n lo l rest)
  | inr e ↦ rw e (a, b, d, AllRetired-keep_newer p c n lo l rest)
]

pub AllNewer-keep_newer :
    (p v lo : ℕ) (l : Retired) → AllNewer p v l → AllNewer p v (keep_newer lo l)
unfolding keep_newer
AllNewer-keep_newer p v lo [] a = tt
AllNewer-keep_newer p v lo ((w, r) ∷ l) (a, rest) = elim (Bool-cases (ltb r lo)) [
  | inl e ↦ rw e (AllNewer-keep_newer p v lo l rest)
  | inr e ↦ rw e (a, AllNewer-keep_newer p v lo l rest)
]

-- A version that no entry older than `lo` names survives the clean-up.
pub delete_older-eq :
    {T : Type 0} (lo : ℕ) {v : ℕ} (l : Retired) (heap : ℕ → Option T)
    → AllNewer lo v l
    → delete_older lo l heap v ≡ heap v
unfolding delete_older
delete_older-eq lo [] heap a = refl
delete_older-eq lo {v} ((w, r) ∷ l) heap (a, rest) =
    delete_older-eq lo l (if ltb r lo then update heap w none else heap) rest ∙ ground arith

-- A version that no entry names survives the deletion of all.
pub delete_all-eq :
    {T : Type 0} (p c n : ℕ) (l : Retired) (heap : ℕ → Option T)
    → AllRetired p c n l
    → delete_all l heap c ≡ heap c
unfolding delete_all
delete_all-eq p c n [] heap a = refl
delete_all-eq p c n ((w, r) ∷ l) heap (a, b, d, rest) =
    delete_all-eq p c n l (update heap w none) rest ∙ ground arith

pub is_member-live_nodes :
    (dead : ℕ → Bool) (i : ℕ) (l : List ℕ)
    → is_member i l ≡ true
    → dead i ≡ false
    → is_member i (live_nodes dead l) ≡ true
unfolding is_member live_nodes
is_member-live_nodes dead i [] m h = m
is_member-live_nodes dead i (j ∷ l) m h = ground (arith, is_member-live_nodes dead i l, ==_iff i j)

pub is_member-cons : (i j : ℕ) (l : List ℕ) → is_member i l ≡ true → is_member i (j ∷ l) ≡ true
unfolding is_member
is_member-cons i j l h = ground arith

-- A visit leaves a minimum that no live reader's period is below.
pub visit-le : (is_dead : Bool) (g lo : ℕ) → visit is_dead g lo ≤ lo
unfolding visit
visit-le is_dead g lo = ground arith

pub visit-le_generation : (g lo : ℕ) → 0 < g → visit false g lo ≤ g
unfolding visit
visit-le_generation g lo pos = ground arith

pub may_pass-eq : (g p : ℕ) → 0 < g → may_pass false g p ≡ true → g ≡ p
unfolding may_pass
may_pass-eq g p pos h = ground arith

second_tier-cases :
    (l : Retired) (i : ℕ)
    → (second_tier l i ≡ WriterPc.checking) ⊎ ((k : Tier) × (second_tier l i ≡ WriterPc.cleaning k))
unfolding second_tier
second_tier-cases [] i = inl refl
second_tier-cases (x ∷ l) i = elim (Bool-cases (ltb i 3)) [
  | inl e ↦ rw e (inr (tier2 i, refl))
  | inr e ↦ rw e (inl refl)
]

-- The writer goes on from a clean-up to another, or to the third tier.
pub after_cleanup-cases :
    (n : ℕ) (k : Tier) (l : Retired)
    → (after_cleanup n k l ≡ WriterPc.checking)
      ⊎ ((k' : Tier) × (after_cleanup n k l ≡ WriterPc.cleaning k'))
unfolding after_cleanup
after_cleanup-cases n tier1 l = elim (Bool-cases (leb n (length l))) [
  | inl e ↦ rw e (second_tier-cases l 0)
  | inr e ↦ rw e (inl refl)
]
after_cleanup-cases n (tier2 i) l = elim (Bool-cases (ltb (length l) (n / 2))) [
  | inl e ↦ rw e (inl refl)
  | inr e ↦ rw e (second_tier-cases l (i + 1))
]
