-- ===== src/Ord.antt =====
-- The bound `K: Ord` of the ordered maps. `cmp` is a total preorder and no more: two keys that
-- compare equal may differ, as the decimals 1.0 and 1.00 do, which print differently.
use Prim.Native.Nat.{compare, Ordering}
use Prim.Native.Nat.Ordering.{lt, eq, gt}
use k_blackbox.Base.{ℕ, ◌≡◌, arith}

abbrev pub reversed : Ordering → Ordering
reversed lt = gt
reversed eq = eq
reversed gt = lt

pub record IsPreorder {ℓ} {K : Type ℓ} (cmp : K → K → Ordering) : Type ℓ where
  pub cmp_swap : (a b : K) → cmp b a ≡ reversed (cmp a b)
  pub lt_trans : (a b c : K) → cmp a b ≡ lt → cmp b c ≡ lt → cmp a c ≡ lt
  pub cmp_congr : (a b c : K) → cmp a b ≡ eq → cmp a c ≡ cmp b c

pub record Ord {ℓ} (K : Type ℓ) : Type ℓ where
  pub cmp : K → K → Ordering
  pub lawful : IsPreorder cmp
  pub open lawful use *

module _ {ℓ} {K : Type ℓ} ⦃o : Ord K⦄ where
  infix 50 ◌≺◌ ◌≈◌
  abbrev pub ◌≺◌ : K → K → Type 0
  ◌≺◌ a b = o.cmp a b ≡ lt

  abbrev pub ◌≈◌ : K → K → Type 0
  ◌≈◌ a b = o.cmp a b ≡ eq

  pub cmp_refl : (a : K) → o.cmp a a ≡ eq
  cmp_refl a = ground (arith, o.cmp_swap a a)

  pub lt_of_gt : (a b : K) → o.cmp a b ≡ gt → o.cmp b a ≡ lt
  lt_of_gt a b h = ground (arith, o.cmp_swap a b)

  pub gt_of_lt : (a b : K) → o.cmp a b ≡ lt → o.cmp b a ≡ gt
  gt_of_lt a b h = ground (arith, o.cmp_swap a b)

  pub eq_symm : (a b : K) → o.cmp a b ≡ eq → o.cmp b a ≡ eq
  eq_symm a b h = ground (arith, o.cmp_swap a b)

  pub cmp_congr_right : (a b c : K) → o.cmp a b ≡ eq → o.cmp c a ≡ o.cmp c b
  cmp_congr_right a b c h = ground (arith, o.cmp_swap a c, o.cmp_swap b c, o.cmp_congr a b c)

pub compare-IsPreorder : IsPreorder compare
compare-IsPreorder = record {
  cmp_swap = λ a b. ground arith;
  lt_trans = λ a b c h k. ground arith;
  cmp_congr = λ a b c h. ground arith;
}

instance abbrev pub nat_ord : Ord ℕ
nat_ord = record { cmp = compare; lawful = compare-IsPreorder }
