-- ===== src/Decimal.antt =====
-- What the program uses of `rust_decimal::Decimal`, a dependency: a parameter of the model. A
-- decimal keeps its scale, so two decimals that compare equal may still print differently. Of the
-- arithmetic only the sign of a difference is assumed; a panic on overflow is outside the model.
use Prim.Native.Nat.Ordering.{eq, gt}
use k_blackbox.Base.{ℕ, ◌≡◌, Bool, true, false, List}
use k_blackbox.Ord.{Ord}

-- A text as its code points.
abbrev pub Text : Type 0
Text = List ℕ

pub record Decimal (D : Type 0) : Type 0 where
  pub order : Ord D
  pub zero : D
  pub from : ℕ → D
  pub add : D → D → D
  pub sub : D → D → D
  pub div : D → D → D
  pub round_dp : D → ℕ → D
  pub to_string : D → Text
  pub sub_sign : (a b : D) → order.cmp (sub a b) zero ≡ order.cmp a b

instance abbrev pub decimal_ord : {D : Type 0} ⦃d : Decimal D⦄ → Ord D
decimal_ord ⦃d⦄ = d.order

module _ {D : Type 0} ⦃d : Decimal D⦄ where
  -- `q == Decimal::ZERO`
  abbrev pub is_zero : D → Bool
  is_zero q = elim (d.order.cmp q d.zero) [ eq ↦ true | _ ↦ false ]

  -- `q > Decimal::ZERO`
  abbrev pub is_positive : D → Bool
  is_positive q = elim (d.order.cmp q d.zero) [ gt ↦ true | _ ↦ false ]

-- A level of the book: price and quantity.
abbrev pub Level : Type 0 → Type 0
Level D = D × D
