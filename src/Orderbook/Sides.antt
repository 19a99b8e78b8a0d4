-- ===== src/Orderbook/Sides.antt =====
-- Lemmas on one side of the book.
use k_blackbox.Base.{ℕ, zero, suc, ◌≡◌, refl, [], ◌∷◌, ap, take, drop}
use k_blackbox.BTree.{BTreeMap, keys}

module _ {ℓ κ} {K : Type ℓ} {V : Type κ} where
  pub keys-drop : (n : ℕ) (m : BTreeMap K V) → drop n (keys m) ≡ keys (drop n m)
  keys-drop zero m = refl
  keys-drop (suc n) [] = refl
  keys-drop (suc n) ((k, v) ∷ m) = keys-drop n m

  pub keys-take : (n : ℕ) (m : BTreeMap K V) → take n (keys m) ≡ keys (take n m)
  keys-take zero m = refl
  keys-take (suc n) [] = refl
  keys-take (suc n) ((k, v) ∷ m) = ap (◌∷◌ k) (keys-take n m)
