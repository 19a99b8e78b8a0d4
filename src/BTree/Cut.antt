-- ===== src/BTree/Cut.antt =====
-- Removing the keys of a suffix or of a prefix.
use k_blackbox.Base.{
  ℕ, ◌≡◌, refl, [], ◌∷◌, ◌++◌, take, drop, take-append-drop, append-nil, arith, subst, sym, ap, ◌∙◌,
}
use k_blackbox.Ord.{Ord, cmp_refl, gt_of_lt}
use k_blackbox.BTree.{BTreeMap, keys, remove, remove_all}
use k_blackbox.BTree.Order.{IsSorted, Below, Below-before, remove-IsSorted}

module _ {ℓ κ} {K : Type ℓ} {V : Type κ} ⦃o : Ord K⦄ where
  remove_after :
      (m : BTreeMap K V) (k : K) (v : V) (n : BTreeMap K V)
      → Below k m
      → remove k (m ++ (k, v) ∷ n) ≡ m ++ n
  unfolding remove
  remove_after [] k v n b = ground (arith, cmp_refl k)
  remove_after ((j, w) ∷ m) k v n b = ground (arith, gt_of_lt j k, remove_after m k v n b.1)

  remove_all_suffix : (m n : BTreeMap K V) → IsSorted (m ++ n) → remove_all (keys n) (m ++ n) ≡ m
  unfolding remove_all
  remove_all_suffix m [] s = append-nil m
  remove_all_suffix m ((k, v) ∷ n) s =
      let e = remove_after m k v n (Below-before m k v n s) in
      ap (remove_all (keys n)) e
      ∙ remove_all_suffix m n (subst IsSorted e (remove-IsSorted k (m ++ (k, v) ∷ n) s))

  remove_all_prefix : (m n : BTreeMap K V) → remove_all (keys m) (m ++ n) ≡ n
  unfolding remove_all
  remove_all_prefix [] n = refl
  remove_all_prefix ((k, v) ∷ m) n =
      ap (remove_all (keys m)) (remove_after [] k v (m ++ n) tt) ∙ remove_all_prefix m n

  -- Removing the keys beyond the first `n` keeps the first `n` entries.
  pub remove_all-keys-drop :
      (n : ℕ) (m : BTreeMap K V) → IsSorted m → remove_all (keys (drop n m)) m ≡ take n m
  remove_all-keys-drop n m s =
      let e = take-append-drop n m in
      subst (λ x. remove_all (keys (drop n m)) x ≡ take n m) e
        (remove_all_suffix (take n m) (drop n m) (subst IsSorted (sym e) s))

  pub remove_all-keys-take : (n : ℕ) (m : BTreeMap K V) → remove_all (keys (take n m)) m ≡ drop n m
  remove_all-keys-take n m =
      subst (λ x. remove_all (keys (take n m)) x ≡ drop n m) (take-append-drop n m)
        (remove_all_prefix (take n m) (drop n m))
