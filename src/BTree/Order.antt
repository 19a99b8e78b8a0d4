-- ===== src/BTree/Order.antt =====
-- The order of the entries, and what the operations do to it.
use k_blackbox.Base.{ℕ, zero, suc, List, [], ◌∷◌, ◌++◌, take, drop, arith}
use k_blackbox.Ord.{Ord, ◌≺◌, ◌≈◌, lt_of_gt}
use k_blackbox.BTree.{BTreeMap, insert, remove, remove_all}

module _ {ℓ κ} {K : Type ℓ} {V : Type κ} ⦃o : Ord K⦄ where
  -- Every key lies above `k`.
  abbrev pub Above : K → BTreeMap K V → Type 0
  Above k [] = Unit {0}
  Above k ((j, w) ∷ m) = (k ≺ j) × Above k m

  abbrev pub Below : K → BTreeMap K V → Type 0
  Below k [] = Unit {0}
  Below k ((j, w) ∷ m) = (j ≺ k) × Below k m

  abbrev pub IsSorted : BTreeMap K V → Type 0
  IsSorted [] = Unit {0}
  IsSorted ((j, w) ∷ m) = Above j m × IsSorted m

  pub Above-trans : (a b : K) (m : BTreeMap K V) → a ≺ b → Above b m → Above a m
  Above-trans a b [] h s = tt
  Above-trans a b ((j, w) ∷ m) h s = (o.lt_trans a b j h s.0, Above-trans a b m h s.1)

  pub Above-congr : (a b : K) (m : BTreeMap K V) → a ≈ b → Above b m → Above a m
  Above-congr a b [] h s = tt
  Above-congr a b ((j, w) ∷ m) h s = (ground (arith, o.cmp_congr a b j), Above-congr a b m h s.1)

  insert-Above : (a k : K) (v : V) (m : BTreeMap K V) → a ≺ k → Above a m → Above a (insert k v m)
  unfolding insert
  insert-Above a k v [] h s = (h, tt)
  insert-Above a k v ((j, w) ∷ m) h s = ground (arith, insert-Above a k v m h s.1)

  remove-Above : (a k : K) (m : BTreeMap K V) → Above a m → Above a (remove k m)
  unfolding remove
  remove-Above a k [] s = tt
  remove-Above a k ((j, w) ∷ m) s = ground (arith, remove-Above a k m s.1)

  pub insert-IsSorted : (k : K) (v : V) (m : BTreeMap K V) → IsSorted m → IsSorted (insert k v m)
  unfolding insert
  insert-IsSorted k v [] s = (tt, tt)
  insert-IsSorted k v ((j, w) ∷ m) s =
      ground
        (arith, insert-IsSorted k v m s.1, insert-Above j k v m, lt_of_gt k j, Above-trans k j m)

  pub remove-IsSorted : (k : K) (m : BTreeMap K V) → IsSorted m → IsSorted (remove k m)
  unfolding remove
  remove-IsSorted k [] s = tt
  remove-IsSorted k ((j, w) ∷ m) s = ground (arith, remove-IsSorted k m s.1, remove-Above j k m s.0)

  pub remove_all-IsSorted :
      (ks : List K) (m : BTreeMap K V) → IsSorted m → IsSorted (remove_all ks m)
  unfolding remove_all
  remove_all-IsSorted [] m s = s
  remove_all-IsSorted (k ∷ ks) m s = remove_all-IsSorted ks (remove k m) (remove-IsSorted k m s)

  pub take-Above : (n : ℕ) (a : K) (m : BTreeMap K V) → Above a m → Above a (take n m)
  take-Above zero a m h = tt
  take-Above (suc n) a [] h = tt
  take-Above (suc n) a ((j, w) ∷ m) h = (h.0, take-Above n a m h.1)

  pub drop-Above : (n : ℕ) (a : K) (m : BTreeMap K V) → Above a m → Above a (drop n m)
  drop-Above zero a m h = h
  drop-Above (suc n) a [] h = tt
  drop-Above (suc n) a ((j, w) ∷ m) h = drop-Above n a m h.1

  pub take-IsSorted : (n : ℕ) (m : BTreeMap K V) → IsSorted m → IsSorted (take n m)
  take-IsSorted zero m s = tt
  take-IsSorted (suc n) [] s = tt
  take-IsSorted (suc n) ((j, w) ∷ m) s = (take-Above n j m s.0, take-IsSorted n m s.1)

  pub drop-IsSorted : (n : ℕ) (m : BTreeMap K V) → IsSorted m → IsSorted (drop n m)
  drop-IsSorted zero m s = s
  drop-IsSorted (suc n) [] s = tt
  drop-IsSorted (suc n) ((j, w) ∷ m) s = drop-IsSorted n m s.1

  pub append-Above : (a : K) (m n : BTreeMap K V) → Above a m → Above a n → Above a (m ++ n)
  append-Above a [] n h k = k
  append-Above a ((j, w) ∷ m) n h k = (h.0, append-Above a m n h.1 k)

  -- What stands before an entry of a sorted map lies below its key.
  pub Below-before :
      (m : BTreeMap K V) (k : K) (v : V) (n : BTreeMap K V) → IsSorted (m ++ (k, v) ∷ n) → Below k m
  Below-before [] k v n s = tt
  Below-before ((j, w) ∷ m) k v n s = (between m s.0, Below-before m k v n s.1)
    where
      between : (m : BTreeMap K V) → Above j (m ++ (k, v) ∷ n) → j ≺ k
      between [] h = h.0
      between ((i, u) ∷ m) h = between m h.1

  pub Above-append_left : (a : K) (m n : BTreeMap K V) → Above a (m ++ n) → Above a m
  Above-append_left a [] n h = tt
  Above-append_left a ((j, w) ∷ m) n h = (h.0, Above-append_left a m n h.1)

  pub Above-append_right : (a : K) (m n : BTreeMap K V) → Above a (m ++ n) → Above a n
  Above-append_right a [] n h = h
  Above-append_right a ((j, w) ∷ m) n h = Above-append_right a m n h.1
