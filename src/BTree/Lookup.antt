-- ===== src/BTree/Lookup.antt =====
-- What `get` reads after `insert` and `remove`, for every key at once.
use Prim.Native.Nat.Ordering.{eq}
use k_blackbox.Base.{◌≡◌, refl, [], ◌∷◌, Option, none, some, arith}
use k_blackbox.Ord.{Ord, lt_of_gt, gt_of_lt, cmp_congr_right}
use k_blackbox.BTree.{BTreeMap, get, insert, remove}
use k_blackbox.BTree.Order.{Above, IsSorted, Above-trans, Above-congr}

module _ {ℓ κ} {K : Type ℓ} {V : Type κ} ⦃o : Ord K⦄ where
  -- A function from keys, changed at the keys that compare equal to `k`.
  abbrev pub update : K → Option V → (K → Option V) → K → Option V
  update k w f p = elim (o.cmp p k) [ eq ↦ w | _ ↦ f p ]

  pub get_below : (p : K) (m : BTreeMap K V) → Above p m → get p m ≡ none
  unfolding get
  get_below p [] h = refl
  get_below p ((j, w) ∷ m) h = ground arith

  pub get-insert :
      (k : K) (v : V) (m : BTreeMap K V) (p : K)
      → get p (insert k v m) ≡ update k (some v) (λ q. get q m) p
  unfolding get insert
  get-insert k v [] p = ground arith
  get-insert k v ((j, w) ∷ m) p = ground (
    arith,
    get-insert k v m p,
    o.lt_trans p k j,
    o.cmp_congr p k j,
    cmp_congr_right k j p,
    lt_of_gt k j,
    o.lt_trans p j k,
    gt_of_lt p k,
  )

  pub get-remove :
      (k : K) (m : BTreeMap K V) (p : K)
      → IsSorted m
      → get p (remove k m) ≡ update k none (λ q. get q m) p
  unfolding get remove
  get-remove k [] p s = ground arith
  get-remove k ((j, w) ∷ m) p s = ground (
    arith,
    get-remove k m p s.1,
    get_below p m,
    Above-congr p j m,
    Above-trans p j m,
    o.lt_trans p k j,
    o.cmp_congr p k j,
    cmp_congr_right k j p,
  )
