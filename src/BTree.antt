-- ===== src/BTree.antt =====
-- std's `BTreeMap`, as the list of its entries in the order of `iter()`. Inserting under a key that
-- compares equal to one in the map keeps the old key and replaces the value, as std documents.
pub mod Order
pub mod Lookup
pub mod Cut
use Prim.Native.Nat.Ordering.{lt, eq, gt}
use k_blackbox.Base.{List, [], ◌∷◌, map, Option, none, some}
use k_blackbox.Ord.{Ord}

abbrev pub BTreeMap {ℓ κ} : Type ℓ → Type κ → Type (ℓ ⊔ κ)
BTreeMap K V = List (K × V)

module _ {ℓ κ} {K : Type ℓ} {V : Type κ} where
  abbrev pub keys : BTreeMap K V → List K
  keys [] = []
  keys ((k, v) ∷ m) = k ∷ keys m

module _ {ℓ κ} {K : Type ℓ} {V : Type κ} ⦃o : Ord K⦄ where
  unfoldable pub get : K → BTreeMap K V → Option V
  get k [] = none
  get k ((j, w) ∷ m) = elim (o.cmp k j) [ lt ↦ none | eq ↦ some w | gt ↦ get k m ]

  unfoldable pub insert : K → V → BTreeMap K V → BTreeMap K V
  insert k v [] = (k, v) ∷ []
  insert k v ((j, w) ∷ m) = elim (o.cmp k j) [
    | lt ↦ (k, v) ∷ (j, w) ∷ m
    | eq ↦ (j, v) ∷ m
    | gt ↦ (j, w) ∷ insert k v m
  ]

  unfoldable pub remove : K → BTreeMap K V → BTreeMap K V
  remove k [] = []
  remove k ((j, w) ∷ m) = elim (o.cmp k j) [ lt ↦ (j, w) ∷ m | eq ↦ m | gt ↦ (j, w) ∷ remove k m ]

  -- `for key in keys { map.remove(&key); }`
  unfoldable pub remove_all : List K → BTreeMap K V → BTreeMap K V
  remove_all [] m = m
  remove_all (k ∷ ks) m = remove_all ks (remove k m)
