-- ===== src/DashMap.antt =====
-- The maps keyed by symbol, `DashMap` and `HashMap`: lists of entries, one to a key. The order of the
-- list stands for the unspecified order in which the source iterates.
pub mod Every
use k_blackbox.Base.{
  List, [], ◌∷◌, Option, none, some, Bool, true, false, String, str_eq, eq_iff, ◌≡◌, refl,
  if◌then◌else◌, arith,
}

abbrev pub Map {ℓ} : Type ℓ → Type ℓ
Map V = List (String × V)

module _ {ℓ} {V : Type ℓ} where
  unfoldable pub get : String → Map V → Option V
  get k [] = none
  get k ((j, v) ∷ m) = if str_eq j k then some v else get k m

  unfoldable pub insert : String → V → Map V → Map V
  insert k v [] = (k, v) ∷ []
  insert k v ((j, w) ∷ m) = if str_eq j k then (j, v) ∷ m else (j, w) ∷ insert k v m

  unfoldable pub get_or : V → String → Map V → V
  get_or d k m = elim (get k m) [ some v ↦ v | none ↦ d ]

  unfoldable pub contains_key : String → Map V → Bool
  contains_key k m = elim (get k m) [ some v ↦ true | none ↦ false ]

  -- Change the value at a key, after `or_insert(d)`.
  unfoldable pub modify : V → (V → V) → String → Map V → Map V
  modify d f k m = insert k (f (get_or d k m)) m

  unfoldable pub keys : Map V → List String
  keys [] = []
  keys ((k, v) ∷ m) = k ∷ keys m

  unfoldable pub values : Map V → List V
  values [] = []
  values ((k, v) ∷ m) = v ∷ values m

  pub get-insert :
      (k j : String) (v : V) (m : Map V)
      → get j (insert k v m) ≡ (if str_eq k j then some v else get j m)
  unfolding get insert
  get-insert k j v [] = refl
  get-insert k j v ((i, w) ∷ m) =
      ground (arith, eq_iff k j, eq_iff i k, eq_iff i j, get-insert k j v m)

  pub get-insert_self : (k : String) (v : V) (m : Map V) → get k (insert k v m) ≡ some v
  get-insert_self k v m = ground (arith, get-insert k k v m, eq_iff k k)

  pub get_or-insert_self : (d : V) (k : String) (v : V) (m : Map V) → get_or d k (insert k v m) ≡ v
  unfolding get_or
  get_or-insert_self d k v m = ground (arith, get-insert_self k v m)
