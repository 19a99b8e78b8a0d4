-- ===== src/DashMap/Every.antt =====
-- What holds of every value of a map.
use k_blackbox.Base.{[], ◌∷◌, All, Option, none, some, String, str_eq, Bool-cases, inl, inr}
use k_blackbox.DashMap.{Map, get, insert, get_or}

abbrev pub Every {ℓ κ} : {V : Type ℓ} → (V → Type κ) → Map V → Type κ
Every P m = All (λ e. P e.1) m

abbrev pub IfSome {ℓ κ} : {V : Type ℓ} → (V → Type κ) → Option V → Type κ
IfSome P none = Unit
IfSome P (some v) = P v

module _ {ℓ κ} {V : Type ℓ} (P : V → Type κ) where
  pub Every-insert : (k : String) (v : V) (m : Map V) → P v → Every P m → Every P (insert k v m)
  unfolding insert
  Every-insert k v [] p a = (p, tt)
  Every-insert k v ((j, w) ∷ m) p a = elim (Bool-cases (str_eq j k)) [
    | inl e ↦ rw e (p, a.1)
    | inr e ↦ rw e (a.0, Every-insert k v m p a.1)
  ]

  pub Every-get : (k : String) (m : Map V) → Every P m → IfSome P (get k m)
  unfolding get
  Every-get k [] a = tt
  Every-get k ((j, w) ∷ m) a = elim (Bool-cases (str_eq j k)) [
    | inl e ↦ rw e a.0
    | inr e ↦ rw e (Every-get k m a.1)
  ]

  pub Every-get_or : (d : V) (k : String) (m : Map V) → P d → Every P m → P (get_or d k m)
  unfolding get get_or
  Every-get_or d k [] p a = p
  Every-get_or d k ((j, w) ∷ m) p a = elim (Bool-cases (str_eq j k)) [
    | inl e ↦ rw (get_or, get, e) a.0
    | inr e ↦ rw (get_or, get, e) (Every-get_or d k m p a.1)
  ]
