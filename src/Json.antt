-- ===== src/Json.antt =====
-- The JSON documents that the program builds and reads. A number is a value of a type `N` of the
-- dependency `serde_json`; an object is the list of its fields.
use k_blackbox.Base.{List, [], ◌∷◌, Bool, Option, none, some, String, str_eq, if◌then◌else◌}

mutual
  pub data Value (N : Type 0) : Type 0 where
    null : Value N
    bool : Bool → Value N
    number : N → Value N
    string : String → Value N
    array : Items N → Value N
    object : Fields N → Value N

  pub data Items (N : Type 0) : Type 0 where
    nil : Items N
    cons : Value N → Items N → Items N

  pub data Fields (N : Type 0) : Type 0 where
    end : Fields N
    field : String → Value N → Fields N → Fields N

module _ {N : Type 0} where
  unfoldable pub find : String → Fields N → Option (Value N)
  find k end = none
  find k (field j v fs) = if str_eq j k then some v else find k fs

  -- `value.get(k)` and `value.get_mut(k)`: nothing unless the value is an object with the key.
  unfoldable pub get : String → Value N → Option (Value N)
  unfolding find
  get k (object fs) = find k fs
  get k _ = none

  unfoldable pub as_str : Value N → Option String
  as_str (string s) = some s
  as_str _ = none

  unfoldable pub as_array : Value N → Option (Items N)
  as_array (array vs) = some vs
  as_array _ = none

  unfoldable pub first : Items N → Option (Value N)
  first nil = none
  first (cons v vs) = some v

  -- A write through `get_mut(k)`, to a key that is there.
  unfoldable pub put_field : String → Value N → Fields N → Fields N
  put_field k w end = end
  put_field k w (field j v fs) = if str_eq j k then field j w fs else field j v (put_field k w fs)

  unfoldable pub put : String → Value N → Value N → Value N
  unfolding put_field
  put k w (object fs) = object (put_field k w fs)
  put k w v = v

  -- The array of some texts.
  unfoldable pub strings : List String → Items N
  strings [] = nil
  strings (s ∷ ss) = cons (string s) (strings ss)

-- The chain `a.and_then(f)`.
infixl 5 ◌>>=◌
abbrev pub ◌>>=◌ {ℓ κ} : {A : Type ℓ} {B : Type κ} → Option A → (A → Option B) → Option B
none >>= f = none
some a >>= f = f a
