-- ===== src/Replayer/Mutate.antt =====
-- `mutate_qty`: add some ticks to the first quantity that is found in a book message.
use k_blackbox.Base.{Option, none, some, String}
use k_blackbox.Words.{Float}
use k_blackbox.Json.{Value, Items, nil, cons, number, string, array, get, as_array, put, ◌>>=◌}

-- What the replayer uses of serde_json and of std's float texts. `N` is a JSON number, `F` an f64 and
-- `I` an i32. `from_f64` is the unwrapped `Number::from_f64`, which a finite float passes.
pub record JsonApi (N F I : Type 0) : Type 0 where
  pub from_str : String → Option (Value N)
  pub to_string : Value N → Option String
  pub as_f64 : N → Option F
  pub from_f64 : F → N
  pub parse_f64 : String → Option F
  -- `{:.8}`.
  pub format_8 : F → String
  pub of_i32 : I → F
  -- `1e-8`.
  pub increment : F

module _ {N F I : Type 0} (f : Float F) (j : JsonApi N F I) (delta_ticks : I) where
  unfoldable pub shifted : F → F
  shifted qty = f.fmax (f.add qty (f.mul (j.of_i32 delta_ticks) j.increment)) f.zero

  unfoldable pub new_qty : Value N → Option (Value N)
  new_qty (string s) = do qty ← j.parse_f64 s; some (string (j.format_8 (shifted qty)))
  new_qty (number n) = do qty ← j.as_f64 n; some (number (j.from_f64 (shifted qty)))
  new_qty _ = none

  unfoldable pub mutate_level : Value N → Option (Value N)
  mutate_level level = do qty ← get "qty" level; qty' ← new_qty qty; some (put "qty" qty' level)

  unfoldable pub mutate_first : Items N → Option (Items N)
  mutate_first nil = none
  mutate_first (cons level rest) = do level' ← mutate_level level; some (cons level' rest)

  unfoldable pub mutate_side : String → Value N → Option (Value N)
  mutate_side side book = do
    levels ← get side book >>= as_array
    levels' ← mutate_first levels
    some (put side (array levels') book)

  abbrev pub or_else : Option (Value N) → Option (Value N) → Option (Value N)
  or_else (some v) w = some v
  or_else none w = w

  -- The loop: asks first, then bids, then the next book of the message.
  unfoldable pub mutate_items : Items N → Option (Items N)
  mutate_items nil = none
  mutate_items (cons book rest) =
      let others = mutate_items rest in
      elim (or_else (mutate_side "asks" book) (mutate_side "bids" book)) [
        | some book' ↦ some (cons book' rest)
        | none ↦ others >>= λ rest'. some (cons book rest')
      ]

  unfoldable pub mutate_qty : Value N → Option String
  mutate_qty json = do
    items ← get "data" json >>= as_array
    items' ← mutate_items items
    j.to_string (put "data" (array items') json)
