-- ===== src/Subscriptions.antt =====
-- crates/blackbox-ws/src/subscriptions.rs: the depths that Kraken supports and the messages that
-- subscribe. `json!` writes a number by the conversion `of_u32`.
pub mod Depths
use k_blackbox.Base.{
  ℕ, List, [], ◌∷◌, Bool, false, ◌||◌, Option, none, some, String, ◌==◌, leb, if◌then◌else◌,
}
use k_blackbox.Json.{Value, null, bool, number, string, array, object, Fields, end, field, strings}

abbrev pub supported_depths : List ℕ
supported_depths = 10 ∷ 25 ∷ 100 ∷ 500 ∷ 1000 ∷ []

unfoldable pub contains : List ℕ → ℕ → Bool
contains [] n = false
contains (x ∷ xs) n = (x == n) || contains xs n

-- The loop for the first supported depth that is large enough, and the fallback after it.
unfoldable pub first_at_least : List ℕ → ℕ → ℕ → ℕ
first_at_least [] depth last = last
first_at_least (x ∷ xs) depth last =
    let rest = first_at_least xs depth last in if leb depth x then x else rest

unfoldable pub normalize_depth : ℕ → ℕ
unfolding contains first_at_least
normalize_depth depth =
    if contains supported_depths depth then depth else first_at_least supported_depths depth 1000

module _ {N : Type 0} (of_u32 : ℕ → N) where
  unfoldable pub subscribe_instrument : Bool → Value N
  subscribe_instrument snapshot = object (
      field "method" (string "subscribe") (
        field "params"
          (object (field "channel" (string "instrument") (field "snapshot" (bool snapshot) end)))
          end))

  unfoldable pub subscribe_book : List String → ℕ → Bool → Value N
  subscribe_book symbols depth snapshot = object (
      field "method" (string "subscribe") (
        field "params"
          (object (
            field "channel" (string "book") (
              field "symbol" (array (strings symbols)) (
                field "depth" (number (of_u32 (normalize_depth depth)))
                  (field "snapshot" (bool snapshot) end)))))
          end))

module _ {N : Type 0} where
  unfoldable pub ping : Value N
  ping = object (field "method" (string "ping") end)

  unfoldable pub unsubscribe_params : String → Option (List String) → Fields N
  unsubscribe_params channel none = field "channel" (string channel) end
  unsubscribe_params channel (some syms) =
      field "channel" (string channel) (field "symbols" (array (strings syms)) end)

  unfoldable pub unsubscribe : String → Option (List String) → Value N
  unfolding unsubscribe_params
  unsubscribe channel symbols = object (
      field "method" (string "unsubscribe")
        (field "params" (object (unsubscribe_params channel symbols)) end))
