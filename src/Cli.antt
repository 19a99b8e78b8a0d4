-- ===== src/Cli.antt =====
-- crates/blackbox-server/src/main.rs: what the command line's options stand for: fault rules,
-- durations and replay speeds. The parser of the options is a dependency.
pub mod Durations
use k_blackbox.Base.{
  ℕ, suc, ◌+◌, ◌-◌, ◌*◌, ◌%◌, ◌<◌, ◌≤◌, ◌≡◌, refl, List, [], ◌∷◌, ◌++◌, length, take, get_last?,
  Bool, true, false, ◌||◌, ◌&&◌, Option, none, some, String, str_eq, ltb, leb, ◌==◌, if◌then◌else◌,
  arith,
}
use k_blackbox.Decimal.{Text}
use k_blackbox.Words.{u64_mod}
use k_blackbox.Types.{
  FaultRule, every, once_at, no_fault, FaultType, drop, reorder, mutate_qty, ReplayMode, realtime,
  speed, as_fast,
}

module _ {I : Type 0} where
  -- `one_tick` is the i32 1.
  abbrev pub rule_at : I → String → Option ℕ → FaultRule I
  rule_at one_tick fault none = no_fault
  rule_at one_tick fault (some index) =
      if str_eq fault "drop"
      then once_at index drop
      else if str_eq fault "reorder"
      then once_at index reorder
      else if str_eq fault "mutate_qty"
      then once_at index (mutate_qty one_tick)
      else no_fault

  unfoldable pub build_fault_rule_from_str : I → String → Option ℕ → FaultRule I
  build_fault_rule_from_str one_tick fault at =
      if str_eq fault "none" then no_fault else rule_at one_tick fault at

  -- The first option that is given, in this order.
  unfoldable pub build_fault_rule : Option ℕ → Option ℕ → Option ℕ → Option ℕ → I → FaultRule I
  build_fault_rule (some n) drop_once reorder_once mutate_once delta = every n drop
  build_fault_rule none (some i) reorder_once mutate_once delta = once_at i drop
  build_fault_rule none none (some i) mutate_once delta = once_at i reorder
  build_fault_rule none none none (some i) delta = once_at i (mutate_qty delta)
  build_fault_rule none none none none delta = no_fault

-- `str::parse::<u64>`: digits, after an optional plus sign, of a number below 2 ^ 64.
abbrev pub is_digit : ℕ → Bool
is_digit c = leb b'0' c && leb c b'9'

unfoldable pub digits : ℕ → Text → Option ℕ
digits n [] = some n
digits n (c ∷ s) =
    let n' = n * 10 + (c - b'0') in
    let rest = digits n' s in if is_digit c then (if ltb n' u64_mod then rest else none) else none

abbrev pub number_of : Text → Option ℕ
number_of [] = none
number_of (c ∷ s) = digits 0 (c ∷ s)

unfoldable pub parse_u64 : Text → Option ℕ
unfolding digits
parse_u64 [] = none
parse_u64 (c ∷ s) = if c == b'+' then number_of s else number_of (c ∷ s)

-- `ends_with(c)`, and the text without its last byte.
abbrev pub ends_with : ℕ → Text → Bool
ends_with c s = elim (get_last? s) [ some x ↦ x == c | none ↦ false ]

abbrev pub but_last : Text → Text
but_last s = take (length s - 1) s

abbrev pub times : ℕ → Option ℕ → Option ℕ
times k none = none
times k (some n) = some ((n * k) % u64_mod)

-- The seconds; `s` is trimmed. `mins * 60` wraps around in a release build.
unfoldable pub parse_duration : Text → Option ℕ
unfolding parse_u64
parse_duration s =
    if ends_with b's' s
    then parse_u64 (but_last s)
    else if ends_with b'm' s
    then times 60 (parse_u64 (but_last s))
    else parse_u64 s

-- The mode of `replay_recording`; `is_one` and `is_positive` are the tests `speed == 1.0` and
-- `speed > 0.0`.
unfoldable pub replay_mode : {F : Type 0} → (F → Bool) → (F → Bool) → F → ReplayMode F
replay_mode is_one is_positive x =
    if is_one x then realtime else if is_positive x then speed x else as_fast
