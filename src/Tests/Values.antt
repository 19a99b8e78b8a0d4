-- ===== src/Tests/Values.antt =====
-- The parameters of the model as concrete functions, and some data.
use Prim.Native.Nat.{compare, Ordering}
use k_blackbox.Base.{
  ℕ, zero, suc, ◌+◌, ◌-◌, ◌*◌, ◌/◌, ◌%◌, ◌≡◌, refl, min, max, [], ◌∷◌, ◌++◌, none, some, ltb, ◌==◌,
  if◌then◌else◌, arith,
}
use k_blackbox.Ord.{IsPreorder}
use k_blackbox.Decimal.{Decimal, Text}
use k_blackbox.Words.{Float}
use k_blackbox.Types.{InstrumentInfo}
use k_blackbox.Orderbook.{Orderbook}
use k_blackbox.Orderbook.Invariant.{IsValid}
use k_blackbox.Checksum.{Hasher}
use k_blackbox.Precision.{DecimalParser}

-- Signed amounts of hundredths: `plus - minus`. Two that compare equal may differ.
pub record Fixed : Type 0 where
  pub plus : ℕ
  pub minus : ℕ

abbrev pub fixed : ℕ → Fixed
fixed n = record { plus = n; minus = 0 }

abbrev cmp_fixed : Fixed → Fixed → Ordering
cmp_fixed a b = compare (a.plus + b.minus) (b.plus + a.minus)

pub cmp_fixed-IsPreorder : IsPreorder cmp_fixed
cmp_fixed-IsPreorder = record {
  cmp_swap = λ a b. ground arith;
  lt_trans = λ a b c h k. ground arith;
  cmp_congr = λ a b c h. ground arith;
}

abbrev sub_fixed : Fixed → Fixed → Fixed
sub_fixed a b = record { plus = a.plus + b.minus; minus = a.minus + b.plus }

pub sub_fixed_sign : (a b : Fixed) → cmp_fixed (sub_fixed a b) (fixed 0) ≡ cmp_fixed a b
sub_fixed_sign a b = ground arith

-- The decimal digits of a number below 10 ^ fuel.
abbrev show_in : ℕ → ℕ → Text
show_in zero n = []
show_in (suc fuel) n =
    let front = show_in fuel (n / 10) in
    if ltb n 10 then (b'0' + n) ∷ [] else front ++ (b'0' + n % 10) ∷ []

abbrev show_fixed : Fixed → Text
show_fixed a =
    let n : ℕ = a.plus - a.minus in
    show_in 20 (n / 100) ++ (b'.' ∷ (b'0' + n / 10 % 10) ∷ (b'0' + n % 10) ∷ [])

instance abbrev pub fixed_decimal : Decimal Fixed
fixed_decimal = record {
  order = record { cmp = cmp_fixed; lawful = cmp_fixed-IsPreorder };
  zero = fixed 0;
  from = λ n. fixed (n * 100);
  add = λ a b. record { plus = a.plus + b.plus; minus = a.minus + b.minus };
  sub = sub_fixed;
  div = λ a b. fixed ((a.plus - a.minus) * 100 / (b.plus - b.minus));
  round_dp = λ a n. a;
  to_string = show_fixed;
  sub_sign = sub_fixed_sign;
}

-- Floats in thousandths.
abbrev pub thousandths : Float ℕ
thousandths = record {
  of_u64 = λ n. n * 1000;
  one = 1000;
  one_hundredth = 10;
  hundred = 100000;
  zero = 0;
  add = λ a b. a + b;
  sub = λ a b. a - b;
  mul = λ a b. a * b / 1000;
  div = λ a b. a * 1000 / b;
  fmax = λ a b. max a b;
  lt = ltb;
  to_u8 = λ a. min (a / 1000) 255;
  to_usize = λ a. a / 1000;
}

abbrev sum_text : ℕ → Text → ℕ
sum_text acc [] = acc
sum_text acc (c ∷ s) = sum_text ((acc * 31 + c) % 4294967296) s

abbrev pub hasher : Hasher
hasher = record { State = Text; init = []; feed = λ s t. s ++ t; finalize = sum_text 0 }

abbrev read_in : ℕ → Text → ℕ
read_in acc [] = acc
read_in acc (c ∷ s) = read_in (if c == b'.' then acc else acc * 10 + (c - b'0')) s

-- Every text is read as hundredths.
abbrev pub parser : DecimalParser Fixed ℕ
parser = record {
  from_str = λ s. some (fixed (read_in 0 s));
  parse_f64 = λ s. none;
  display_f64 = λ f. [];
  from_str_exact = λ s. none;
  try_from = λ f. none;
}

-- Asks of 5 at 1.00 and of 7 at 2.00, bids of 3 at 0.50 and of 4 at 0.90.
abbrev pub small_book : Orderbook Fixed
small_book = record {
  asks = (fixed 100, fixed 500) ∷ (fixed 200, fixed 700) ∷ [];
  bids = (fixed 50, fixed 300) ∷ (fixed 90, fixed 400) ∷ [];
}

pub small_book-IsValid : IsValid small_book
small_book-IsValid = record {
  asks_sorted = ((refl, tt), (tt, tt));
  bids_sorted = ((refl, tt), (tt, tt));
  asks_live = (refl, (refl, tt));
  bids_live = (refl, (refl, tt));
}

abbrev pub bitcoin : InstrumentInfo Fixed
bitcoin = record {
  symbol = "BTC/USD";
  price_precision = 2;
  qty_precision = 2;
  price_increment = fixed 1;
  qty_increment = fixed 1;
  status = "online";
}
