-- ===== src/Tests/Books.antt =====
-- The theorems on the book, the checksum and its texts, at concrete inputs.
use Prim.Native.Nat.Ordering.{gt}
use k_blackbox.Base.{
  ◌-◌, ◌*◌, ◌^◌, ◌<◌, ◌≡◌, ◌↔◌, refl, inr, List, [], ◌∷◌, ◌++◌, length, none, some, arith,
}
use k_blackbox.Decimal.{Text, Level, decimal_ord}
use k_blackbox.BTree.{get}
use k_blackbox.Orderbook.{
  apply_updates, truncate, asks_vec, bids_vec, asks_iter, bids_iter_rev, depth, spread,
}
use k_blackbox.Orderbook.Updates.{amend, last_for, get-apply_updates}
use k_blackbox.Orderbook.Truncate.{truncate-eq-limit}
use k_blackbox.Orderbook.Best.{Uncrossed, spread-positive_iff}
use k_blackbox.Precision.{format_fixed, strip, trim_start, delete, fix_places, contains, split}
use k_blackbox.Precision.Canonical.{IsCanonical, format_fixed-IsCanonical}
use k_blackbox.Precision.Ticks.{PrintsAs, value, value-format_fixed}
use k_blackbox.Checksum.{build_checksum_string, push_levels}
use k_blackbox.Checksum.Levels.{
  level_text, build_checksum_string-eq, build_checksum_string-truncate, build_checksum_string_cut,
}
use k_blackbox.Tests.Values.{Fixed, fixed, fixed_decimal, small_book, small_book-IsValid}

-- Remove the ask at 1.00, add one at 3.00; change the bid at 0.90.
abbrev ask_batch : List (Level Fixed)
ask_batch = (fixed 100, fixed 0) ∷ (fixed 300, fixed 100) ∷ []

abbrev bid_batch : List (Level Fixed)
bid_batch = (fixed 90, fixed 100) ∷ []

get-apply_updates_example :
    (get (fixed 100) (apply_updates small_book bid_batch ask_batch).bids
      ≡ amend (last_for (fixed 100) bid_batch) (get (fixed 100) small_book.bids))
    × (get (fixed 100) (apply_updates small_book bid_batch ask_batch).asks
        ≡ amend (last_for (fixed 100) ask_batch) (get (fixed 100) small_book.asks))
get-apply_updates_example =
    get-apply_updates small_book bid_batch ask_batch (fixed 100) small_book-IsValid

truncate-eq-limit_example :
    (asks_vec (truncate 1 small_book) none ≡ asks_vec small_book (some 1))
    × (bids_vec (truncate 1 small_book) none ≡ bids_vec small_book (some 1))
truncate-eq-limit_example = truncate-eq-limit 1 small_book small_book-IsValid

abbrev small_spread : Fixed
small_spread = record { plus = 100; minus = 90 }

small_spread_lem : spread small_book ≡ some small_spread
unfolding spread
small_spread_lem = refl

spread-positive_iff_example :
    (fixed_decimal.order.cmp small_spread (fixed 0) ≡ gt) ↔ Uncrossed small_book
spread-positive_iff_example =
    spread-positive_iff small_book small_spread small_book-IsValid small_spread_lem

-- 1.00, 5.00, 2.00, 7.00, then 0.90, 4.00, 0.50, 3.00, at two places.
small_checksum_text :
    build_checksum_string small_book 2 2
    ≡ b'1' ∷ b'0' ∷ b'0' ∷ b'5' ∷ b'0' ∷ b'0' ∷ b'2' ∷ b'0' ∷ b'0' ∷ b'7' ∷ b'0' ∷ b'0' ∷ b'9'
      ∷ b'0' ∷ b'4' ∷ b'0' ∷ b'0' ∷ b'5' ∷ b'0' ∷ b'3' ∷ b'0' ∷ b'0' ∷ []
unfolding build_checksum_string format_fixed asks_iter bids_iter_rev push_levels strip trim_start
    delete fix_places contains split
small_checksum_text = refl

build_checksum_string-eq_example :
    build_checksum_string small_book 2 2
    ≡ level_text 2 2 (asks_vec small_book (some 10))
      ++ level_text 2 2 (bids_vec small_book (some 10))
build_checksum_string-eq_example = build_checksum_string-eq small_book 2 2

build_checksum_string-truncate_example :
    build_checksum_string (truncate 10 small_book) 2 2 ≡ build_checksum_string small_book 2 2
build_checksum_string-truncate_example =
    build_checksum_string-truncate 10 small_book 2 2 (omega arith) small_book-IsValid

two_asks : 1 < (depth small_book).0
unfolding depth
two_asks = omega arith

build_checksum_string_cut_example :
    length (build_checksum_string (truncate 1 small_book) 2 2)
    < length (build_checksum_string small_book 2 2)
build_checksum_string_cut_example =
    build_checksum_string_cut 1 small_book 2 2 (omega arith) two_asks small_book-IsValid

format_fixed-IsCanonical_example : IsCanonical (format_fixed (fixed 5) 4)
format_fixed-IsCanonical_example = format_fixed-IsCanonical (fixed 5) 4

-- 12.05 at four places.
abbrev twelve : Text
twelve = b'1' ∷ b'2' ∷ []

abbrev five_hundredths : Text
five_hundredths = b'0' ∷ b'5' ∷ []

twelve-PrintsAs :
    PrintsAs 4
      (fixed_decimal.to_string (fixed_decimal.round_dp (fixed 1205) 4))
      twelve
      five_hundredths
twelve-PrintsAs = record {
  whole_digits = omega arith;
  fraction_digits = omega arith;
  fits = omega arith;
  form = inr refl;
}

value-format_fixed_example :
    value (format_fixed (fixed 1205) 4)
    ≡ value (twelve ++ five_hundredths) * 10 ^ (4 - length five_hundredths)
value-format_fixed_example =
    value-format_fixed (fixed 1205) 4 twelve five_hundredths (omega arith) twelve-PrintsAs
