-- ===== src/Tasks/Shown.antt =====
-- crates/blackbox-server/src/tui/widgets.rs: what the book's widget shows of a state that the tasks reach.
use k_blackbox.Decimal.{Decimal}
use k_blackbox.Orderbook.{Orderbook}
use k_blackbox.Tui.Widgets.Book.{BookView, no_symbol, no_data, book}
use k_blackbox.Tui.Widgets.Best.{OnlyFirst}

-- Of each side the first row is marked as the best level, and no other.
abbrev pub IsMarked : {D : Type 0} ⦃d : Decimal D⦄ → BookView D → Type 0
IsMarked no_symbol = Unit
IsMarked (no_data symbol) = Unit
IsMarked (book summary bids asks) = OnlyFirst bids × OnlyFirst asks
