-- ===== src/Tui/Widgets/Marks.antt =====
-- crates/blackbox-server/src/tui/widgets.rs and app.rs: which line of the selector is marked, and
-- which of each side of the book.
use k_blackbox.Base.{
  ℕ, zero, suc, ◌+◌, ◌%◌, ◌<◌, ◌≡◌, refl, ap, sym, ◌∙◌, List, [], ◌∷◌, length, get_elem?, Bool,
  some, String, if◌then◌else◌, arith,
}
use k_blackbox.Tui.App.{TuiApp, get_selected_symbol}
use k_blackbox.Tui.Widgets.{marked, symbol_selector}

-- The symbols that are marked.
abbrev pub picked : List (Bool × String) → List String
picked [] = []
picked ((mark, s) ∷ rows) = let rest = picked rows in if mark then s ∷ rest else rest

picked_past :
    (selected i : ℕ) (ss : List String) → selected < i → picked (marked selected i ss) ≡ []
picked_past selected i [] h = refl
picked_past selected i (s ∷ ss) h = ground (arith, picked_past selected (suc i) ss)

picked-marked :
    (k i selected : ℕ) (ss : List String) (s : String)
    → selected ≡ i + k
    → get_elem? ss k ≡ some s
    → picked (marked selected i ss) ≡ s ∷ []
picked-marked k i selected [] s e h = cc
picked-marked zero i selected (x ∷ ss) s e h = ground (arith, picked_past selected (suc i) ss)
picked-marked (suc k) i selected (x ∷ ss) s e h =
    ground (arith, picked-marked k (suc i) selected ss s)

-- While the index of the selection is one of a symbol, the selector marks one symbol, and that is the
-- one that the keys act on.
pub symbol_selector_picks :
    (symbols : List String) (app : TuiApp) (s : String)
    → app.selected_symbol_index < length symbols
    → get_selected_symbol symbols app ≡ some s
    → picked (symbol_selector symbols app.selected_symbol_index) ≡ s ∷ []
unfolding get_selected_symbol symbol_selector
symbol_selector_picks [] app s h e = cc
symbol_selector_picks (x ∷ xs) app s h e =
    let small : app.selected_symbol_index % length (x ∷ xs) ≡ app.selected_symbol_index =
      grind arith in
    picked-marked app.selected_symbol_index 0 app.selected_symbol_index (x ∷ xs) s (omega arith)
      (ap (get_elem? (x ∷ xs)) (sym small) ∙ e)
