-- ===== src/Tui/Tab/Selected.antt =====
-- crates/blackbox-server/src/tui/ui.rs: which symbol the parts of the tab show.
use k_blackbox.Base.{ℕ, ◌<◌, ◌≡◌, ap, sym, ◌∙◌, [], ◌∷◌, length, some, String}
use k_blackbox.Decimal.{Decimal}
use k_blackbox.Words.{Float}
use k_blackbox.DashMap.{get, get_or, keys}
use k_blackbox.State.{AppState}
use k_blackbox.Tui.App.{get_selected_symbol}
use k_blackbox.Tui.Snapshot.{from_state, proof_of, shown_symbols}
use k_blackbox.Tui.Console.{Console, Turn, look, requested_of}
use k_blackbox.Tui.Widgets.{integrity_inspector}
use k_blackbox.Tui.Widgets.Book.{render_orderbook}
use k_blackbox.Tui.Widgets.Marks.{picked, symbol_selector_picks}
use k_blackbox.Tui.Tab.{Scales, integrity_tab, depth_of}

module _ {D F : Type 0} ⦃d : Decimal D⦄ (f : Float F) (c : Scales D F)
    (mode fault_status : String) where
  -- The tab that is drawn from the snapshot of a turn shows one symbol throughout, that which the keys
  -- act on: the selector marks it and no other, the inspector shows its proof, if there is one, and the
  -- book is its book, if there is one, at its depth. This holds where the index of the selection is
  -- that of a symbol, and no symbol is new between the two snapshots.
  pub integrity_tab_selected :
      (height : ℕ) (t : Turn D F) (seen : Console D F) (s : AppState D F) (symbol : String)
      → keys (t.between seen.state).health ≡ keys seen.state.health
      → seen.app.selected_symbol_index < length (look f mode fault_status t seen).symbols
      → get_selected_symbol (look f mode fault_status t seen).symbols seen.app ≡ some symbol
      → let tab = integrity_tab f c height (look f mode fault_status t seen) seen.app s in
        (picked tab.symbols ≡ symbol ∷ [])
        × (tab.inspector
            ≡ integrity_inspector f c.share
                (get symbol (t.between seen.state).integrity_proofs)
                (some symbol))
        × (tab.book
            ≡ render_orderbook f c.to_f64 c.width
                (get_or 10 symbol s.depths)
                height
                (some symbol)
                s)
  unfolding look integrity_tab from_state
  integrity_tab_selected height t seen s symbol same h e =
      let requested = requested_of seen.state.requested_symbols in
      let selected =
        ap (λ ks. get_selected_symbol (shown_symbols ks requested) seen.app) (sym same) ∙ e in
      (
        symbol_selector_picks (look f mode fault_status t seen).symbols seen.app symbol h e,
        ap
            (λ o.
              integrity_inspector f c.share (proof_of o (t.between seen.state).integrity_proofs) o)
            selected,
        ap (λ o. render_orderbook f c.to_f64 c.width (depth_of o s.depths) height o s) selected,
      )
