-- ===== src/Tui/Snapshot/Badge.antt =====
-- crates/blackbox-server/src/tui/snapshot.rs: when the badge of integrity shows what.
use k_blackbox.Base.{◌≡◌, ◌≤◌, ◌↔◌, ◌⊎◌, refl, List, [], ◌∷◌, true, false, All, leb, arith}
use k_blackbox.Words.{Float}
use k_blackbox.Tui.Snapshot.{
  SymbolHealthRow, UiSnapshot, verified, degraded, broken, is_empty, any, has_issue,
  integrity_badge_status,
}

module _ {F : Type 0} where
  -- Some row has failed three times or more in a row.
  abbrev pub SomeBroken : List (SymbolHealthRow F) → Type 0
  SomeBroken [] = ⊥
  SomeBroken (r ∷ rs) = (3 ≤ r.consecutive_fail) ⊎ SomeBroken rs

module _ {F : Type 0} (f : Float F) (threshold : F) where
  -- Nothing to complain about in any row.
  abbrev pub AllClean : List (SymbolHealthRow F) → Type 0
  AllClean rows = All (λ r. (f.lt r.ok_rate threshold ≡ false) × (r.consecutive_fail ≡ 0)) rows

  any-issue :
      (rows : List (SymbolHealthRow F)) → (any (has_issue f threshold) rows ≡ false) ↔ AllClean rows
  any-issue [] = ((λ h. tt), (λ h. refl))
  any-issue (r ∷ rs) = ground (arith, any-issue rs)

  any_broken :
      (rows : List (SymbolHealthRow F))
      → (any (λ r. leb 3 r.consecutive_fail) rows ≡ true) ↔ SomeBroken rows
  any_broken [] = ((λ h. absurd (ground arith)), (λ h. absurd h))
  any_broken (r ∷ rs) = ground (arith, any_broken rs)

  clean_unbroken :
      (rows : List (SymbolHealthRow F))
      → AllClean rows
      → any (λ r. leb 3 r.consecutive_fail) rows ≡ false
  clean_unbroken [] h = refl
  clean_unbroken (r ∷ rs) h = ground (arith, clean_unbroken rs h.1)

  -- The badge shows "verified" exactly when the snapshot says that it is connected, there is at least
  -- one row, and every row counts no failures in a row (as one without any check does too) and has a
  -- rate of matches that is not below the threshold. It shows "broken" exactly when the snapshot says
  -- that it is not connected, or some row counts three failures in a row or more. It shows "degraded"
  -- exactly when neither of these is the case.
  pub integrity_badge_status_iff :
      {D : Type 0} (snap : UiSnapshot D F)
      → let clean =
          (snap.connected ≡ true)
          × (is_empty snap.symbol_health ≡ false)
          × AllClean snap.symbol_health in
        let failing = (snap.connected ≡ false) ⊎ SomeBroken snap.symbol_health in
        ((integrity_badge_status f threshold snap ≡ verified) ↔ clean)
        × ((integrity_badge_status f threshold snap ≡ broken) ↔ failing)
        × ((integrity_badge_status f threshold snap ≡ degraded) ↔ ((¬ clean) × (¬ failing)))
  unfolding integrity_badge_status
  integrity_badge_status_iff snap = ground (
    arith,
    any-issue snap.symbol_health,
    any_broken snap.symbol_health,
    clean_unbroken snap.symbol_health,
  )
