-- ===== src/State/Overall.antt =====
-- `overall_health`: the worst status of the symbols.
pub mod Order
use k_blackbox.Base.{
  ℕ, ◌≤◌, ◌≡◌, refl, List, [], ◌∷◌, map, true, All, ltb, subst, if◌then◌else◌, arith,
}
use k_blackbox.Words.{Time, Float}
use k_blackbox.DashMap.{values}
use k_blackbox.Health.{SymbolHealth, HealthStatus, OverallHealth, ok, warn, fail, status}
use k_blackbox.Health.Status.{status_ok}
use k_blackbox.State.{AppState, uptime_seconds}

-- The key of `min_by_key`.
abbrev pub rank : HealthStatus → ℕ
rank fail = 0
rank warn = 1
rank ok = 2

abbrev pub better : HealthStatus → HealthStatus → HealthStatus
better best s = if ltb (rank s) (rank best) then s else best

-- `min_by_key` keeps the first of the least ones.
unfoldable pub min_from : HealthStatus → List HealthStatus → HealthStatus
min_from best [] = best
min_from best (s ∷ ss) = min_from (better best s) ss

abbrev pub worst_of : List HealthStatus → HealthStatus
worst_of [] = ok
worst_of (s ∷ ss) = min_from s ss

module _ {D F : Type 0} (f : Float F) where
  -- Each symbol's status reads the clock; the readings are taken as one, `now`.
  unfoldable pub overall_health : Time → AppState D F → OverallHealth F
  overall_health now s = record {
    status = worst_of (map (status f now) (values s.health));
    symbols = values s.health;
    uptime_seconds = uptime_seconds now s;
  }

better-le :
    (best s : HealthStatus) → (rank (better best s) ≤ rank best) × (rank (better best s) ≤ rank s)
better-le best s = ground arith

min_from-le :
    (best : HealthStatus) (ss : List HealthStatus)
    → (rank (min_from best ss) ≤ rank best) × All (λ s. rank (min_from best ss) ≤ rank s) ss
unfolding min_from
min_from-le best [] = (omega arith, tt)
min_from-le best (s ∷ ss) =
    let b = better-le best s in
    let ih = min_from-le (better best s) ss in
    (omega (arith, ih.0, b), (omega (arith, ih.0, b), ih.1))

worst_of-le : (ss : List HealthStatus) → All (λ s. rank (worst_of ss) ≤ rank s) ss
worst_of-le [] = tt
worst_of-le (s ∷ ss) = min_from-le s ss

rank_top : (s : HealthStatus) → 2 ≤ rank s → s ≡ ok
rank_top ok h = refl
rank_top warn h = absurd (omega arith)
rank_top fail h = absurd (omega arith)

module _ {F : Type 0} (f : Float F) (now : Time) where
  All-statuses :
      (hs : List (SymbolHealth F)) (w : ℕ)
      → All (λ s. w ≤ rank s) (map (status f now) hs)
      → All (λ h. w ≤ rank (status f now h)) hs
  All-statuses [] w a = tt
  All-statuses (h ∷ hs) w a = (a.0, All-statuses hs w a.1)

  All-ok :
      (hs : List (SymbolHealth F)) (w : HealthStatus)
      → w ≡ ok
      → All (λ h. rank w ≤ rank (status f now h)) hs
      → All (λ h. (h.connected ≡ true) × (h.consecutive_fails ≤ 2)) hs
  All-ok [] w e a = tt
  All-ok (h ∷ hs) w e a =
      let top = rank_top (status f now h) (subst (λ x. rank x ≤ rank (status f now h)) e a.0) in
      let good = status_ok f now h top in ((good.0, good.2), All-ok hs w e a.1)

module _ {D F : Type 0} (f : Float F) (now : Time) where
  -- The overall status is no better than that of any symbol.
  pub overall_health-worst :
      (s : AppState D F)
      → All (λ h. rank (overall_health f now s).status ≤ rank (status f now h)) (values s.health)
  unfolding overall_health
  overall_health-worst s =
      All-statuses f now (values s.health) _ (worst_of-le (map (status f now) (values s.health)))

  -- An overall Ok means that every symbol is connected and has at most two failures in a row.
  pub overall_health_ok :
      (s : AppState D F)
      → (overall_health f now s).status ≡ ok
      → All (λ h. (h.connected ≡ true) × (h.consecutive_fails ≤ 2)) (values s.health)
  overall_health_ok s e =
      All-ok f now (values s.health) (overall_health f now s).status e (overall_health-worst s)
