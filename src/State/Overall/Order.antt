-- ===== src/State/Overall/Order.antt =====
-- `DashMap` iterates in no fixed order, and `overall_health` goes through the symbols in that order.
use mathlib.Core.List.{Perm, Permᴰ}
use mathlib.Core.List.Perm as Reordering
use mathlib.Core.Logic.{∥∥₁_elim}
use k_blackbox.Base.{◌≡◌, refl, ap, ap₂, sym, ◌∙◌, List, [], ◌∷◌, arith}
use k_blackbox.Words.{Time, Float}
use k_blackbox.DashMap.{values}
use k_blackbox.Health.{HealthStatus, ok, status}
use k_blackbox.State.{AppState}
use k_blackbox.State.Overall.{better, min_from, worst_of, overall_health}

HealthStatus-set : IsSet HealthStatus
HealthStatus-set = hlevel

better_swap : (b s t : HealthStatus) → better (better b s) t ≡ better (better b t) s
better_swap b s t = ground arith

min_from-Permᴰ :
    {xs ys : List HealthStatus} → Permᴰ xs ys → (b : HealthStatus) → min_from b xs ≡ min_from b ys
unfolding min_from
min_from-Permᴰ Permᴰ.nil b = refl
min_from-Permᴰ (Permᴰ.cons {l₂ = ys} e p) b =
    min_from-Permᴰ p _ ∙ ap (λ s. min_from (better b s) ys) e
min_from-Permᴰ (Permᴰ.swap {a = s} {b = t} {l = r} e k) b =
    ap (λ x. min_from x r) (better_swap b s t) ∙ ap₂ (λ x y. min_from (better (better b x) y) r) k e
min_from-Permᴰ (Permᴰ.trans p q) b = min_from-Permᴰ p b ∙ min_from-Permᴰ q b

worst_of-eq : (ss : List HealthStatus) → worst_of ss ≡ min_from ok ss
unfolding min_from
worst_of-eq [] = refl
worst_of-eq (s ∷ ss) = ap (λ x. min_from x ss) (ok_first s)
  where
    ok_first : (s : HealthStatus) → s ≡ better ok s
    ok_first s = ground arith

worst_of-perm : (xs ys : List HealthStatus) → Perm xs ys → worst_of xs ≡ worst_of ys
worst_of-perm xs ys p =
    ∥∥₁_elim p (HealthStatus-set _ _)
      (λ q. worst_of-eq xs ∙ min_from-Permᴰ q ok ∙ sym (worst_of-eq ys))

module _ {D F : Type 0} (f : Float F) (now : Time) where
  -- Two states whose symbols have the same health, in whatever order the maps give them, have the same
  -- overall status.
  pub overall_health-perm :
      (s t : AppState D F)
      → Perm (values s.health) (values t.health)
      → (overall_health f now s).status ≡ (overall_health f now t).status
  unfolding overall_health
  overall_health-perm s t p = worst_of-perm _ _ (Reordering.map (status f now) p)
