-- ===== src/Alerts/Listing.antt =====
-- Listing alerts: the order, the bound and what a listing does to the stored alerts.
use stake_basket.Prelude.{
  lt→ltb, ℕ, zero, suc, ◌≤◌, ◌<◌, Bool, Option, none, some, List, [], ◌∷◌, arith, All-take, take,
  length, length-take, filter, sort_down, sort_down-IsDescending, sort_down-perm, IsDescending,
}
use mathlib.Core.List.{Perm}
use mathlib.Core.List.Perm
use stake_basket.AlertRules.{Alert}
use stake_basket.Alerts.{AlertManager, get_alerts, limited, same}

IsDescending-take :
    (key : Alert → ℕ) (n : ℕ) (xs : List Alert) → IsDescending key xs → IsDescending key (take n xs)
IsDescending-take key zero xs h = tt
IsDescending-take key (suc n) [] h = tt
IsDescending-take key (suc n) (x ∷ xs) (p, h) =
    (All-take (λ y. key y ≤ key x) n xs p, IsDescending-take key n xs h)

limited-IsDescending :
    (limit : Option ℕ) (key : Alert → ℕ) (xs : List Alert)
    → IsDescending key xs
    → IsDescending key (limited limit xs)
limited-IsDescending none key xs h = h
limited-IsDescending (some zero) key xs h = h
limited-IsDescending (some (suc n)) key xs h =
    rw (lt→ltb 0 (suc n) (omega arith)) (IsDescending-take key (suc n) xs h)

-- A listing comes newest first, whatever filter and limit are given, and the manager holds the same
-- alerts after it, perhaps in another order.
get_alerts-IsDescending :
    (limit : Option ℕ) (acknowledged : Option Bool) (m : AlertManager)
    → IsDescending (λ a. a.timestamp) (get_alerts limit acknowledged m).1
      × Perm (get_alerts limit acknowledged m).0.alerts m.alerts
unfolding get_alerts
get_alerts-IsDescending limit none m = (
  limited-IsDescending limit (λ a. a.timestamp) _ (sort_down-IsDescending _ m.alerts),
  sort_down-perm (λ a. a.timestamp) m.alerts,
)
get_alerts-IsDescending limit (some b) m = (
  limited-IsDescending limit (λ a. a.timestamp) _ (sort_down-IsDescending _ (filter _ m.alerts)),
  Perm.refl m.alerts,
)

-- A positive limit bounds the listing.
length-get_alerts-le :
    (n : ℕ) (acknowledged : Option Bool) (m : AlertManager)
    → 0 < n
    → length (get_alerts (some n) acknowledged m).1 ≤ n
unfolding get_alerts
length-get_alerts-le zero acknowledged m h = absurd (omega arith)
length-get_alerts-le (suc n) none m h =
    rw (lt→ltb 0 (suc n) h)
      (omega (arith, length-take (suc n) (sort_down (λ (a : Alert). a.timestamp) m.alerts)))
length-get_alerts-le (suc n) (some b) m h = rw (lt→ltb 0 (suc n) h) (
    omega (
      arith,
      length-take (suc n)
          (sort_down (λ (a : Alert). a.timestamp) (filter (λ a. same a.acknowledged b) m.alerts)),
    ))
