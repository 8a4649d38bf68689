-- ===== src/Clients/Date/Order.antt =====
-- The comparisons of dates, by which the last file is found.
use map.Common.Int.{ℤ}
use map.Common.Maps.{IsOrder}
use map.Common.{◌≡◌, refl, Bool, true, false, not, ◌||◌, arith}
use map.Clients.Date.{Date, decide, lt_date, gt_date, eq_date, year, month, day, hour, min}
use map.Stat.{ltb_ℤ}

lt_date_irrefl : (a : Date) → lt_date a a ≡ false
unfolding lt_date
lt_date_irrefl a = ground arith

-- One round of the comparison keeps the laws of an order.
decide_asym :
    (x y : ℤ) (p q : Bool)
    → (p ≡ true → q ≡ false)
    → decide x y (ltb_ℤ x y) p ≡ true
    → decide y x (ltb_ℤ y x) q ≡ false
decide_asym x y p q h k = ground (arith, h)

decide_weak :
    (x y z : ℤ) (p q r : Bool)
    → (p ≡ false → q ≡ false → r ≡ false)
    → decide x y (ltb_ℤ x y) p ≡ false
    → decide y z (ltb_ℤ y z) q ≡ false
    → decide x z (ltb_ℤ x z) r ≡ false
decide_weak x y z p q r h k l = ground (arith, h)

lt_date_asym : (a b : Date) → lt_date a b ≡ true → lt_date b a ≡ false
unfolding lt_date
lt_date_asym a b = decide_asym (year a) (year b) _ _ (
    decide_asym (month a) (month b) _ _ (
      decide_asym (day a) (day b) _ _
        (decide_asym (hour a) (hour b) _ _ (decide_asym (min a) (min b) _ _ (λ h. refl)))))

lt_date_weak : (a b c : Date) → lt_date a b ≡ false → lt_date b c ≡ false → lt_date a c ≡ false
unfolding lt_date
lt_date_weak a b c = decide_weak (year a) (year b) (year c) _ _ _ (
    decide_weak (month a) (month b) (month c) _ _ _ (
      decide_weak (day a) (day b) (day c) _ _ _ (
        decide_weak (hour a) (hour b) (hour c) _ _ _
          (decide_weak (min a) (min b) (min c) _ _ _ (λ h k. refl)))))

pub lt_date-IsOrder : IsOrder lt_date
lt_date-IsOrder = record { irrefl = lt_date_irrefl; asym = lt_date_asym; weak = lt_date_weak }

gt_date-lt_date : (a b : Date) → gt_date a b ≡ lt_date b a
unfolding gt_date lt_date
gt_date-lt_date a b = ground arith

eq_date-lt_date : (a b : Date) → eq_date a b ≡ not (lt_date a b || lt_date b a)
unfolding eq_date lt_date
eq_date-lt_date a b = ground arith
