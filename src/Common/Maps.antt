-- ===== src/Common/Maps.antt =====
-- `std::map`: the entries in the order of the keys, which `lt`, the key type's `operator<`, decides.
use Prim.Native.Nat.{ℕ, ◌+◌}
use mathlib.Core.Path.{◌≡◌, refl}
use mathlib.Core.Logic.{inl, inr}
use mathlib.Core.Bool.{Bool, true, false, ◌||◌}
use mathlib.Core.List.{List, [], ◌∷◌}
use native.Mathlib.Omega.{arith}
use map.Common.Tests.{if◌then◌else◌, Bool-cases}

-- What `std::map` asks of the order.
pub record IsOrder {ℓ} {K : Type ℓ} (lt : K → K → Bool) : Type ℓ where
  pub irrefl : (a : K) → lt a a ≡ false
  pub asym : (a b : K) → lt a b ≡ true → lt b a ≡ false
  pub weak : (a b c : K) → lt a b ≡ false → lt b c ≡ false → lt a c ≡ false

module _ {ℓ κ} {K : Type ℓ} {V : Type κ} (lt : K → K → Bool) where
  -- `m[k] = f(m[k])`, where a missing entry is made with the value `d` first.
  unfoldable pub modify : K → V → (V → V) → List (K × V) → List (K × V)
  modify k d f [] = (k, f d) ∷ []
  modify k d f ((j, v) ∷ m) =
      if lt k j
      then (k, f d) ∷ (j, v) ∷ m
      else if lt j k
      then (j, v) ∷ modify k d f m
      else (j, f v) ∷ m

  -- The value of an entry, `d` for a missing one.
  unfoldable pub get : K → V → List (K × V) → V
  get k d [] = d
  get k d ((j, v) ∷ m) = if lt k j then d else if lt j k then get k d m else v

module _ {ℓ κ} {K : Type ℓ} {V : Type κ} {lt : K → K → Bool} where
  pub get-modify_self :
      (k : K) (d : V) (f : V → V) (m : List (K × V))
      → IsOrder lt
      → get lt k d (modify lt k d f m) ≡ f (get lt k d m)
  unfolding get modify
  get-modify_self k d f [] o = rw (o.irrefl k) refl
  get-modify_self k d f ((j, v) ∷ m) o = ground (arith, o.irrefl k, get-modify_self k d f m o)

  pub get-modify_ne :
      (k i : K) (d : V) (f : V → V) (m : List (K × V))
      → IsOrder lt
      → (lt i k || lt k i) ≡ true
      → get lt i d (modify lt k d f m) ≡ get lt i d m
  unfolding get modify
  get-modify_ne k i d f [] o h = ground arith
  get-modify_ne k i d f ((j, v) ∷ m) o h = ground (
    arith,
    o.asym i k,
    o.asym k i,
    o.weak i k j,
    o.weak k i j,
    o.weak i j k,
    o.weak k j i,
    o.weak j k i,
    o.weak j i k,
    o.asym j i,
    o.asym j k,
    get-modify_ne k i d f m o h,
  )

-- The sum of a number over the entries.
module _ {ℓ κ} {K : Type ℓ} {V : Type κ} where
  unfoldable pub sum_by : (V → ℕ) → List (K × V) → ℕ
  sum_by g [] = 0
  sum_by g ((k, v) ∷ m) = g v + sum_by g m

  pub sum_by-modify :
      (lt : K → K → Bool) (g : V → ℕ) (f : V → V) (k : K) (d : V) (n : ℕ) (m : List (K × V))
      → g d ≡ 0
      → ((v : V) → g (f v) ≡ g v + n)
      → sum_by g (modify lt k d f m) ≡ sum_by g m + n
  unfolding sum_by modify
  sum_by-modify lt g f k d n [] h step = omega (arith, step d)
  sum_by-modify lt g f k d n ((j, v) ∷ m) h step =
      ground (arith, step d, step v, sum_by-modify lt g f k d n m h step)

  -- A predicate on every entry.
  abbrev pub Each {μ} : (K → V → Type μ) → List (K × V) → Type μ
  Each P [] = Unit
  Each P ((k, v) ∷ m) = P k v × Each P m

  pub modify-Each {μ} :
      (lt : K → K → Bool) (P : K → V → Type μ) (f : V → V) (k : K) (d : V) (m : List (K × V))
      → P k (f d)
      → ((j : K) (v : V) → P j v → P j (f v))
      → Each P m
      → Each P (modify lt k d f m)
  unfolding modify
  modify-Each lt P f k d [] new step all = (new, tt)
  modify-Each lt P f k d ((j, v) ∷ m) new step all =
      elim (lt k j)
        as (λ b. Each P (
          if b
          then (k, f d) ∷ (j, v) ∷ m
          else if lt j k
          then (j, v) ∷ modify lt k d f m
          else (j, f v) ∷ m)) [
            | true ↦ (new, all)
            | false ↦
                elim (lt j k)
                  as (λ b. Each P (if b then (j, v) ∷ modify lt k d f m else (j, f v) ∷ m)) [
                    | true ↦ (all.0, modify-Each lt P f k d m new step all.1)
                    | false ↦ (step j v all.0, all.1)
                  ]
          ]

-- The keys ascend, so no two entries have one key.
module _ {ℓ κ} {K : Type ℓ} {V : Type κ} (lt : K → K → Bool) where
  abbrev pub IsAscending : List (K × V) → Type (ℓ ⊔ κ)
  IsAscending [] = Unit
  IsAscending ((k, v) ∷ m) = Each (λ j w. lt k j ≡ true) m × IsAscending m

lt_trans {ℓ} :
    {K : Type ℓ} {lt : K → K → Bool} (a b c : K)
    → IsOrder lt
    → lt a b ≡ true
    → lt b c ≡ true
    → lt a c ≡ true
lt_trans a b c o h k = ground (arith, o.asym b c, o.weak a c b)

module _ {ℓ κ} {K : Type ℓ} {V : Type κ} where
  Each-weaken :
      {P Q : K → V → Type 0} (m : List (K × V))
      → ((k : K) (v : V) → P k v → Q k v)
      → Each P m
      → Each Q m
  Each-weaken [] step all = tt
  Each-weaken ((k, v) ∷ m) step all = (step k v all.0, Each-weaken m step all.1)

  pub modify-IsAscending :
      (lt : K → K → Bool) (f : V → V) (k : K) (d : V) (m : List (K × V))
      → IsOrder lt
      → IsAscending lt m
      → IsAscending lt (modify lt k d f m)
  unfolding modify
  modify-IsAscending lt f k d [] o h = (tt, tt)
  modify-IsAscending lt f k d ((j, v) ∷ m) o h = elim (Bool-cases (lt k j)) [
    | inl e ↦
        rw e ((e, Each-weaken {P = λ i w. lt j i ≡ true} m (λ i w l. lt_trans k j i o e l) h.0), h)
    | inr e ↦ rw e (elim (Bool-cases (lt j k)) [
      | inl l ↦ rw l (
        modify-Each lt (λ i w. lt j i ≡ true) f k d m l (λ i w p. p) h.0,
        modify-IsAscending lt f k d m o h.1,
      )
      | inr l ↦ rw l h
    ])
  ]

  -- The same for a step that is known on entries with a property.
  pub sum_by-modify-Each :
      (lt : K → K → Bool) (P : V → Type 0) (g : V → ℕ) (f : V → V) (k : K) (d : V) (n : ℕ)
      (m : List (K × V))
      → g d ≡ 0
      → P d
      → ((v : V) → P v → g (f v) ≡ g v + n)
      → Each (λ j v. P v) m
      → sum_by g (modify lt k d f m) ≡ sum_by g m + n
  unfolding sum_by modify
  sum_by-modify-Each lt P g f k d n [] h p step all = omega (arith, step d p)
  sum_by-modify-Each lt P g f k d n ((j, v) ∷ m) h p step all =
      ground (arith, step d p, step v all.0, sum_by-modify-Each lt P g f k d n m h p step all.1)

  pub get-Each :
      (lt : K → K → Bool) (P : V → Type 0) (k : K) (d : V) (m : List (K × V))
      → P d
      → Each (λ j v. P v) m
      → P (get lt k d m)
  unfolding get
  get-Each lt P k d [] p all = p
  get-Each lt P k d ((j, v) ∷ m) p all = elim (Bool-cases (lt k j)) [
    | inl e ↦ rw e p
    | inr e ↦ rw e (elim (Bool-cases (lt j k)) [
      | inl l ↦ rw l (get-Each lt P k d m p all.1)
      | inr l ↦ rw l all.0
    ])
  ]
