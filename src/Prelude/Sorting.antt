-- ===== src/Prelude/Sorting.antt =====
-- `xs.sort(compare)`: a stable sort, as the language's specification demands.
use Prim.Native.Nat.{ℕ, zero, suc, ◌≤◌}
use mathlib.Core.Bool.{Bool}
use mathlib.Core.Path.{◌≡◌, refl}
use mathlib.Core.Logic.{inl, inr}
use mathlib.Core.List.{List, [], ◌∷◌, Perm}
use mathlib.Core.List.Perm
use native.Mathlib.Omega.{arith}
use stake_basket.Prelude.Tests.{if◌then◌else◌, leb, ltb, Bool-cases}
use stake_basket.Prelude.Lists.{All, All-filter, filter, drop}

module _ {ℓ} {A : Type ℓ} (key : A → ℕ) where
  -- before the first element whose key is not larger than its own
  unfoldable pub put_down : A → List A → List A
  put_down x [] = x ∷ []
  put_down x (y ∷ ys) =
      let rest = y ∷ put_down x ys in if leb (key y) (key x) then x ∷ y ∷ ys else rest

  -- `xs.sort((a, b) => key(b) - key(a))`
  unfoldable pub sort_down : List A → List A
  unfolding put_down
  sort_down [] = []
  sort_down (x ∷ xs) = put_down x (sort_down xs)

  abbrev pub IsDescending : List A → Type 0
  IsDescending [] = Unit
  IsDescending (x ∷ xs) = All (λ y. key y ≤ key x) xs × IsDescending xs

  pub put_down-perm : (x : A) (ys : List A) → Perm (put_down x ys) (x ∷ ys)
  unfolding put_down
  put_down-perm x [] = Perm.refl (x ∷ [])
  put_down-perm x (y ∷ ys) = elim (Bool-cases (leb (key y) (key x))) [
    | inl low ↦ rw low (Perm.refl (x ∷ y ∷ ys))
    | inr high ↦ rw high (Perm.trans (Perm.cons y (put_down-perm x ys)) (Perm.swap x y ys))
  ]

  -- The result holds the same elements as often.
  pub sort_down-perm : (xs : List A) → Perm (sort_down xs) xs
  unfolding sort_down
  sort_down-perm [] = Perm.refl []
  sort_down-perm (x ∷ xs) =
      Perm.trans (put_down-perm x (sort_down xs)) (Perm.cons x (sort_down-perm xs))

module _ {ℓ κ} {A : Type ℓ} (key : A → ℕ) (P : A → Type κ) where
  pub put_down-All : (x : A) (ys : List A) → P x → All P ys → All P (put_down key x ys)
  unfolding put_down
  put_down-All x [] p h = (p, tt)
  put_down-All x (y ∷ ys) p h = ground (arith, put_down-All x ys p h.1)

  pub sort_down-All : (xs : List A) → All P xs → All P (sort_down key xs)
  unfolding sort_down
  sort_down-All [] h = tt
  sort_down-All (x ∷ xs) h = put_down-All x (sort_down key xs) h.0 (sort_down-All xs h.1)

module _ {ℓ} {A : Type ℓ} (key : A → ℕ) where
  All-le : (a b : ℕ) (ys : List A) → a ≤ b → All (λ y. key y ≤ a) ys → All (λ y. key y ≤ b) ys
  All-le a b [] h p = tt
  All-le a b (y ∷ ys) h p = (omega arith, All-le a b ys h p.1)

  put_down-IsDescending :
      (x : A) (ys : List A) → IsDescending key ys → IsDescending key (put_down key x ys)
  unfolding put_down
  put_down-IsDescending x [] h = (tt, tt)
  put_down-IsDescending x (y ∷ ys) (low, h) = elim (Bool-cases (leb (key y) (key x))) [
    | inl below ↦
        let le : key y ≤ key x = ground arith in
        rw below ((le, All-le (key y) (key x) ys le low), (low, h))
    | inr above ↦
        let le : key x ≤ key y = ground arith in
        rw above (put_down-All key (λ z. key z ≤ key y) x ys le low, put_down-IsDescending x ys h)
  ]

  pub sort_down-IsDescending : (xs : List A) → IsDescending key (sort_down key xs)
  unfolding sort_down
  sort_down-IsDescending [] = tt
  sort_down-IsDescending (x ∷ xs) =
      put_down-IsDescending x (sort_down key xs) (sort_down-IsDescending xs)

-- `xs.sort(compare)` for any comparison: `before a b` is `compare(a, b) < 0`.
module _ {ℓ} {A : Type ℓ} (before : A → A → Bool) where
  put_by : A → List A → List A
  put_by x [] = x ∷ []
  put_by x (y ∷ ys) = let rest = y ∷ put_by x ys in if before y x then rest else x ∷ y ∷ ys

  unfoldable pub sort_by : List A → List A
  unfolding put_by
  sort_by [] = []
  sort_by (x ∷ xs) = put_by x (sort_by xs)

module _ {ℓ κ} {A : Type ℓ} (before : A → A → Bool) (P : A → Type κ) where
  put_by-All : (x : A) (ys : List A) → P x → All P ys → All P (put_by before x ys)
  unfolding put_by
  put_by-All x [] p h = (p, tt)
  put_by-All x (y ∷ ys) p h = ground (arith, put_by-All x ys p h.1)

  pub sort_by-All : (xs : List A) → All P xs → All P (sort_by before xs)
  unfolding sort_by
  sort_by-All [] h = tt
  sort_by-All (x ∷ xs) h = put_by-All x (sort_by before xs) h.0 (sort_by-All xs h.1)

module _ {ℓ} {A : Type ℓ} (key : A → ℕ) where
  abbrev pub IsAscending : List A → Type 0
  IsAscending [] = Unit
  IsAscending (x ∷ xs) = All (λ y. key x ≤ key y) xs × IsAscending xs

  pub filter-IsAscending : (p : A → Bool) (xs : List A) → IsAscending xs → IsAscending (filter p xs)
  filter-IsAscending p [] h = tt
  filter-IsAscending p (x ∷ xs) (low, h) =
      let kept = All-filter (λ y. key x ≤ key y) p xs low in
      ground (arith, filter-IsAscending p xs h)

  pub drop-IsAscending : (n : ℕ) (xs : List A) → IsAscending xs → IsAscending (drop n xs)
  drop-IsAscending zero xs h = h
  drop-IsAscending (suc n) [] h = tt
  drop-IsAscending (suc n) (x ∷ xs) h = drop-IsAscending n xs h.1

  put_by_first :
      (x : A) (xs : List A)
      → All (λ y. key x ≤ key y) xs
      → put_by (λ a b. ltb (key a) (key b)) x xs ≡ x ∷ xs
  unfolding put_by
  put_by_first x [] h = refl
  put_by_first x (y ∷ ys) h = ground (arith, h.0)

  -- An ascending array is sorted already.
  pub sort_by_ascending :
      (xs : List A) → IsAscending xs → sort_by (λ a b. ltb (key a) (key b)) xs ≡ xs
  unfolding sort_by
  sort_by_ascending [] h = refl
  sort_by_ascending (x ∷ xs) (low, h) = rw (sort_by_ascending xs h) (put_by_first x xs low)
