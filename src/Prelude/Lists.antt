-- ===== src/Prelude/Lists.antt =====
-- Arrays: lists measured by native numbers, with `filter`, `find`, `slice` and `reduce` as
-- JavaScript has them, under the library's names where it has the function.
use Prim.Native.Nat.{ℕ, zero, suc, ◌+◌, ◌-◌, ◌≤◌, min}
use mathlib.Core.Path.{ap, ◌≡◌, refl, sym, ◌∙◌}
use mathlib.Core.Bool.{Bool, true, false, not, ◌&&◌, ◌||◌}
use mathlib.Core.List.{mem-cons_of_mem, mem-cons_self, Mem, List, [], ◌∷◌, ◌++◌}
use mathlib.Core.Option.{Option, none, some}
use native.Mathlib.Omega.{arith}
use stake_basket.Prelude.Tests.{if◌then◌else◌, ltb, leb, leb→le, leb-false→lt, lt→ltb, Bool-cases}
use mathlib.Core.Logic.{inl, inr}

module _ {ℓ} {A : Type ℓ} where
  abbrev pub length : List A → ℕ
  length [] = 0
  length (x ∷ xs) = suc (length xs)

  abbrev pub take : ℕ → List A → List A
  take zero xs = []
  take (suc n) [] = []
  take (suc n) (x ∷ xs) = x ∷ take n xs

  abbrev pub drop : ℕ → List A → List A
  drop zero xs = xs
  drop (suc n) [] = []
  drop (suc n) (x ∷ xs) = drop n xs

  -- `xs.filter(p)`
  abbrev pub filter : (A → Bool) → List A → List A
  filter p [] = []
  filter p (x ∷ xs) = let rest = filter p xs in if p x then x ∷ rest else rest

  -- `xs.find(p)`
  abbrev pub find : (A → Bool) → List A → Option A
  find p [] = none
  find p (x ∷ xs) = let rest = find p xs in if p x then some x else rest

  -- a change of the first element that passes the test
  abbrev pub update_first : (A → Bool) → (A → A) → List A → List A
  update_first p f [] = []
  update_first p f (x ∷ xs) = let rest = x ∷ update_first p f xs in if p x then f x ∷ xs else rest

  abbrev pub any : (A → Bool) → List A → Bool
  any p [] = false
  any p (x ∷ xs) = p x || any p xs

  -- `xs.every(p)`
  abbrev pub all : (A → Bool) → List A → Bool
  all p [] = true
  all p (x ∷ xs) = p x && all p xs

  -- `xs[xs.length - 1]`
  abbrev pub last : List A → Option A
  last [] = none
  last (x ∷ []) = some x
  last (x ∷ y ∷ xs) = last (y ∷ xs)

  abbrev pub total : (A → ℕ) → List A → ℕ
  total f [] = 0
  total f (x ∷ xs) = f x + total f xs

module _ {ℓ} {A : Type ℓ} where
  -- `xs.filter(p).length`
  abbrev pub count : (A → Bool) → List A → ℕ
  count p xs = length (filter p xs)

  -- `xs.slice(-n)`, for a positive n
  abbrev pub take_last : ℕ → List A → List A
  take_last n xs = drop (length xs - n) xs

  pub length-append : (xs ys : List A) → length (xs ++ ys) ≡ length xs + length ys
  length-append [] ys = omega arith
  length-append (x ∷ xs) ys = omega (arith, length-append xs ys)

  pub length-take : (n : ℕ) (xs : List A) → length (take n xs) ≡ min n (length xs)
  length-take zero xs = omega arith
  length-take (suc n) [] = omega arith
  length-take (suc n) (x ∷ xs) = omega (arith, length-take n xs)

  pub length-drop : (n : ℕ) (xs : List A) → length (drop n xs) ≡ length xs - n
  length-drop zero xs = omega arith
  length-drop (suc n) [] = omega arith
  length-drop (suc n) (x ∷ xs) = omega (arith, length-drop n xs)

  pub drop-append : (n : ℕ) (xs ys : List A) → n ≤ length xs → drop n (xs ++ ys) ≡ drop n xs ++ ys
  drop-append zero xs ys h = refl
  drop-append (suc n) [] ys h = absurd (omega arith)
  drop-append (suc n) (x ∷ xs) ys h = drop-append n xs ys (omega arith)

  drop-nil : (n : ℕ) → drop {A = A} n [] ≡ []
  drop-nil zero = refl
  drop-nil (suc n) = refl

  pub drop-drop : (n m : ℕ) (xs : List A) → drop n (drop m xs) ≡ drop (m + n) xs
  drop-drop n zero xs = ground arith
  drop-drop n (suc m) [] = drop-nil n ∙ sym (drop-nil (suc m + n))
  drop-drop n (suc m) (x ∷ xs) =
      let e : suc m + n ≡ suc (m + n) = omega arith in rw e (drop-drop n m xs)

  pub filter-append :
      (p : A → Bool) (xs ys : List A) → filter p (xs ++ ys) ≡ filter p xs ++ filter p ys
  filter-append p [] ys = refl
  filter-append p (x ∷ xs) ys = ground (arith, filter-append p xs ys)

  pub count-append : (p : A → Bool) (xs ys : List A) → count p (xs ++ ys) ≡ count p xs + count p ys
  count-append p [] ys = omega arith
  count-append p (x ∷ xs) ys = ground (arith, count-append p xs ys)

  pub filter-filter :
      (p q : A → Bool) (xs : List A) → filter p (filter q xs) ≡ filter (λ x. q x && p x) xs
  filter-filter p q [] = refl
  filter-filter p q (x ∷ xs) = ground (arith, filter-filter p q xs)

  pub count-le : (p : A → Bool) (xs : List A) → count p xs ≤ length xs
  count-le p [] = omega arith
  count-le p (x ∷ xs) = ground (arith, count-le p xs)

  pub count-not : (p : A → Bool) (xs : List A) → count p xs + count (λ x. not (p x)) xs ≡ length xs
  count-not p [] = omega arith
  count-not p (x ∷ xs) = ground (arith, count-not p xs)

  pub total-append : (f : A → ℕ) (xs ys : List A) → total f (xs ++ ys) ≡ total f xs + total f ys
  total-append f [] ys = omega arith
  total-append f (x ∷ xs) ys = omega (arith, total-append f xs ys)

module _ {ℓ κ} {A : Type ℓ} (P : A → Type κ) where
  abbrev pub All : List A → Type κ
  All [] = Unit
  All (x ∷ xs) = P x × All xs

  pub All-append : (xs ys : List A) → All xs → All ys → All (xs ++ ys)
  All-append [] ys _ k = k
  All-append (x ∷ xs) ys (p, h) k = (p, All-append xs ys h k)

  pub All-filter : (q : A → Bool) (xs : List A) → All xs → All (filter q xs)
  All-filter q [] h = h
  All-filter q (x ∷ xs) h = ground (arith, All-filter q xs h.1)

  pub All-take : (n : ℕ) (xs : List A) → All xs → All (take n xs)
  All-take zero xs h = tt
  All-take (suc n) [] h = tt
  All-take (suc n) (x ∷ xs) (p, h) = (p, All-take n xs h)

  pub All-drop : (n : ℕ) (xs : List A) → All xs → All (drop n xs)
  All-drop zero xs h = h
  All-drop (suc n) [] h = tt
  All-drop (suc n) (x ∷ xs) (p, h) = All-drop n xs h

-- An element less, at any place.
pub All-without {ℓ κ} :
    {A : Type ℓ} (P : A → Type κ) (xs : List A) (x : A) (ys : List A)
    → All P (xs ++ x ∷ ys)
    → All P (xs ++ ys)
All-without P [] x ys h = h.1
All-without P (z ∷ xs) x ys (p, h) = (p, All-without P xs x ys h)

pub All-map {ℓ κ μ} :
    {A : Type ℓ} {P : A → Type κ} {Q : A → Type μ}
    → ((x : A) → P x → Q x)
    → (xs : List A) → All P xs
    → All Q xs
All-map f [] h = tt
All-map f (x ∷ xs) (p, h) = (f x p, All-map f xs h)

-- `xs.push(x)`, after which only the last `cap` elements are kept.
module _ {ℓ} {A : Type ℓ} where
  unfoldable pub push_capped : ℕ → List A → A → List A
  push_capped cap xs x =
      let ys = xs ++ x ∷ [] in if ltb cap (length ys) then take_last cap ys else ys

  take_last_all : (cap : ℕ) (xs : List A) → length xs ≤ cap → take_last cap xs ≡ xs
  take_last_all cap xs h = let e : length xs - cap ≡ 0 = omega arith in rw e

  -- Capping at every push is capping the whole log once.
  pub push_capped-take_last :
      (cap : ℕ) (xs : List A) (x : A)
      → push_capped cap (take_last cap xs) x ≡ take_last cap (xs ++ x ∷ [])
  unfolding push_capped
  push_capped-take_last cap xs x = elim (Bool-cases (leb (length xs) cap)) [
    | inl short ↦
        rw (take_last_all cap xs (leb→le _ _ short))
          (elim (Bool-cases (ltb cap (length (xs ++ x ∷ [])))) [
            | inl over ↦ rw over
            | inr under ↦
                rw under (
                  sym
                    (take_last_all cap (xs ++ x ∷ []) (ground (arith, length-append xs (x ∷ [])))))
          ])
    | inr long ↦
        let n : ℕ = length xs - cap in
        let kept : length (take_last cap xs) ≡ cap = ground (arith, length-drop n xs) in
        let grown : length (take_last cap xs ++ x ∷ []) ≡ suc cap =
          omega (arith, length-append (take_last cap xs) (x ∷ [])) in
        let one : suc cap - cap ≡ 1 = omega arith in
        let over : ltb cap (suc cap) ≡ true = lt→ltb _ _ (omega arith) in
        rw (grown, over, one)
          (ap (drop 1) (sym (drop-append n xs (x ∷ []) (omega arith)))
            ∙ drop-drop 1 n (xs ++ x ∷ [])
            ∙ ap (λ k. drop k (xs ++ x ∷ []))
                (omega (arith, length-append xs (x ∷ []), leb-false→lt _ _ long)))
  ]

  pub length-take_last-le : (cap : ℕ) (xs : List A) → length (take_last cap xs) ≤ cap
  length-take_last-le cap xs = omega (arith, length-drop (length xs - cap) xs)

-- Every element of a list is one of its elements.
pub All-Mem {ℓ} : {A : Type ℓ} (xs : List A) → All (λ x. Mem x xs) xs
All-Mem [] = tt
All-Mem (x ∷ xs) = (mem-cons_self, All-map (λ y m. mem-cons_of_mem x m) xs (All-Mem xs))

-- What a filter keeps passes the test, and had the property before.
pub filter-All {ℓ κ} :
    {A : Type ℓ} (p : A → Bool) (P : A → Type κ) (xs : List A)
    → All P xs
    → All (λ x. P x × (p x ≡ true)) (filter p xs)
filter-All p P [] h = tt
filter-All p P (x ∷ xs) (q, h) = elim (Bool-cases (p x)) [
  | inl hit ↦ rw hit ((q, hit), filter-All p P xs h)
  | inr miss ↦ rw miss (filter-All p P xs h)
]
