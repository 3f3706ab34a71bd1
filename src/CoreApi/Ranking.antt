-- ===== src/CoreApi/Ranking.antt =====
-- The order of validators by what they hold.
use mathlib.Core.List.{Perm, Mem}
use stake_basket.Prelude.{
  filter-All, All-Mem, sort_down-All, ℕ, zero, suc, ◌<◌, ◌≤◌, min, Bool, true, Option, none, some,
  List, [], ◌∷◌, ◌++◌, ◌≡◌, refl, ap, All, All-take, take, drop, length, length-take, count,
  sort_down, put_down, sort_down-perm, sort_down-IsDescending, IsDescending, ltb, leb, str_eq,
  arith, Bool-cases, inl, inr,
}
use stake_basket.CoreApi.{
  shifted, CoreValidator, is_active, active_validators, deposit_of, get_top_validators_by_deposit,
  find_index, place, calculate_validator_rank,
}

module _ {A : Type 0} (key : A → ℕ) where
  take-drop : (n : ℕ) (xs : List A) → (take n xs ++ drop n xs) ≡ xs
  take-drop zero xs = refl
  take-drop (suc n) [] = refl
  take-drop (suc n) (x ∷ xs) = ap (λ ys. x ∷ ys) (take-drop n xs)

  all_take : (P : A → Type 0) (n : ℕ) (xs : List A) → All P xs → All P (drop n xs)
  all_take P zero xs h = h
  all_take P (suc n) [] h = h
  all_take P (suc n) (x ∷ xs) h = all_take P n xs h.1

  -- What is left out of the beginning of a descending list is not larger.
  descending_cut :
      (n : ℕ) (xs : List A)
      → IsDescending key xs
      → All (λ x. All (λ y. key y ≤ key x) (drop n xs)) (take n xs)
  descending_cut zero xs h = tt
  descending_cut (suc n) [] h = tt
  descending_cut (suc n) (x ∷ xs) h =
      (all_take (λ y. key y ≤ key x) n xs h.0, descending_cut n xs h.1)

  take-IsDescending : (n : ℕ) (xs : List A) → IsDescending key xs → IsDescending key (take n xs)
  take-IsDescending zero xs h = tt
  take-IsDescending (suc n) [] h = tt
  take-IsDescending (suc n) (x ∷ xs) h =
      (All-take (λ y. key y ≤ key x) n xs h.0, take-IsDescending n xs h.1)

  length-put_down : (x : A) (ys : List A) → length (put_down key x ys) ≡ suc (length ys)
  unfolding put_down
  length-put_down x [] = refl
  length-put_down x (y ∷ ys) = ground (arith, length-put_down x ys)

  length-sort_down : (xs : List A) → length (sort_down key xs) ≡ length xs
  unfolding sort_down
  length-sort_down [] = refl
  length-sort_down (x ∷ xs) =
      omega (arith, length-put_down x (sort_down key xs), length-sort_down xs)

  count-put_down :
      (p : A → Bool) (x : A) (ys : List A) → count p (put_down key x ys) ≡ count p (x ∷ ys)
  unfolding put_down
  count-put_down p x [] = refl
  count-put_down p x (y ∷ ys) = ground (arith, count-put_down p x ys)

  count-sort_down : (p : A → Bool) (xs : List A) → count p (sort_down key xs) ≡ count p xs
  unfolding sort_down
  count-sort_down p [] = refl
  count-sort_down p (x ∷ xs) =
      ground (arith, count-sort_down p xs, count-put_down p x (sort_down key xs))

-- The validators that are named hold the most of the active ones, the largest first: with the others,
-- none of which holds more than any of them, they are all the active validators, and there are as many
-- as were asked for, if there are so many.
pub get_top_validators_by_deposit_lead :
    (limit : ℕ) (validators : List CoreValidator)
    → let top = get_top_validators_by_deposit limit validators in
      (others : List CoreValidator) × Perm (top ++ others) (active_validators validators)
      × IsDescending deposit_of top
      × All (λ v. All (λ w. deposit_of w ≤ deposit_of v) others) top
      × (length top ≡ min limit (count is_active validators))
unfolding get_top_validators_by_deposit
get_top_validators_by_deposit_lead limit validators =
    let active = active_validators validators in
    let sorted = sort_down deposit_of active in
    let order = sort_down-IsDescending deposit_of active in
    let same : length sorted ≡ length active = length-sort_down deposit_of active in
    (
      drop limit sorted,
      rw (take-drop deposit_of limit sorted) (sort_down-perm deposit_of active),
      take-IsDescending deposit_of limit sorted order,
      descending_cut deposit_of limit sorted order,
      rw (length-take limit sorted, same) refl,
    )

-- Where an index was found: an element that passes the test, which has what all elements have, and of
-- which as many are larger as stand before it at most.
abbrev pub FoundAt : (CoreValidator → Bool) → List CoreValidator → ℕ → Type 1
FoundAt p xs i =
    (w : CoreValidator) × (p w ≡ true)
    × (count (λ u. ltb (deposit_of w) (deposit_of u)) xs ≤ i)
    × (i < count (λ u. leb (deposit_of w) (deposit_of u)) xs)
    × ((P : CoreValidator → Type 0) → All P xs → P w)

none_larger :
    (n : ℕ) (xs : List CoreValidator)
    → All (λ y. deposit_of y ≤ n) xs
    → count (λ u. ltb n (deposit_of u)) xs ≡ 0
none_larger n [] h = refl
none_larger n (x ∷ xs) h = ground (arith, h.0, none_larger n xs h.1)

shifted-some : (o : Option ℕ) (i : ℕ) → shifted o ≡ some i → (j : ℕ) × (o ≡ some j) × (i ≡ suc j)
shifted-some none i h = cc
shifted-some (some j) i h = (j, refl, cc)

-- The first element passes the test.
first-FoundAt :
    (p : CoreValidator → Bool) (x : CoreValidator) (xs : List CoreValidator)
    → IsDescending deposit_of (x ∷ xs)
    → p x ≡ true
    → FoundAt p (x ∷ xs) 0
first-FoundAt p x xs h hit =
    (x, hit, ground (arith, none_larger (deposit_of x) xs h.0), ground arith, λ P a. a.0)

next-FoundAt :
    (p : CoreValidator → Bool) (x : CoreValidator) (xs : List CoreValidator) (j : ℕ)
    → IsDescending deposit_of (x ∷ xs)
    → FoundAt p xs j
    → FoundAt p (x ∷ xs) (suc j)
next-FoundAt p x xs j h found =
    let below : deposit_of found.0 ≤ deposit_of x =
      found.4 (λ y. deposit_of y ≤ deposit_of x) h.0 in
    (
      found.0,
      found.1,
      ground (arith, found.2),
      ground (arith, found.3, below),
      λ P a. found.4 P a.1,
    )

placed : (o : Option ℕ) (i : ℕ) → place o ≡ suc i → o ≡ some i
placed none i h = ground arith
placed (some j) i h = ap some (omega arith)

find_index-FoundAt :
    (p : CoreValidator → Bool) (xs : List CoreValidator) (i : ℕ)
    → IsDescending deposit_of xs
    → find_index p xs ≡ some i
    → FoundAt p xs i
unfolding find_index
find_index-FoundAt p [] i h e = cc
find_index-FoundAt p (x ∷ xs) i h e = elim (Bool-cases (p x)) [
  | inl hit ↦
      let here : some 0 ≡ some i = rw hit at e in
      let first : 0 ≡ i = cc in rw (← first) (first-FoundAt p x xs h hit)
  | inr miss ↦
      let later = shifted-some (find_index p xs) i (rw miss at e) in
      rw later.2 (next-FoundAt p x xs later.0 h (find_index-FoundAt p xs later.0 h.1 later.1))
]

-- A rank counts from 1 and is the place by what is held: it is that of a validator of the list that is
-- active and has the address, fewer active ones than the rank hold more than it, and as many as the rank,
-- or more, hold as much.
pub calculate_validator_rank_counts :
    (v : CoreValidator) (validators : List CoreValidator) (i : ℕ)
    → calculate_validator_rank v validators ≡ suc i
    → let active = active_validators validators in
      (w : CoreValidator) × (Mem w validators × (is_active w ≡ true))
      × (str_eq w.operator_address v.operator_address ≡ true)
      × (count (λ u. ltb (deposit_of w) (deposit_of u)) active < suc i)
      × (suc i ≤ count (λ u. leb (deposit_of w) (deposit_of u)) active)
unfolding calculate_validator_rank
calculate_validator_rank_counts v validators i h =
    let active = active_validators validators in
    let found =
      find_index-FoundAt (λ w. str_eq w.operator_address v.operator_address)
        (sort_down deposit_of active) i (sort_down-IsDescending deposit_of active) (placed _ i h) in
    (
      found.0,
      found.4 _ (
          sort_down-All deposit_of _ active
            (filter-All is_active _ validators (All-Mem validators))),
      found.1,
      omega (
        arith,
        found.2,
        count-sort_down deposit_of (λ u. ltb (deposit_of found.0) (deposit_of u)) active,
      ),
      omega (
        arith,
        found.3,
        count-sort_down deposit_of (λ u. leb (deposit_of found.0) (deposit_of u)) active,
      ),
    )
