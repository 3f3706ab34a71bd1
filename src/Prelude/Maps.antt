-- ===== src/Prelude/Maps.antt =====
-- Texts, and a JavaScript `Map` keyed by text, in insertion order: `get` is `lookup`, `set` is `insert`.
use Prim.Native.String.{String}
use mathlib.Core.Path.{◌≡◌, refl}
use mathlib.Core.Bool.{Bool, true, false}
use mathlib.Core.Logic.{◌≢◌}
use mathlib.Core.List.{List, [], ◌∷◌}
use mathlib.Core.Option.{Option, none, some}
use native.Mathlib.Omega.{arith}
use text.Mathlib.Text.{◌==◌, find?}
use text.Mathlib.TextEquality.{eq_iff}
use stake_basket.Prelude.Tests.{if◌then◌else◌}

-- `text.includes(part)`
abbrev pub includes : String → String → Bool
includes text part = elim (find? text part) [ none ↦ false | some at_index ↦ true ]

abbrev pub Dict {ℓ} : Type ℓ → Type ℓ
Dict V = List (String × V)

module _ {ℓ} {V : Type ℓ} where
  unfoldable pub insert : String → V → Dict V → Dict V
  insert key value [] = (key, value) ∷ []
  insert key value (entry ∷ entries) =
      if entry.0 == key then (key, value) ∷ entries else entry ∷ insert key value entries

  unfoldable pub lookup : String → Dict V → Option V
  lookup key [] = none
  lookup key (entry ∷ entries) = if entry.0 == key then some entry.1 else lookup key entries

  pub lookup-insert :
      (set asked : String) (value : V) (entries : Dict V)
      → lookup asked (insert set value entries)
        ≡ (if set == asked then some value else lookup asked entries)
  unfolding insert lookup
  lookup-insert set asked value [] = refl
  lookup-insert set asked value (entry ∷ entries) = ground (
    lookup-insert set asked value entries,
    eq_iff entry.0 asked,
    eq_iff entry.0 set,
    eq_iff set asked,
    arith,
  )

pub ne_of_str_eq : (a b : String) → (a == b) ≡ false → a ≢ b
ne_of_str_eq a b differ same = ground ((eq_iff a b).1 same, arith)
