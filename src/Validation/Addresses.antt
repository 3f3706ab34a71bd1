-- ===== src/Validation/Addresses.antt =====
-- Cleaning an address that passed the schema.
use Prim.Native.Char.{Char, code}
use text.Mathlib.TextEquality.{Char-path}
use stake_basket.Prelude.{
  ℕ, suc, ◌≡◌, refl, ap, ◌∙◌, Bool, true, false, String, ◌&&◌, ◌==◌, arith, Bool-cases, inl, inr,
}
use stake_basket.Validation.{
  is_hex, text_length, all_hex, is_address, is_space, trim_end, unless_blank, lower_char,
  lower_case, sanitize_address,
}

pub both : (a b : Bool) → (a && b) ≡ true → (a ≡ true) × (b ≡ true)
both true b h = (refl, h)
both false b h = cc

lower_char-hex : (c : Char) → is_hex (code c) ≡ true → is_hex (code (lower_char c)) ≡ true
lower_char-hex c h = elim (Bool-cases (code c == b'A')) [
  | inl hit ↦ rw (hit) refl
  | inr m0 ↦ elim (Bool-cases (code c == b'B')) [
    | inl hit ↦ rw (m0, hit) refl
    | inr m1 ↦ elim (Bool-cases (code c == b'C')) [
      | inl hit ↦ rw (m0, m1, hit) refl
      | inr m2 ↦ elim (Bool-cases (code c == b'D')) [
        | inl hit ↦ rw (m0, m1, m2, hit) refl
        | inr m3 ↦ elim (Bool-cases (code c == b'E')) [
          | inl hit ↦ rw (m0, m1, m2, m3, hit) refl
          | inr m4 ↦ elim (Bool-cases (code c == b'F')) [
            | inl hit ↦ rw (m0, m1, m2, m3, m4, hit) refl
            | inr m5 ↦ rw (m0, m1, m2, m3, m4, m5) h
          ]
        ]
      ]
    ]
  ]
]

hex-not-space : (c : ℕ) → is_hex c ≡ true → is_space c ≡ false
hex-not-space c h = ground arith

unless_blank-eq :
    (c : Char) (s : String) → is_space (code c) ≡ false → unless_blank c s ≡ String.◌∷◌ c s
unless_blank-eq c String.[] h = rw h refl
unless_blank-eq c (String.◌∷◌ d s) h = refl

trim_end-hex : (s : String) → all_hex s ≡ true → trim_end s ≡ s
unfolding trim_end
trim_end-hex String.[] h = refl
trim_end-hex (String.◌∷◌ c s) h =
    let (hex, others) = both _ _ h in
    ap (unless_blank c) (trim_end-hex s others) ∙ unless_blank-eq c s (hex-not-space (code c) hex)

lower_case-hex :
    (s : String)
    → all_hex s ≡ true
    → (all_hex (lower_case s) ≡ true) × (text_length (lower_case s) ≡ text_length s)
unfolding lower_case
lower_case-hex String.[] h = (refl, refl)
lower_case-hex (String.◌∷◌ c s) h =
    let (hex, others) = both _ _ h in
    let ih = lower_case-hex s others in (rw (lower_char-hex c hex) ih.0, ap suc ih.1)

-- An address that the schema accepts is still an address once it is cleaned, so the second check of a
-- route never refuses it, and cleaning it is only lowering its letters.
pub sanitize_address-keeps :
    (s : String)
    → is_address s ≡ true
    → (is_address (sanitize_address s) ≡ true) × (sanitize_address s ≡ lower_case s)
unfolding is_address sanitize_address
sanitize_address-keeps String.[] h = cc
sanitize_address-keeps (String.◌∷◌ c String.[]) h = cc
sanitize_address-keeps (String.◌∷◌ c (String.◌∷◌ d s)) h =
    let (front, hex) =
      both (code c == b'0' && code d == b'x' && text_length s == 40) (all_hex s) h in
    let (head, long) = both (code c == b'0' && code d == b'x') (text_length s == 40) front in
    let (zero_first, x_second) = both (code c == b'0') (code d == b'x') head in
    let c0 : c ≡ "0" = Char-path c "0" (ground (arith, zero_first)) in
    let dx : d ≡ "x" = Char-path d "x" (ground (arith, x_second)) in
    let low = lower_case-hex s hex in
    let clean : sanitize_address (String.◌∷◌ "0" (String.◌∷◌ "x" s))
        ≡ String.◌∷◌ "0" (String.◌∷◌ "x" (lower_case s)) =
      ap (λ t. unless_blank "0" (unless_blank "x" t)) (trim_end-hex (lower_case s) low.0)
      ∙ ap (unless_blank "0") (unless_blank-eq "x" (lower_case s) refl) in
    rw (c0, dx) (rw clean (rw (low.1, low.0) (ground (arith, long)), refl))
