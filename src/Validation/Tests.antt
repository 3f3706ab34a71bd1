-- ===== src/Validation/Tests.antt =====
-- Texts that the schemas accept and refuse.
use stake_basket.Prelude.{◌≡◌, refl, true, false, String}
use stake_basket.Validation.{is_address, is_amount, sanitize_input, sanitize_address, lower_case}
use stake_basket.Validation.Addresses.{sanitize_address-keeps}

abbrev mixed : String
mixed = "0xAbCdEf0123456789AbCdEf0123456789AbCdEf01"

mixed_address_passes : is_address mixed ≡ true
unfolding is_address
mixed_address_passes = refl

mixed_is_kept :
    (is_address (sanitize_address mixed) ≡ true) × (sanitize_address mixed ≡ lower_case mixed)
mixed_is_kept = sanitize_address-keeps mixed mixed_address_passes

trims : sanitize_address " 0xAB " ≡ "0xab"
unfolding sanitize_address
trims = refl

markup_goes : sanitize_input "<b>it's</b>" ≡ "bits/b"
unfolding sanitize_input
markup_goes = refl

amounts : (is_amount "12.5" ≡ true) × (is_amount "12." ≡ false) × (is_amount "" ≡ false)
unfolding is_amount
amounts = (refl, refl, refl)
