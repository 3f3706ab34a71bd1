-- ===== src/Faucet/Tests.antt =====
-- Runs of the faucet.
use stake_basket.Prelude.{◌≡◌, ◌≢◌, refl, arith, true, some, String, List, [], ◌∷◌}
use stake_basket.Validation.{FaucetRequest, basket, is_faucet_request, sanitize_address, lower_case}
use stake_basket.Faucet.{Faucet, granted, request, request_all, sending, sending_all}
use stake_basket.Faucet.Cooldown.{Event, asked, asked_all, run_from, faucet_cooldown_holds}

abbrev fresh : Faucet
fresh = record { cooldowns = []; limits = [] }

abbrev mixed : String
mixed = "0xAbCdEf0123456789AbCdEf0123456789AbCdEf01"

abbrev lowered : String
lowered = "0xabcdef0123456789abcdef0123456789abcdef01"

abbrev wish : FaucetRequest
wish = record { address = mixed; token = some "BASKET"; amount = some "12.5" }

wish_is_fine : is_faucet_request wish ≡ true
unfolding is_faucet_request
wish_is_fine = refl

-- Two minutes after the first grant, with another request in between.
faucet_cooldown_holds_example :
    ((request "client" wish 130000 130001
        (run_from (granted lowered 10000 fresh) (asked "other" wish 20000 20001 ∷ []))).1
      ≢ sending basket lowered)
    × (request_all mixed 130001
          (run_from (granted lowered 10000 fresh) (asked "other" wish 20000 20001 ∷ []))
        ≢ sending_all lowered)
unfolding sanitize_address lower_case
faucet_cooldown_holds_example =
    faucet_cooldown_holds lowered 10000 fresh (asked "other" wish 20000 20001 ∷ []) (omega arith)
      (omega arith, tt) 130001 (omega arith) "client" wish 130000 basket mixed lowered refl refl

-- Three requests for one address, none of which has ended, and one more.
abbrev overlapping : List Event
overlapping = asked "a" wish 1000 1001 ∷ asked "b" wish 1000 1001 ∷ asked_all mixed 1001 ∷ []
