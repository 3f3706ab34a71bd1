-- ===== src/Networks/Tests.antt =====
-- Chains, and what a wallet answers.
use stake_basket.Prelude.{◌≡◌, refl, true, ◌∷◌, []}
use stake_basket.Networks.{
  switch_to_network, add_network_to_wallet, not_recognized, done, switch_chain, add_chain,
}

adds_and_switches :
    switch_to_network true 1116 not_recognized done
    ≡ (switch_chain 1116 ∷ add_chain 1116 ∷ [], true)
unfolding switch_to_network add_network_to_wallet
adds_and_switches = refl
