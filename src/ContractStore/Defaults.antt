-- ===== src/ContractStore/Defaults.antt =====
-- The contract addresses of each network: `CONTRACT_ADDRESSES` and `getNetworkByChainId` of
-- src/config/contracts.ts.
use stake_basket.Prelude.{ℕ, String, [], ◌∷◌, map, Dict, ◌==◌, if◌then◌else◌}

abbrev pub hardhat_addresses : Dict String
hardhat_addresses =
    ("MockCORE", "0xd3b893cd083f07Fe371c1a87393576e7B01C52C6")
    ∷ ("MockCoreBTC", "0x3BFbbf82657577668144921b96aAb72BC170646C")
    ∷ ("TestBTC", "0x3BFbbf82657577668144921b96aAb72BC170646C")
    ∷ ("MockCoreStaking", "0x9fE46736679d2D9a65F0992F2272dE9f3c7fa6e0")
    ∷ ("MockLstBTC", "0xCf7Ed3AccA5a467e9e704C703E8D87F634fB0Fc9")
    ∷ ("PriceFeed", "0x930b218f3e63eE452c13561057a8d5E61367d5b7")
    ∷ ("StakingManager", "0x547382C0D1b23f707918D3c83A77317B71Aa8470")
    ∷ ("StakeBasketToken", "0x9CC8B5379C40E24F374cd55973c138fff83ed214")
    ∷ ("StakeBasket", "0xa8d297D643a11cE83b432e87eEBce6bee0fd2bAb")
    ∷ ("BasketStaking", "0xa8d297D643a11cE83b432e87eEBce6bee0fd2bAb")
    ∷ ("CoreOracle", "0x930b218f3e63eE452c13561057a8d5E61367d5b7")
    ∷ ("BasketGovernance", "0xe70f935c32dA4dB13e7876795f1e175465e6458e")
    ∷ ("BasketToken", "0x9CC8B5379C40E24F374cd55973c138fff83ed214")
    ∷ ("CoreDAOGovernanceProxy", "0x3904b8f5b0F49cD206b7d5AABeE5D1F37eE15D8d")
    ∷ ("CoreLiquidStakingManager", "0x0000000000000000000000000000000000000000")
    ∷ ("StCoreToken", "0x0000000000000000000000000000000000000000")
    ∷ ("MockDualStaking", "0xb4e9A5BC64DC07f890367F72941403EEd7faDCbB")
    ∷ ("DualStakingBasket", "0x6Da3D07a6BF01F02fB41c02984a49B5d9Aa6ea92")
    ∷ ("SatoshiTierBasket", "0x6Da3D07a6BF01F02fB41c02984a49B5d9Aa6ea92")
    ∷ ("UnbondingQueue", "0x0000000000000000000000000000000000000000")
    ∷ ("SparksManager", "0x0000000000000000000000000000000000000000")
    ∷ ("StakeBasketWithSparks", "0x0000000000000000000000000000000000000000")
    ∷ []

abbrev pub testnet_addresses : Dict String
testnet_addresses =
    ("PriceFeed", "0xd3fC275555C46Ffa4a6F9d15380D4edA9D9fb06b")
    ∷ ("StakingManager", "0x3185E363446163581Fcc1ed3D85029b1C7A7520A")
    ∷ ("StakeBasketToken", "0xf98167f5f4BFC87eD67D8eAe3590B00630f864b6")
    ∷ ("StakeBasket", "0x958C634b197fE5F09ba3012D45B4281F0C278821")
    ∷ ("BasketStaking", "0x958C634b197fE5F09ba3012D45B4281F0C278821")
    ∷ ("MockCORE", "0xa41575D35563288d6C59d8a02603dF9E2e171eeE")
    ∷ ("MockCoreBTC", "0x01b93AC7b5Ee7e473F90aE66979a9402EbcaCcF7")
    ∷ ("MockCoreStaking", "0xd7c4D6f6f0aFCABaAa3B2c514Fb1C2f62cf8326A")
    ∷ ("MockLstBTC", "0xE03484f1682fa55c2AB9bbCF8e451b857EcE6DA8")
    ∷ ("CoreOracle", "0xd3fC275555C46Ffa4a6F9d15380D4edA9D9fb06b")
    ∷ ("BasketGovernance", "0x43e9E9f5DA3dF1e0E0659be7E321e9397E41aa8e")
    ∷ ("BasketToken", "0xBF609d32481229F68313073738836Fe39BFc2b9f")
    ∷ ("CoreDAOGovernanceProxy", "0x0000000000000000000000000000000000000000")
    ∷ ("CoreLiquidStakingManager", "0x0925Df2ae2eC60f0abFF0e7E4dCA6f4B16351c0E")
    ∷ ("StCoreToken", "0x19640421A039E2312c2C0941D8b112e02876C5")
    ∷ ("MockDualStaking", "0xd7c4D6f6f0aFCABaAa3B2c514Fb1C2f62cf8326A")
    ∷ ("DualStakingBasket", "0x0DD17d450968DafF1Cf9E2e8945E934B77CA4a4a")
    ∷ ("SatoshiTierBasket", "0x0DD17d450968DafF1Cf9E2e8945E934B77CA4a4a")
    ∷ ("TestBTC", "0x01b93AC7b5Ee7e473F90aE66979a9402EbcaCcF7")
    ∷ ("SimpleBTCFaucet", "0x01b93AC7b5Ee7e473F90aE66979a9402EbcaCcF7")
    ∷ ("UnbondingQueue", "0x0A4a6dB1718A515EA613873271b505BA5b1aB256")
    ∷ ("SparksManager", "0x0000000000000000000000000000000000000000")
    ∷ ("StakeBasketWithSparks", "0x0000000000000000000000000000000000000000")
    ∷ []

abbrev pub mainnet_addresses : Dict String
mainnet_addresses =
    map (λ name. (name, ""))
      ("PriceFeed" ∷ "StakingManager" ∷ "StakeBasketToken" ∷ "StakeBasket" ∷ "BasketStaking"
        ∷ "MockCORE" ∷ "MockCoreBTC" ∷ "MockCoreStaking" ∷ "MockLstBTC" ∷ "CoreOracle"
        ∷ "BasketGovernance" ∷ "BasketToken" ∷ "CoreDAOGovernanceProxy" ∷ "CoreLiquidStakingManager"
        ∷ "StCoreToken" ∷ "MockDualStaking" ∷ "DualStakingBasket" ∷ "SatoshiTierBasket"
        ∷ "UnbondingQueue" ∷ "SparksManager" ∷ "StakeBasketWithSparks" ∷ [])

-- `getNetworkByChainId(chainId).contracts`
unfoldable pub contracts_of : ℕ → Dict String
contracts_of chain_id =
    if chain_id == 31337
    then hardhat_addresses
    else if chain_id == 1114
    then testnet_addresses
    else if chain_id == 1116
    then mainnet_addresses
    else hardhat_addresses
