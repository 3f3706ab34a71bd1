-- ===== src/Monitoring/Tests.antt =====
-- Runs of the contract monitor on concrete readings.
use stake_basket.Prelude.{true}
use stake_basket.Monitoring.{BasketReadings}

abbrev halted : BasketReadings
halted = record {
  total_aum = 5000000000000000000;
  nav_per_share = 1000000000000000000;
  total_supply = 5000000000000000000;
  is_paused = true;
}
