-- ===== src/Tests/Prices.antt =====
-- The theorems on Aquarius's arithmetic, applied to a range, some ticks and a checkpoint.
use lidapters.Common.{ℕ, ◌+◌, ◌-◌, ◌*◌, ◌/◌, ◌^◌, ◌≤◌, ◌<◌, ◌≡◌, refl, some, arith}
use lidapters.Common.Int.{pos, negsuc, ◌≤ℤ◌}
use lidapters.Common.Str.{lit}
use lidapters.Common.Decimal.{dec}
use lidapters.Bindings.State.{AmmPoolState, AmmPositionState, zero_pool, zero_position}
use lidapters.Aquarius.Math.{range_principal, pending_reward}
use lidapters.Aquarius.Math.Tick.{inverse_ratio, tick_ratio, tick_sqrt_price_x96}
use lidapters.Aquarius.Math.Ticks.{tick_sqrt_price_bounds}
use lidapters.Aquarius.Math.Principal.{range_principal-eq}
use lidapters.Aquarius.Math.Rewards.{Checkpoint, Holds, pending_reward_accrues}

-- A liquidity of 1000 from a half to twice the price 1.
abbrev half : ℕ
half = 2 ^ 95

abbrev one : ℕ
one = 2 ^ 96

abbrev two : ℕ
two = 2 ^ 97

range_principal-eq_example :
    range_principal (dec 1000) (dec one) (dec half) (dec two)
    ≡ some (dec (1000 * 2 ^ 96 * (two - one) / (two * one)), dec (1000 * (one - half) / 2 ^ 96))
range_principal-eq_example = range_principal-eq 1000 one half two (omega arith) (omega arith)

tick_sqrt_price_bounds_example :
    (0 < inverse_ratio 17652)
    × ((price : ℕ) × (tick_sqrt_price_x96 (negsuc 17651) ≡ some (dec price))
        × (0 < price)
        × (price < 2 ^ 173)
        × (tick_ratio (negsuc 17651) ≤ price * 2 ^ 32)
        × (price * 2 ^ 32 < tick_ratio (negsuc 17651) + 2 ^ 32)
        × (negsuc 17651 ≤ℤ pos 0 → price ≤ 2 ^ 96)
        × (pos 0 ≤ℤ negsuc 17651 → 2 ^ 96 ≤ price))
tick_sqrt_price_bounds_example = tick_sqrt_price_bounds (negsuc 17651) (omega arith)

abbrev checkpoint : Checkpoint
checkpoint = record {
  claim = 205;
  weight = 20;
  acc_user = 50;
  tps = 3;
  stored = 110;
  last_time = 1000;
  expiry = 2000;
  supply = 30;
}

abbrev pool : AmmPoolState
pool = record zero_pool {
  reward_tps_raw = lit "3";
  reward_accumulated_raw = lit "110";
  reward_last_time_raw = lit "1000";
  reward_expired_at_raw = lit "2000";
  working_supply_raw = lit "30";
}

abbrev position : AmmPositionState
position = record zero_position {
  pending_reward_raw = lit "205";
  working_balance_raw = lit "20";
  reward_pool_accumulated_raw = lit "50";
}

checkpoint-Holds : Holds pool position checkpoint
unfolding dec
checkpoint-Holds = record {
  claim = refl;
  weight = refl;
  acc_user = refl;
  tps = refl;
  stored = refl;
  last_time = refl;
  expiry = refl;
  supply = refl;
  nonzero = omega arith;
}

pending_reward_accrues_example :
    (pending_reward pool position (pos 1010) ≡ dec 265)
    × (pending_reward pool position (pos 1500) ≡ dec 1245)
    × (205 ≤ 265)
    × (265 ≤ 1245)
pending_reward_accrues_example =
    pending_reward_accrues pool position checkpoint checkpoint-Holds (pos 1010) (pos 1500)
      (omega arith)
