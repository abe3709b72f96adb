-- ===== src/Aquarius/Math.antt =====
-- aquarius/math.go: sqrt prices of ticks, LP shares, range principals and pending rewards. Amounts
-- are decimal strings; every error is `none`, its text is not modelled.
pub mod Tick
pub mod Ticks
pub mod Principal
pub mod Rewards
use lidapters.Common.{
  ℕ, ◌+◌, ◌-◌, ◌*◌, ◌/◌, ◌^◌, Bool, true, false, ◌||◌, Option, none, some, ltb, leb, ◌==◌,
  if◌then◌else◌, ◌>>=◌,
}
use lidapters.Common.Int.{ℤ, pos, negsuc, ◌-ℤ◌, ltb_ℤ, pos_part}
use lidapters.Common.Str.{Str, lit, is_empty, eq_str}
use lidapters.Common.Decimal.{dec, set_string}
use lidapters.Bindings.State.{AmmPoolState, AmmPositionState}

unsigned : ℤ → Option ℕ
unsigned (pos n) = some n
unsigned (negsuc n) = none

unfoldable pub parse_uint : Str → Option ℕ
unfolding unsigned
parse_uint s = do n ← set_string s; unsigned n

unfoldable pub mul_div_floor : ℕ → ℕ → ℕ → ℕ
mul_div_floor a b d = a * b / d

unfoldable pub pro_rata : Str → Str → Str → Option Str
pro_rata shares reserve total = do
  s ← parse_uint shares
  r ← parse_uint reserve
  t ← parse_uint total
  if t == 0 then none else some (dec (mul_div_floor s r t))

abbrev pub q96 : ℕ
q96 = 2 ^ 96

-- The amounts of a liquidity between two sqrt prices x ≤ y.
unfoldable pub amount0 : ℕ → ℕ → ℕ → ℕ
amount0 l x y = l * 2 ^ 96 * (y - x) / y / x

unfoldable pub amount1 : ℕ → ℕ → ℕ → ℕ
amount1 l x y = mul_div_floor l (y - x) q96

-- The split on where the price stands, once the inputs are numbers.
unfoldable pub principal_amounts : ℕ → ℕ → ℕ → ℕ → Option (ℕ × ℕ)
principal_amounts l p a b =
    if a == 0 || leb b a
    then none
    else if leb p a
    then some (amount0 l a b, 0)
    else if ltb p b
    then some (amount0 l p b, amount1 l a p)
    else some (0, amount1 l a b)

unfoldable pub range_principal : Str → Str → Str → Str → Option (Str × Str)
range_principal liquidity p pa pb = do
  l ← parse_uint liquidity
  price ← parse_uint p
  a ← parse_uint pa
  b ← parse_uint pb
  amounts ← principal_amounts l price a b
  some (dec amounts.0, dec amounts.1)

-- The accrual time: the close time, or the expiry if that is given, readable and earlier.
unfoldable pub accrual_time : Str → ℤ → ℤ
accrual_time expired_raw close_time =
    if is_empty expired_raw then close_time else elim (parse_uint expired_raw) [
      | none ↦ close_time
      | some exp ↦ if ltb_ℤ (pos exp) close_time then pos exp else close_time
    ]

-- The pool's accumulated reward at a time: the stored one and `tps` for each second since then.
unfoldable pub accumulated_at : ℕ → ℕ → ℕ → ℤ → ℕ
accumulated_at stored tps last_time now = stored + tps * pos_part (now -ℤ pos last_time)

-- The claim with what has accrued since the user's checkpoint, which is not negative.
unfoldable pub accrued_claim : ℕ → ℕ → ℕ → ℕ → ℕ → ℕ
accrued_claim claim wb acc acc_user ws =
    if leb acc acc_user then claim else claim + mul_div_floor wb (acc - acc_user) ws

-- The reward once the inputs that must be given are: `none` where one is unreadable, or where the
-- source returns the checkpointed claim for another reason.
unfoldable pub accrue : AmmPoolState → AmmPositionState → Str → Str → ℤ → Option Str
accrue pool position wb_raw to_claim close_time = do
  wb ← parse_uint wb_raw
  tps ← parse_uint pool.reward_tps_raw
  stored ← parse_uint pool.reward_accumulated_raw
  acc_user ← parse_uint position.reward_pool_accumulated_raw
  ws ← parse_uint pool.working_supply_raw
  last_time ← parse_uint pool.reward_last_time_raw
  let now = accrual_time pool.reward_expired_at_raw close_time
  let acc = accumulated_at stored tps last_time now
  if ws == 0 || leb acc acc_user
      then none
      else (parse_uint to_claim >>= λ claim. some (dec (accrued_claim claim wb acc acc_user ws)))

-- "0" for a claim that is not given.
unfoldable pub claim_or_zero : Str → Str
claim_or_zero raw = if is_empty raw then lit "0" else raw

unfoldable pub reward_weight : AmmPositionState → Str
reward_weight position =
    if is_empty position.working_balance_raw
    then position.shares_raw
    else position.working_balance_raw

-- Whether an input without which nothing accrues is missing or zero.
unfoldable pub lacks_input : AmmPoolState → AmmPositionState → Bool
lacks_input pool position =
    is_empty (reward_weight position)
    || eq_str (reward_weight position) (lit "0")
    || is_empty position.reward_pool_accumulated_raw
    || is_empty pool.reward_tps_raw
    || is_empty pool.reward_accumulated_raw
    || is_empty pool.reward_last_time_raw
    || is_empty pool.working_supply_raw
    || eq_str pool.working_supply_raw (lit "0")

unfoldable pub pending_reward : AmmPoolState → AmmPositionState → ℤ → Str
pending_reward pool position close_time =
    let to_claim = claim_or_zero position.pending_reward_raw in
    if lacks_input pool position
    then to_claim
    else elim (accrue pool position (reward_weight position) to_claim close_time) [
      | none ↦ to_claim
      | some total ↦ total
    ]
