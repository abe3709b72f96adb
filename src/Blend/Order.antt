-- ===== src/Blend/Order.antt =====
-- blend/state.go: the orders in which positions are listed.
use lidapters.Common.{Bool}
use lidapters.Common.Lex.{lex, by_text}
use lidapters.Blend.Types.{UserReservePosition, PendingUserPosition}

abbrev pub less_position : UserReservePosition → UserReservePosition → Bool
less_position = lex (λ u. u.asset_id) (by_text (λ u. u.position_type))

abbrev pub less_user : UserReservePosition → UserReservePosition → Bool
less_user = lex (λ u. u.address) (lex (λ u. u.pool_contract_id) less_position)

abbrev pub less_pending : PendingUserPosition → PendingUserPosition → Bool
less_pending = lex (λ p. p.address) (by_text (λ p. p.pool_contract_id))
