-- ===== src/Aquarius/Math/Rewards.antt =====
-- aquarius/math.go: `pendingReward` on checkpoints that are all given.
use native.Mathlib.Nat.{zero-div}
use lidapters.Common.{
  ℕ, ◌+◌, ◌-◌, ◌*◌, ◌/◌, ◌≤◌, ◌<◌, ◌≡◌, refl, none, some, arith, leb, if◌then◌else◌, Bool-cases,
  inl, inr, sym, ap, ◌∙◌,
}
use lidapters.Common.Int.{ℤ, pos, ◌-ℤ◌, ◌≤ℤ◌, pos_part, ltb_ℤ}
use lidapters.Common.Str.{lit, eq_str, eq_str_iff}
use lidapters.Common.Decimal.{dec, dec_not_empty, dec_not_zero, dec_zero, dec-injective}
use lidapters.Bindings.State.{AmmPoolState, AmmPositionState}
use lidapters.Aquarius.Math.{
  mul_div_floor, accrual_time, accumulated_at, accrued_claim, accrue, claim_or_zero, reward_weight,
  lacks_input, pending_reward,
}
use lidapters.Aquarius.Math.Principal.{parse_uint-dec, mul_mono, div_mono}

-- The checkpoints of a pool and a position, as numbers: the claim, the reward weight and the user's
-- copy of the accumulated total; the rate, the stored total and its time, the expiry, the supply.
pub record Checkpoint : Type 0 where
  pub claim : ℕ
  pub weight : ℕ
  pub acc_user : ℕ
  pub tps : ℕ
  pub stored : ℕ
  pub last_time : ℕ
  pub expiry : ℕ
  pub supply : ℕ

-- The states hold the checkpoint as decimal text, and the supply is not zero.
pub record Holds (pool : AmmPoolState) (position : AmmPositionState) (c : Checkpoint) : Type 0 where
  pub claim : position.pending_reward_raw ≡ dec c.claim
  pub weight : position.working_balance_raw ≡ dec c.weight
  pub acc_user : position.reward_pool_accumulated_raw ≡ dec c.acc_user
  pub tps : pool.reward_tps_raw ≡ dec c.tps
  pub stored : pool.reward_accumulated_raw ≡ dec c.stored
  pub last_time : pool.reward_last_time_raw ≡ dec c.last_time
  pub expiry : pool.reward_expired_at_raw ≡ dec c.expiry
  pub supply : pool.working_supply_raw ≡ dec c.supply
  pub nonzero : 0 < c.supply

-- Seconds of accrual at a close time: those since the checkpoint, up to the expiry.
abbrev pub accrual_seconds : Checkpoint → ℤ → ℕ
accrual_seconds c now =
    if ltb_ℤ (pos c.expiry) now then c.expiry - c.last_time else pos_part (now -ℤ pos c.last_time)

-- What is owed: the claim and the weight's part of what the pool has accumulated since the user's
-- checkpoint, rounded down.
abbrev pub owed : Checkpoint → ℤ → ℕ
owed c now = c.claim + c.weight * (c.stored + c.tps * accrual_seconds c now - c.acc_user) / c.supply

seconds_eq :
    (c : Checkpoint) (now : ℤ)
    → pos_part ((if ltb_ℤ (pos c.expiry) now then pos c.expiry else now) -ℤ pos c.last_time)
      ≡ accrual_seconds c now
seconds_eq c now = ground arith

accrual_time-dec :
    (exp : ℕ) (now : ℤ)
    → accrual_time (dec exp) now ≡ (if ltb_ℤ (pos exp) now then pos exp else now)
unfolding accrual_time
accrual_time-dec exp now = rw (dec_not_empty exp, parse_uint-dec exp, accrual_time) refl

acc_eq :
    (c : Checkpoint) (now : ℤ)
    → accumulated_at c.stored c.tps c.last_time (accrual_time (dec c.expiry) now)
      ≡ c.stored + c.tps * accrual_seconds c now
unfolding accumulated_at
acc_eq c now = rw (accrual_time-dec c.expiry now, seconds_eq c now) refl

owed_weightless : (c : Checkpoint) (now : ℤ) → c.weight ≡ 0 → owed c now ≡ c.claim
owed_weightless c now h =
    let n = c.stored + c.tps * accrual_seconds c now - c.acc_user in
    let z : 0 * n ≡ 0 = omega arith in rw h (rw z (rw (zero-div c.supply) (omega arith)))

owed_behind :
    (c : Checkpoint) (now : ℤ)
    → c.stored + c.tps * accrual_seconds c now ≤ c.acc_user
    → owed c now ≡ c.claim
owed_behind c now h =
    let e : c.stored + c.tps * accrual_seconds c now - c.acc_user ≡ 0 = omega arith in
    let z : c.weight * 0 ≡ 0 = omega arith in rw e (rw z (rw (zero-div c.supply) (omega arith)))

accrual_seconds_mono :
    (c : Checkpoint) (now later : ℤ)
    → now ≤ℤ later
    → accrual_seconds c now ≤ accrual_seconds c later
accrual_seconds_mono c now later h = ground arith

owed_mono :
    (c : Checkpoint) (now later : ℤ) → 0 < c.supply → now ≤ℤ later → owed c now ≤ owed c later
owed_mono c now later full h =
    let m : c.tps * accrual_seconds c now ≤ c.tps * accrual_seconds c later =
      mul_mono c.tps (accrual_seconds c now) (accrual_seconds c later)
        (accrual_seconds_mono c now later h) in
    let d : c.stored + c.tps * accrual_seconds c now - c.acc_user
        ≤ c.stored + c.tps * accrual_seconds c later - c.acc_user =
      omega arith in
    let q =
      div_mono (c.weight * (c.stored + c.tps * accrual_seconds c now - c.acc_user))
        (c.weight * (c.stored + c.tps * accrual_seconds c later - c.acc_user)) c.supply full
        (mul_mono c.weight (c.stored + c.tps * accrual_seconds c now - c.acc_user)
          (c.stored + c.tps * accrual_seconds c later - c.acc_user) d) in
    omega (arith, q)

accrual_seconds_expired :
    (c : Checkpoint) (now : ℤ)
    → pos c.expiry ≤ℤ now
    → accrual_seconds c now ≡ accrual_seconds c (pos c.expiry)
accrual_seconds_expired c now h = ground arith

module _ (pool : AmmPoolState) (position : AmmPositionState) (c : Checkpoint)
    (h : Holds pool position c) where
  weight_text : reward_weight position ≡ dec c.weight
  unfolding reward_weight
  weight_text = rw (h.weight, dec_not_empty c.weight) refl

  claim_text : claim_or_zero position.pending_reward_raw ≡ dec c.claim
  unfolding claim_or_zero
  claim_text = rw (h.claim, dec_not_empty c.claim) refl

  lacks_iff_zero : lacks_input pool position ≡ eq_str (dec c.weight) (lit "0")
  unfolding lacks_input
  lacks_iff_zero =
      rw
        (
          weight_text,
          h.acc_user,
          h.tps,
          h.stored,
          h.last_time,
          h.supply,
          dec_not_empty c.weight,
          dec_not_empty c.acc_user,
          dec_not_empty c.tps,
          dec_not_empty c.stored,
          dec_not_empty c.last_time,
          dec_not_empty c.supply,
          dec_not_zero c.supply (λ e. omega (arith, h.nonzero, e)),
        )
        (ground arith)

  accrue-eq :
      (now : ℤ)
      → accrue pool position (dec c.weight) (dec c.claim) now ≡ (
          if leb (c.stored + c.tps * accrual_seconds c now) c.acc_user
          then none
          else some (dec (owed c now)))
  unfolding accrue accrued_claim mul_div_floor
  accrue-eq now =
      rw
        (
          h.tps,
          h.stored,
          h.acc_user,
          h.supply,
          h.last_time,
          h.expiry,
          parse_uint-dec c.weight,
          parse_uint-dec c.tps,
          parse_uint-dec c.stored,
          parse_uint-dec c.acc_user,
          parse_uint-dec c.supply,
          parse_uint-dec c.last_time,
          parse_uint-dec c.claim,
          acc_eq c now,
        )
        (elim (Bool-cases (leb (c.stored + c.tps * accrual_seconds c now) c.acc_user)) [
          | inl e ↦ simp e (ground arith)
          | inr e ↦ simp e (ground (arith, h.nonzero))
        ])

  -- With every checkpoint input given, the pending reward is what is owed.
  pub pending_reward-eq_owed : (now : ℤ) → pending_reward pool position now ≡ dec (owed c now)
  unfolding pending_reward
  pending_reward-eq_owed now =
      rw (claim_text, weight_text, lacks_iff_zero, accrue-eq now)
        (elim (Bool-cases (eq_str (dec c.weight) (lit "0"))) [
          | inl e ↦ simp e (
              ap dec (
                sym (
                  owed_weightless c now (
                    dec-injective c.weight 0
                      ((eq_str_iff (dec c.weight) (lit "0")).0 e ∙ sym dec_zero)))))
          | inr e ↦
              simp e
                (elim (Bool-cases (leb (c.stored + c.tps * accrual_seconds c now) c.acc_user)) [
                  | inl f ↦ simp f (claim_text ∙ ap dec (sym (owed_behind c now (ground arith))))
                  | inr f ↦ simp f refl
                ])
        ])

  -- With every checkpoint input given and readable, a supply that is not zero, and two close times in
  -- order: the pending reward at each is the claim with the weight's part, rounded down, of what the
  -- pool has accumulated up to then or to the expiry; it is at least the claim and does not fall.
  pub pending_reward_accrues :
      (now later : ℤ)
      → now ≤ℤ later
      → (pending_reward pool position now ≡ dec (owed c now))
        × (pending_reward pool position later ≡ dec (owed c later))
        × (c.claim ≤ owed c now)
        × (owed c now ≤ owed c later)
  pending_reward_accrues now later k = (
    pending_reward-eq_owed now,
    pending_reward-eq_owed later,
    omega arith,
    owed_mono c now later h.nonzero k,
  )

  -- With every checkpoint input given and readable and a supply that is not zero, the pending reward
  -- at any close time from the expiry on is that at the expiry.
  pub pending_reward_expired :
      (now : ℤ)
      → pos c.expiry ≤ℤ now
      → pending_reward pool position now ≡ pending_reward pool position (pos c.expiry)
  pending_reward_expired now k =
      pending_reward-eq_owed now
      ∙ ap (λ (n : ℕ). dec (c.claim + c.weight * (c.stored + c.tps * n - c.acc_user) / c.supply))
          (accrual_seconds_expired c now k)
      ∙ sym (pending_reward-eq_owed (pos c.expiry))
