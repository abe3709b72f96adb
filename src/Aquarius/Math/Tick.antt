-- ===== src/Aquarius/Math/Tick.antt =====
-- aquarius/math.go: `tickSqrtPriceX96`, from a tick to its Q64.96 square-root price.
use lidapters.Common.{
  ℕ, ◌+◌, ◌*◌, ◌/◌, ◌%◌, ◌^◌, ◌≡◌, refl, Option, none, some, List, [], ◌∷◌, ltb, ◌==◌,
  if◌then◌else◌,
}
use lidapters.Common.Int.{ℤ, pos, negsuc}
use lidapters.Common.Str.{Str, lit}
use lidapters.Common.Decimal.{dec}

-- Entry i is sqrt(1.0001)^-(2^(i+1)) in Q128.128.
abbrev pub tick_magic_ladder : List ℕ
tick_magic_ladder =
    0xfff97272373d413259a46990580e213a ∷ 0xfff2e50f5f656932ef12357cf3c7fdcc
    ∷ 0xffe5caca7e10e4e61c3624eaa0941cd0 ∷ 0xffcb9843d60f6159c9db58835c926644
    ∷ 0xff973b41fa98c081472e6896dfb254c0 ∷ 0xff2ea16466c96a3843ec78b326b52861
    ∷ 0xfe5dee046a99a2a811c461f1969c3053 ∷ 0xfcbe86c7900a88aedcffc83b479aa3a4
    ∷ 0xf987a7253ac413176f2b074cf7815e54 ∷ 0xf3392b0822b70005940c7a398e4b70f3
    ∷ 0xe7159475a2c29b7443b29c7fa6e889d9 ∷ 0xd097f3bdfd2022b8845ad8f792aa5825
    ∷ 0xa9f746462d870fdf8a65dc1f90e061e5 ∷ 0x70d869a156d2a1b890bb3df62baf32f7
    ∷ 0x31be135f97d08fd981231505542fcfa6 ∷ 0x9aa508b5b7a84e1c677de54f3e99bc9
    ∷ 0x5d6af8dedb81196699c329225ee604 ∷ 0x2216e584f5fa1ea926041bedfe98 ∷ 0x48a170391f7dc42444e8fa2
    ∷ []

abbrev pub tick_odd_magic : ℕ
tick_odd_magic = 0xfffcb933bd6fad37aa2d162d1a594001

abbrev pub q128 : ℕ
q128 = 2 ^ 128

abbrev pub q256 : ℕ
q256 = 2 ^ 256

abbrev pub max_tick : ℕ
max_tick = 887272

-- The loop over the ladder; `bit` is the power of two that the entry stands for.
unfoldable pub ladder : ℕ → ℕ → ℕ → List ℕ → ℕ
ladder abs bit ratio [] = ratio
ladder abs bit ratio (magic ∷ rest) =
    ladder abs (bit * 2) (if abs / bit % 2 == 0 then ratio else ratio * magic / 2 ^ 128) rest

abbrev pub start_ratio : ℕ → ℕ
start_ratio abs = if abs % 2 == 0 then q128 else tick_odd_magic

-- 1.0001^(-abs/2) in Q128.128
unfoldable pub inverse_ratio : ℕ → ℕ
inverse_ratio abs = ladder abs 2 (start_ratio abs) tick_magic_ladder

-- Q128.128 to Q64.96, rounded up.
unfoldable pub to_x96 : ℕ → ℕ
to_x96 ratio = if ratio % 2 ^ 32 == 0 then ratio / 2 ^ 32 else ratio / 2 ^ 32 + 1

-- |tick| of an int32
abbrev pub abs_tick : ℤ → ℕ
abs_tick (pos n) = n
abs_tick (negsuc n) = n + 1

-- The ratio of a tick: a positive one is the inverse.
unfoldable pub tick_ratio : ℤ → ℕ
tick_ratio (pos n) = if n == 0 then inverse_ratio 0 else q256 / inverse_ratio n
tick_ratio (negsuc n) = inverse_ratio (n + 1)

unfoldable pub tick_sqrt_price_x96 : ℤ → Option Str
tick_sqrt_price_x96 tick =
    if ltb max_tick (abs_tick tick) then none else some (dec (to_x96 (tick_ratio tick)))

-- The anchor of the source's comment, and the price of tick 0.
anchor : tick_sqrt_price_x96 (negsuc 17651) ≡ some (lit "32778602836627082880087502758")
unfolding tick_sqrt_price_x96 tick_ratio inverse_ratio ladder to_x96 dec
anchor = refl

tick_zero : tick_ratio (pos 0) ≡ q128
unfolding tick_ratio inverse_ratio ladder
tick_zero = refl
