-- ===== src/Common/Text.antt =====
-- The parts of Go's `strings` package that the adapters use.
use lidapters.Common.{
  ℕ, ltb, ◌/◌, ◌%◌, ◌^◌, ◌+◌, ◌*◌, ◌≡◌, refl, Bool, true, false, ◌&&◌, ◌||◌, Option, none, some, [],
  ◌∷◌, leb, ◌==◌, if◌then◌else◌,
}
use lidapters.Common.Str.{Str, lit, is_empty, eq_str}
use lidapters.Common.Int.{ℤ, pos, negsuc}
use lidapters.Common.Decimal.{set_string}

-- One byte of UTF-8 after the bytes `p` of an unfinished space character, read as one number: the
-- next such number, 0 where the character is complete, `none` where this is no space of Unicode.
space_byte : ℕ → ℕ → Option ℕ
space_byte p c =
    let q = p * 256 + c in
    if (leb 9 q && leb q 13)
      || q == 32
      || q == 0xc285
      || q == 0xc2a0
      || q == 0xe19a80
      || (leb 0xe28080 q && leb q 0xe2808a)
      || q == 0xe280a8
      || q == 0xe280a9
      || q == 0xe280af
      || q == 0xe2819f
      || q == 0xe38080
    then some 0
    else if q == 0xc2
        || q == 0xe1
        || q == 0xe2
        || q == 0xe3
        || q == 0xe19a
        || q == 0xe280
        || q == 0xe281
        || q == 0xe380
    then some q
    else none

spaces_from : ℕ → Str → Bool
unfolding space_byte
spaces_from p [] = p == 0
spaces_from p (c ∷ s) = elim (space_byte p c) [ none ↦ false | some q ↦ spaces_from q s ]

-- `strings.TrimSpace(s) == ""`
unfoldable pub is_blank : Str → Bool
unfolding spaces_from
is_blank s = spaces_from 0 s

-- `strings.ToLower` on ASCII letters; the other bytes stay. The code calls it on hexadecimal hashes.
unfoldable pub to_lower : Str → Str
to_lower [] = []
to_lower (c ∷ s) = (if leb b'A' c && leb c b'Z' then c + 32 else c) ∷ to_lower s

-- `strings.HasPrefix(s, p)`
unfoldable pub has_prefix : Str → Str → Bool
has_prefix s [] = true
has_prefix [] (c ∷ p) = false
has_prefix (d ∷ s) (c ∷ p) = c == d && has_prefix s p

-- `strings.HasSuffix(s, p)`
unfoldable pub has_suffix : Str → Str → Bool
has_suffix [] p = is_empty p
has_suffix (c ∷ s) p = eq_str (c ∷ s) p || has_suffix s p

hex_digit : ℕ → ℕ
hex_digit d = if ltb d 10 then 48 + d else 87 + d

-- `fmt.Sprintf("%x", b)` of a byte slice
unfoldable pub to_hex : Str → Str
unfolding hex_digit
to_hex [] = []
to_hex (b ∷ bs) = hex_digit (b / 16) ∷ hex_digit (b % 16) ∷ to_hex bs

-- Whether an integer fits in an int32.
abbrev pub fits_int32 : ℤ → Bool
fits_int32 (pos n) = ltb n (2 ^ 31)
fits_int32 (negsuc n) = ltb n (2 ^ 31)

-- `fmt.Sscan(s, &old)` for an int32, on a decimal text with no superfluous zero or on "": a text
-- that is no number, or one that does not fit, leaves the old value.
unfoldable pub scan_int32 : Str → ℤ → ℤ
scan_int32 s old = elim (set_string s) [ none ↦ old | some z ↦ if fits_int32 z then z else old ]

is_blank_tests : (is_blank (lit " \t\n") ≡ true) × (is_blank (lit " a ") ≡ false)
unfolding is_blank
is_blank_tests = (refl, refl)
