-- ===== src/Common/Lex.antt =====
-- Less functions that compare one string after the other.
use lidapters.Common.{◌≡◌, Bool, true, false, not, arith, if◌then◌else◌}
use lidapters.Common.Str.{
  Str, eq_str, lt_str, eq_str_iff, lt_str_asym, lt_str_total, lt_str_le_trans, lt_str_irrefl,
}
use lidapters.Common.Sort.{IsOrder}

module _ {A : Type 0} (f : A → Str) where
  abbrev pub by_text : A → A → Bool
  by_text a b = lt_str (f a) (f b)

  abbrev pub lex : (A → A → Bool) → A → A → Bool
  lex rest a b = if not (eq_str (f a) (f b)) then lt_str (f a) (f b) else rest a b

  pub by_text-IsOrder : IsOrder by_text
  by_text-IsOrder = record {
    asym = λ a b. lt_str_asym (f a) (f b);
    le_trans = λ a b c. lt_str_le_trans (f a) (f b) (f c);
  }

  lex_asym :
      {rest : A → A → Bool} (o : IsOrder rest) (a b : A)
      → lex rest a b ≡ true
      → lex rest b a ≡ false
  lex_asym o a b h =
      ground
        (arith, lt_str_asym (f a) (f b), eq_str_iff (f a) (f b), eq_str_iff (f b) (f a), o.asym a b)

  lex_le_trans :
      {rest : A → A → Bool} (o : IsOrder rest) (a b c : A)
      → lex rest b a ≡ false
      → lex rest c b ≡ false
      → lex rest c a ≡ false
  lex_le_trans o a b c h k = ground (
    arith,
    eq_str_iff (f b) (f a),
    eq_str_iff (f c) (f b),
    eq_str_iff (f c) (f a),
    lt_str_le_trans (f a) (f b) (f c),
    lt_str_total (f a) (f b),
    lt_str_irrefl (f a),
    o.le_trans a b c,
  )

  pub lex-IsOrder : {rest : A → A → Bool} → IsOrder rest → IsOrder (lex rest)
  lex-IsOrder o = record { asym = lex_asym o; le_trans = lex_le_trans o }
