-- ===== src/Blend/Incremental/Keys.antt =====
-- blend/state_incremental.go: the sorted entries and the index, which hold the same entries.
use mathlib.Core.List.{Permᴰ}
use mathlib.Core.List.Permᴰ as Perm
use lidapters.Common.{◌≡◌, sym, ◌∙◌, false, List, arith, All}
use lidapters.Common.Str.{Str, eq_str, eq_str_iff, lt_str_apart, lt_str_irrefl}
use lidapters.Common.Dict.{Dict, values, IsKeyed}
use lidapters.Common.Lex.{lex-IsOrder, by_text-IsOrder}
use lidapters.Common.Sort.{IsOrder, IsStrict, Apart, All-perm}
use lidapters.Blend.Positions.Identity.{IsKeyOf, IsKeyOf-once}
use lidapters.Blend.Incremental.{UserEntry, user_entry_less}

abbrev pub IsSigned : UserEntry → Type 0
IsSigned e = IsKeyOf e.composite e.address e.pool

abbrev pub key_of : UserEntry → Str
key_of e = e.composite

pub user_entry_less-IsOrder : IsOrder user_entry_less
user_entry_less-IsOrder = lex-IsOrder (λ e. e.address) (by_text-IsOrder (λ e. e.pool))

-- Two entries of the same user and pool.
abbrev pub Same : UserEntry → UserEntry → Type 0
Same a b = (a.address ≡ b.address) × (a.pool ≡ b.pool)

pub Same-composite :
    (a b : UserEntry) → IsSigned a → IsSigned b → a.composite ≡ b.composite → Same a b
Same-composite a b h g e =
    IsKeyOf-once b.composite a.address b.address a.pool b.pool
      (record { key = sym e ∙ h.key; plain = h.plain }) g

pub not_less : (a b : UserEntry) → Same a b → user_entry_less a b ≡ false
not_less a b s =
    rw (s.0, s.1)
      (ground
        (arith, lt_str_irrefl b.address, lt_str_irrefl b.pool, eq_str_iff b.address b.address))

-- Entries with different keys are of different users or pools.
pub Apart-composite :
    (a b : UserEntry)
    → IsSigned a
    → IsSigned b
    → eq_str b.composite a.composite ≡ false
    → Apart user_entry_less a b
Apart-composite a b h g n =
    let keys : a.address ≡ b.address → a.pool ≡ b.pool → b.composite ≡ a.composite =
      λ e f. g.key ∙ (sym (rw (← e, ← f) h.key)) in
    ground (
      arith,
      h.key,
      lt_str_apart a.address b.address,
      lt_str_apart a.pool b.pool,
      eq_str_iff a.address b.address,
      eq_str_iff b.address a.address,
      eq_str_iff a.pool b.pool,
      eq_str_iff b.composite a.composite,
      keys,
    )

-- The sorted entries are those of the index.
pub record IsOrdered (keys : List UserEntry) (index : Dict UserEntry) : Type 0 where
  pub keyed : IsKeyed key_of index
  pub signed : All IsSigned (values index)
  pub strict : IsStrict user_entry_less keys
  pub same : Permᴰ keys (values index)

pub keys_signed :
    {keys : List UserEntry} {index : Dict UserEntry} → IsOrdered keys index → All IsSigned keys
keys_signed h = All-perm IsSigned (Perm.symm h.same) h.signed
