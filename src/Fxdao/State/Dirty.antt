-- ===== src/Fxdao/State/Dirty.antt =====
-- fxdao/state.go and adapter.go: sorting and merging the dirty list.
use lidapters.Common.{
  ◌≡◌, refl, ap, ◌∙◌, Bool, true, false, ◌&&◌, ◌||◌, Option, List, [], ◌∷◌, arith, Bool-cases, inl,
  inr, All,
}
use lidapters.Common.Int.{ℤ}
use lidapters.Common.Str.{eq_str_iff, lt_str_total}
use lidapters.Common.Sort.{
  IsSorted, IsStrict, IsOrder, sort_slice, insert_by, sort_slice-IsSorted, All-map,
}
use lidapters.Common.Lex.{by_text-IsOrder, lex-IsOrder}
use lidapters.Xdr.{Xdr}
use lidapters.Bindings.State.{LedgerState, ContractDataChange, DirtyKind, upsert, removal}
use lidapters.Fxdao.Config.{Adapter, DirtyVault, less_dirty, sort_dirty}
use lidapters.Fxdao.State.{
  same_vault, merge_kind, dedupe_from, dedupe_dirty, final_work, decode_state,
}

less_dirty-IsOrder : IsOrder less_dirty
unfolding less_dirty
less_dirty-IsOrder =
    let inner =
      lex-IsOrder (λ (d : DirtyVault). d.account)
        (by_text-IsOrder (λ (d : DirtyVault). d.denomination)) in
    let o = lex-IsOrder (λ (d : DirtyVault). d.contract_id) inner in
    record { asym = o.asym; le_trans = o.le_trans }

abbrev is_removal : DirtyKind → Bool
is_removal removal = true
is_removal upsert = false

-- Whether a list has an entry for the vault of `d`, and whether it has one that removes it.
abbrev pub names : DirtyVault → List DirtyVault → Bool
names d [] = false
names d (e ∷ es) = same_vault e d || names d es

abbrev pub removes : DirtyVault → List DirtyVault → Bool
removes d [] = false
removes d (e ∷ es) = (same_vault e d && is_removal e.kind) || removes d es

same_vault_trans : (d e f : DirtyVault) → same_vault d e ≡ true → same_vault d f ≡ same_vault e f
unfolding same_vault
same_vault_trans d e f h = ground (
  arith,
  eq_str_iff d.contract_id e.contract_id,
  eq_str_iff d.account e.account,
  eq_str_iff d.denomination e.denomination,
)

merge_same : (k : DirtyKind) (d f : DirtyVault) → same_vault (merge_kind k d) f ≡ same_vault d f
unfolding merge_kind same_vault
merge_same removal d f = refl
merge_same upsert d f = refl

dedupe_from-names :
    (last d : DirtyVault) (l : List DirtyVault) → names d (dedupe_from last l) ≡ names d (last ∷ l)
unfolding dedupe_from
dedupe_from-names last d [] = refl
dedupe_from-names last d (e ∷ es) = elim (Bool-cases (same_vault last e)) [
  | inl s ↦
      rw (s, dedupe_from)
        (dedupe_from-names (merge_kind e.kind last) d es
          ∙ ground (arith, merge_same e.kind last d, same_vault_trans last e d))
  | inr s ↦
      rw (s, dedupe_from) (ap (λ (b : Bool). same_vault last d || b) (dedupe_from-names e d es))
]

merge_removes :
    (e last d : DirtyVault)
    → same_vault last e ≡ true
    → (same_vault (merge_kind e.kind last) d && is_removal (merge_kind e.kind last).kind)
      ≡ ((same_vault last d && is_removal last.kind) || (same_vault e d && is_removal e.kind))
unfolding merge_kind
merge_removes e last d s = ground (arith, merge_same e.kind last d, same_vault_trans last e d)

dedupe_from-removes :
    (last d : DirtyVault) (l : List DirtyVault)
    → removes d (dedupe_from last l) ≡ removes d (last ∷ l)
unfolding dedupe_from
dedupe_from-removes last d [] = refl
dedupe_from-removes last d (e ∷ es) = elim (Bool-cases (same_vault last e)) [
  | inl s ↦
      rw (s, dedupe_from)
        (dedupe_from-removes (merge_kind e.kind last) d es
          ∙ ground (arith, merge_removes e last d s))
  | inr s ↦
      rw (s, dedupe_from)
        (ap (λ (b : Bool). (same_vault last d && is_removal last.kind) || b)
          (dedupe_from-removes e d es))
]

merge_less :
    (k : DirtyKind) (d e : DirtyVault)
    → (less_dirty d (merge_kind k e) ≡ less_dirty d e)
      × (less_dirty (merge_kind k e) d ≡ less_dirty e d)
unfolding merge_kind less_dirty
merge_less removal d e = (refl, refl)
merge_less upsert d e = (refl, refl)

dedupe_from-All :
    (d last : DirtyVault) (l : List DirtyVault)
    → less_dirty d last ≡ true
    → All (λ e. less_dirty d e ≡ true) l
    → All (λ e. less_dirty d e ≡ true) (dedupe_from last l)
unfolding dedupe_from
dedupe_from-All d last [] p h = (p, tt)
dedupe_from-All d last (e ∷ es) p h = elim (Bool-cases (same_vault last e)) [
  | inl s ↦
      rw (s, dedupe_from)
        (dedupe_from-All d (merge_kind e.kind last) es ((merge_less e.kind d last).0 ∙ p) h.1)
  | inr s ↦ rw (s, dedupe_from) (p, dedupe_from-All d e es h.0 h.1)
]

-- Of two different vaults in order the first is the smaller.
less_of_other :
    (d e : DirtyVault) → same_vault d e ≡ false → less_dirty e d ≡ false → less_dirty d e ≡ true
unfolding same_vault less_dirty
less_of_other d e s h = ground (
  arith,
  eq_str_iff d.contract_id e.contract_id,
  eq_str_iff e.contract_id d.contract_id,
  eq_str_iff d.account e.account,
  eq_str_iff e.account d.account,
  eq_str_iff d.denomination e.denomination,
  lt_str_total d.contract_id e.contract_id,
  lt_str_total d.account e.account,
  lt_str_total d.denomination e.denomination,
)

lt_le_trans :
    (d e f : DirtyVault) → less_dirty d e ≡ true → less_dirty f e ≡ false → less_dirty d f ≡ true
lt_le_trans d e f h k = elim (Bool-cases (less_dirty d f)) [
  | inl p ↦ p
  | inr p ↦ let q = less_dirty-IsOrder.le_trans e f d k p in cc
]

dedupe_from-IsStrict :
    (last : DirtyVault) (l : List DirtyVault)
    → IsSorted less_dirty (last ∷ l)
    → IsStrict less_dirty (dedupe_from last l)
unfolding dedupe_from
dedupe_from-IsStrict last [] h = (tt, tt)
dedupe_from-IsStrict last (e ∷ es) h = elim (Bool-cases (same_vault last e)) [
  | inl s ↦
      rw (s, dedupe_from)
        (dedupe_from-IsStrict (merge_kind e.kind last) es (
          All-map (λ d. less_dirty d last ≡ false)
              (λ d. less_dirty d (merge_kind e.kind last) ≡ false)
              (λ d p. (merge_less e.kind d last).0 ∙ p) es h.0.1,
          h.1.1,
        ))
  | inr s ↦
      let lt : less_dirty last e ≡ true = less_of_other last e s h.0.0 in
      rw (s, dedupe_from)
        (
          dedupe_from-All last e es lt (
              All-map (λ d. less_dirty d e ≡ false) (λ d. less_dirty last d ≡ true)
                (λ d. lt_le_trans last e d lt) es h.1.0),
          dedupe_from-IsStrict e es h.1,
        )
]

-- Merging a list in order leaves it strictly increasing: no vault is listed twice.
pub dedupe_dirty-IsStrict :
    (l : List DirtyVault) → IsSorted less_dirty l → IsStrict less_dirty (dedupe_dirty l)
unfolding dedupe_dirty
dedupe_dirty-IsStrict [] h = tt
dedupe_dirty-IsStrict (d ∷ ds) h = dedupe_from-IsStrict d ds h

dedupe_dirty_reports :
    (d : DirtyVault) (l : List DirtyVault)
    → (names d (dedupe_dirty l) ≡ names d l) × (removes d (dedupe_dirty l) ≡ removes d l)
unfolding dedupe_dirty
dedupe_dirty_reports d [] = (refl, refl)
dedupe_dirty_reports d (e ∷ es) = (dedupe_from-names e d es, dedupe_from-removes e d es)

insert_reports :
    (less : DirtyVault → DirtyVault → Bool) (d e : DirtyVault) (l : List DirtyVault)
    → (names d (insert_by less e l) ≡ names d (e ∷ l))
      × (removes d (insert_by less e l) ≡ removes d (e ∷ l))
unfolding insert_by
insert_reports less d e [] = (refl, refl)
insert_reports less d e (f ∷ fs) =
    let (p, q) = insert_reports less d e fs in (ground (arith, p), ground (arith, q))

sort_reports :
    (less : DirtyVault → DirtyVault → Bool) (d : DirtyVault) (l : List DirtyVault)
    → (names d (sort_slice less l) ≡ names d l) × (removes d (sort_slice less l) ≡ removes d l)
unfolding sort_slice
sort_reports less d [] = (refl, refl)
sort_reports less d (e ∷ es) =
    let (p, q) = sort_reports less d es in
    let (r, s) = insert_reports less d e (sort_slice less es) in
    (ground (arith, p, r), ground (arith, q, s))

module _ (x : Xdr) (a : Adapter) (prior : Option LedgerState) (changes : List ContractDataChange)
    (seq : ℤ) where
  -- The dirty vaults that a call reports are strictly increasing by contract, account and
  -- denomination, so none is listed twice; a vault is listed exactly if some change reported it, and
  -- listed as removed exactly if some change removed it.
  pub decode_state_dirty :
      let reported = (decode_state x a prior changes seq).0.dirty in
      IsStrict less_dirty reported
      × ((d : DirtyVault) → names d reported ≡ names d (final_work x a prior changes).dirty)
      × ((d : DirtyVault) → removes d reported ≡ removes d (final_work x a prior changes).dirty)
  unfolding decode_state sort_dirty
  decode_state_dirty =
      let log = (final_work x a prior changes).dirty in
      let sorted = sort_slice less_dirty log in
      (
        dedupe_dirty-IsStrict sorted (sort_slice-IsSorted less_dirty less_dirty-IsOrder log),
        λ d. (dedupe_dirty_reports d sorted).0 ∙ (sort_reports less_dirty d log).0,
        λ d. (dedupe_dirty_reports d sorted).1 ∙ (sort_reports less_dirty d log).1,
      )
