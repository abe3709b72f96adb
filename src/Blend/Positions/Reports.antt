-- ===== src/Blend/Positions/Reports.antt =====
-- blend/state.go, `positionsFromMap`: where the amounts of a user go.
use lidapters.Common.{
  ℕ, ◌+◌, ◌≡◌, refl, ◌∙◌, ap, ◌⊎◌, inl, inr, Bool, none, some, List, [], ◌∷◌, ◌++◌, arith,
  Option-cases, Bool-cases, if◌then◌else◌,
}
use lidapters.Common.Int.{ℤ}
use lidapters.Common.Str.{Str, lit, eq_str}
use lidapters.Common.IntDict.{find_int}
use lidapters.Xdr.{Xdr}
use lidapters.Blend.Values.{sc_int32, sc_int_string}
use lidapters.Blend.Types.{
  UserReservePosition, position_type_supply, position_type_collateral, position_type_liability,
}
use lidapters.Blend.Reserves.{PoolBuilder}
use lidapters.Blend.Positions.{
  Pending, Block, join, position_of, skip, add_leg, leg_of, add_entry, entry_positions, entries_of,
  positions_from_map, part, build_user_positions_for_pending,
}

-- How many elements pass a test.
abbrev pub count : {A : Type 0} → (A → Bool) → List A → ℕ
count f [] = 0
count f (v ∷ vs) = (if f v then 1 else 0) + count f vs

count-append :
    {A : Type 0} (f : A → Bool) (us vs : List A) → count f (us ++ vs) ≡ count f us + count f vs
count-append f [] vs = omega arith
count-append f (u ∷ us) vs = omega (arith, count-append f us vs)

-- The amount of a position, which is a debt or a credit by its kind.
abbrev pub amount_of : UserReservePosition → Str
amount_of p =
    if eq_str p.position_type position_type_liability then p.d_tokens_raw else p.b_tokens_raw

module _ (x : Xdr) (f : Str → Str → Bool) where
  open x use {ScVal}

  -- The positions and the reports whose kind and amount pass the test.
  abbrev pub told : Block → ℕ
  told b =
      count (λ p. f p.position_type (amount_of p)) b.positions
      + count (λ d. f d.position_type d.amount_raw) b.diagnostics

  -- One for an entry whose key is an index and whose value is a number other than zero that passes
  -- the test for its kind, else none.
  abbrev pub weight : Str → ScVal × ScVal → ℕ
  weight kind (k, v) = elim (sc_int32 x k) [
    | none ↦ 0
    | some index ↦ elim (sc_int_string x v) [
      | none ↦ 0
      | some amount ↦ if eq_str amount (lit "0") then 0 else if f kind amount then 1 else 0
    ]
  ]

  -- How many entries of a map have an index and an amount other than zero that passes the test.
  abbrev pub owed : Str → List (ScVal × ScVal) → ℕ
  owed kind [] = 0
  owed kind (e ∷ es) = weight kind e + owed kind es

  leg_of-weight :
      (kind : Str) (e : ScVal × ScVal)
      → (leg_of x e ≡ none) × (weight kind e ≡ 0)
        ⊎ (index : ℤ) × (amount : Str) × (leg_of x e ≡ some (index, amount))
          × (weight kind e ≡ (if f kind amount then 1 else 0))
  unfolding leg_of
  leg_of-weight kind (k, v) = elim (Option-cases (sc_int32 x k)) [
    | inl e ↦ inl (rw (e, leg_of) refl, rw (e, weight) refl)
    | inr (index, e) ↦ elim (Option-cases (sc_int_string x v)) [
      | inl g ↦ inl (rw (e, leg_of) (rw g refl), rw (e, weight) (rw g refl))
      | inr (amount, g) ↦ elim (Bool-cases (eq_str amount (lit "0"))) [
        | inl z ↦ inl (rw (e, leg_of) (rw g (rw z refl)), rw (e, weight) (rw g (rw z refl)))
        | inr z ↦
            inr
              (index, amount, rw (e, leg_of) (rw g (rw z refl)), rw (e, weight) (rw g (rw z refl)))
      ]
    ]
  ]

  skip-names :
      (seq : ℤ) (pool : PoolBuilder) (p : Pending x) (kind : Str) (index : ℤ) (amount : Str)
      → let d = skip seq pool p kind index amount in
        (d.position_type ≡ kind) × (d.amount_raw ≡ amount)
  unfolding skip
  skip-names seq pool p kind index amount =
      elim (Option-cases (find_int index pool.ambiguous_by_index)) [
        | inl g ↦ simp (g, skip) (refl, refl)
        | inr (ids, g) ↦ simp (g, skip) (refl, refl)
      ]

  add_leg-told :
      (pool : PoolBuilder) (p : Pending x) (kind : Str) (seq : ℤ) (index : ℤ) (amount : Str)
      (rest : Block)
      → told (add_leg pool p kind (some seq) index amount rest)
        ≡ (if f kind amount then 1 else 0) + told rest
  unfolding add_leg position_of
  add_leg-told pool p kind seq index amount rest =
      elim (Option-cases (find_int index pool.reserve_by_index)) [
        | inr (asset, e) ↦ elim (Bool-cases (eq_str kind position_type_liability)) [
          | inl d ↦ simp (e, d, add_leg) (omega arith)
          | inr d ↦ simp (e, d, add_leg) (omega arith)
        ]
        | inl e ↦
            let (kept, same) = skip-names seq pool p kind index amount in
            simp (e, kept, same, add_leg) (omega arith)
      ]

  add_entry-told :
      (pool : PoolBuilder) (p : Pending x) (kind : Str) (seq : ℤ) (e : ScVal × ScVal) (rest : Block)
      → told (add_entry x pool p kind (some seq) e rest) ≡ weight kind e + told rest
  unfolding add_entry
  add_entry-told pool p kind seq e rest = elim (leg_of-weight kind e) [
    | inl (h, n) ↦ rw (n, h, add_entry) (omega arith)
    | inr (index, amount, h, n) ↦
        rw (n, h, add_entry) (add_leg-told pool p kind seq index amount rest)
  ]

  entry_positions-told :
      (pool : PoolBuilder) (p : Pending x) (kind : Str) (seq : ℤ) (es : List (ScVal × ScVal))
      → told (entry_positions x pool p kind (some seq) es) ≡ owed kind es
  unfolding entry_positions
  entry_positions-told pool p kind seq [] = omega arith
  entry_positions-told pool p kind seq (e ∷ es) =
      add_entry-told pool p kind seq e (entry_positions x pool p kind (some seq) es)
      ∙ ap (λ n. weight kind e + n) (entry_positions-told pool p kind seq es)

  told-join : (b c : Block) → told (join b c) ≡ told b + told c
  told-join b c = omega (
    arith,
    count-append (λ p. f p.position_type (amount_of p)) b.positions c.positions,
    count-append (λ d. f d.position_type d.amount_raw) b.diagnostics c.diagnostics,
  )

  -- What one of a user's maps owes.
  abbrev pub legs_in : Pending x → Str → Str → ℕ
  legs_in p name kind = owed kind (entries_of x (part x p name))

  -- With a sink, no amount is lost, made up or changed: for every test of a kind and an amount, the
  -- positions and the reports that pass it are together as many as the entries of the three maps,
  -- each map with its kind, whose key is an index and whose value is a number other than zero that
  -- passes it.
  pub build_user_positions-told :
      (pool : PoolBuilder) (p : Pending x) (seq : ℤ)
      → told (build_user_positions_for_pending x pool p (some seq))
        ≡ legs_in p (lit "supply") position_type_supply
          + legs_in p (lit "collateral") position_type_collateral
          + legs_in p (lit "liabilities") position_type_liability
  unfolding build_user_positions_for_pending positions_from_map
  build_user_positions-told pool p seq =
      let block = λ (name kind : Str).
        entry_positions x pool p kind (some seq) (entries_of x (part x p name)) in
      let s = block (lit "supply") position_type_supply in
      let c = block (lit "collateral") position_type_collateral in
      let l = block (lit "liabilities") position_type_liability in
      omega (
        arith,
        told-join s (join c l),
        told-join c l,
        entry_positions-told pool p position_type_supply seq
            (entries_of x (part x p (lit "supply"))),
        entry_positions-told pool p position_type_collateral seq
            (entries_of x (part x p (lit "collateral"))),
        entry_positions-told pool p position_type_liability seq
            (entries_of x (part x p (lit "liabilities"))),
      )
