-- ===== src/Soroswap/State/Discovery.antt =====
-- soroswap/state.go, `DecodeState`: the discovery pass.
use mathlib.Core.Path.{subst}
use lidapters.Common.{
  ◌≡◌, refl, ◌∙◌, sym, ap, ◌↔◌, ◌⊎◌, inl, inr, true, false, Option, some, List, [], ◌∷◌, arith,
  Bool-cases, Option-cases, if◌then◌else◌, Any,
}
use lidapters.Common.Int.{ℤ}
use lidapters.Common.Str.{Str, lit, eq_str, eq_str_iff, eq_str_refl, is_empty}
use lidapters.Common.Dict.{StrSet, mem, add, mem-add}
use lidapters.Xdr.{Xdr}
use lidapters.Bindings.State.{LedgerState, ContractDataChange}
use lidapters.Soroswap.Config.{Adapter}
use lidapters.Soroswap.Values.{decode_val, symbol_or_first, addr}
use lidapters.Soroswap.State.{discover, discover_all, decode_state}

-- A change in which one of the factories writes the address `id` of a pair to its registry.
pub record Registers (x : Xdr) (factories : StrSet) (id : Str) (c : ContractDataChange)
    : Type 0 where
  pub factory : mem c.contract_id factories ≡ true
  pub key : x.ScVal
  pub value : Str
  pub pair : x.ScVal
  pub key_decodes : decode_val x c.key_xdr ≡ some key
  pub key_named : symbol_or_first x key ≡ lit "PairAddressesNIndexed"
  pub written : c.value_xdr ≡ some value
  pub value_decodes : decode_val x value ≡ some pair
  pub address : addr x pair ≡ id
  pub given : is_empty id ≡ false

module _ (x : Xdr) where
  discover_registered :
      (a : Adapter) (c : ContractDataChange) {id : Str}
      → Registers x a.factories id c
      → discover x a c ≡ record a { pairs = add id a.pairs }
  unfolding discover eq_str
  discover_registered a c {id} r =
      rw
        (
          r.factory, r.written, r.key_decodes, r.key_named, r.value_decodes, r.address, r.given,
          discover,
        )
        refl

  discover_cases :
      (a : Adapter) (c : ContractDataChange)
      → (discover x a c ≡ a) ⊎ ((id : Str) × Registers x a.factories id c)
  unfolding discover
  discover_cases a c = elim (Bool-cases (mem c.contract_id a.factories)) [
    | inr e ↦ inl (rw (e, discover) refl)
    | inl e ↦ elim (Option-cases c.value_xdr) [
      | inl f ↦ inl (rw (e, f, discover) refl)
      | inr (value, f) ↦ elim (Option-cases (decode_val x c.key_xdr)) [
        | inl g ↦ inl (rw (e, f, g, discover) refl)
        | inr (key, g) ↦
            elim (Bool-cases (eq_str (symbol_or_first x key) (lit "PairAddressesNIndexed"))) [
              | inr h ↦ inl (rw (e, f, g, h, discover) refl)
              | inl h ↦ elim (Option-cases (decode_val x value)) [
                | inl i ↦ inl (rw (e, f, g, h, i, discover) refl)
                | inr (pair, i) ↦ elim (Bool-cases (is_empty (addr x pair))) [
                  | inl j ↦ inl (rw (e, f, g, h, i, j, discover) refl)
                  | inr j ↦ inr (
                    addr x pair,
                    record {
                      factory = e;
                      key = key;
                      value = value;
                      pair = pair;
                      key_decodes = g;
                      key_named =
                          (eq_str_iff (symbol_or_first x key) (lit "PairAddressesNIndexed")).0 h;
                      written = f;
                      value_decodes = i;
                      address = refl;
                      given = j;
                    },
                  )
                ]
              ]
            ]
      ]
    ]
  ]

  -- A change leaves the factories as they are.
  discover_factories :
      (a : Adapter) (c : ContractDataChange) → (discover x a c).factories ≡ a.factories
  discover_factories a c = elim (discover_cases a c) [
    | inl e ↦ ap (λ (b : Adapter). b.factories) e
    | inr (id, r) ↦ ap (λ (b : Adapter). b.factories) (discover_registered a c r)
  ]

  registered_known :
      (a : Adapter) (c : ContractDataChange) (id : Str)
      → Registers x a.factories id c
      → mem id (discover x a c).pairs ≡ true
  registered_known a c id r =
      ap (λ (b : Adapter). mem id b.pairs) (discover_registered a c r)
      ∙ mem-add id id a.pairs
      ∙ rw (eq_str_refl id) refl

  discover_iff :
      (a : Adapter) (c : ContractDataChange) (id : Str)
      → (mem id (discover x a c).pairs ≡ true)
        ↔ ((mem id a.pairs ≡ true) ⊎ Registers x a.factories id c)
  discover_iff a c id = elim (discover_cases a c) [
    | inl e ↦ (
      λ m. inl (ap (λ (b : Adapter). mem id b.pairs) (sym e) ∙ m),
      λ o. elim o [
        | inl m ↦ ap (λ (b : Adapter). mem id b.pairs) e ∙ m
        | inr r ↦ registered_known a c id r
      ],
    )
    | inr (j, q) ↦
        let added : mem id (discover x a c).pairs ≡ (if eq_str j id then true else mem id a.pairs) =
          ap (λ (b : Adapter). mem id b.pairs) (discover_registered a c q) ∙ mem-add j id a.pairs in
        (
          λ m. elim (Bool-cases (eq_str j id)) [
            | inl f ↦ inr (subst (λ k. Registers x a.factories k c) ((eq_str_iff j id).0 f) q)
            | inr f ↦ inl (ground arith)
          ],
          λ o. elim o [ inl m ↦ ground arith | inr r ↦ registered_known a c id r ],
        )
  ]

  discover_all_iff :
      (a : Adapter) (cs : List ContractDataChange) (id : Str)
      → (mem id (discover_all x a cs).pairs ≡ true)
        ↔ ((mem id a.pairs ≡ true) ⊎ Any (Registers x a.factories id) cs)
  unfolding discover_all
  discover_all_iff a [] id = (λ m. inl m, λ o. elim o [ inl m ↦ m | inr r ↦ absurd r ])
  discover_all_iff a (c ∷ cs) id =
      let one = discover_iff a c id in
      let rest : (mem id (discover_all x (discover x a c) cs).pairs ≡ true)
          ↔ ((mem id (discover x a c).pairs ≡ true) ⊎ Any (Registers x a.factories id) cs) =
        subst
          (λ fs.
            (mem id (discover_all x (discover x a c) cs).pairs ≡ true)
            ↔ ((mem id (discover x a c).pairs ≡ true) ⊎ Any (Registers x fs id) cs))
          (discover_factories a c) (discover_all_iff (discover x a c) cs id) in
      (
        λ m. elim (rest.0 m) [
          | inl k ↦ elim (one.0 k) [ inl l ↦ inl l | inr r ↦ inr (inl r) ]
          | inr r ↦ inr (inr r)
        ],
        λ o. elim o [
          | inl l ↦ rest.1 (inl (one.1 (inl l)))
          | inr (inl r) ↦ rest.1 (inl (one.1 (inr r)))
          | inr (inr r) ↦ rest.1 (inr r)
        ],
      )

  -- After a call an adapter knows as pairs exactly those that it knew before and those that one of
  -- its factories has registered in the changes of the call: a change whose key decodes to a value
  -- that is or starts with the symbol PairAddressesNIndexed and whose value decodes to an address.
  pub decode_state_discovers :
      (a : Adapter) (prior : Option LedgerState) (changes : List ContractDataChange) (seq : ℤ)
      (id : Str)
      → (mem id (decode_state x a prior changes seq).0.pairs ≡ true)
        ↔ ((mem id a.pairs ≡ true) ⊎ Any (Registers x a.factories id) changes)
  unfolding decode_state
  decode_state_discovers a prior changes seq id =
      discover_all_iff (record a { dirty = [] }) changes id
