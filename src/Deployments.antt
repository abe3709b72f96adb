-- ===== src/Deployments.antt =====
-- deployments.go: the table of deploy ledgers, which the host embeds and a TOML library parses; the
-- parsed rows are an argument.
use lidapters.Common.{
  ◌≡◌, refl, ◌∙◌, ◌↔◌, Bool, true, false, ◌&&◌, Option, none, some, List, [], ◌∷◌, ◌++◌,
  if◌then◌else◌, All, Bool-cases, inl, inr, ap, arith,
}
use lidapters.Common.Int.{ℤ}
use lidapters.Common.Str.{Str, eq_str}

pub record DeployPin : Type 0 where
  pub network : Str
  pub contract_id : Str
  pub role : Str
  pub deploy_ledger : Option ℤ
  pub source : Str
  pub notes : Str

-- Whether a row is that of a contract on a network.
abbrev pub is_row : Str → Str → DeployPin → Bool
is_row network id p = eq_str p.network network && eq_str p.contract_id id

-- `none` stands for 0 and false.
unfoldable pub deploy_ledger : List DeployPin → Str → Str → Option ℤ
deploy_ledger [] network id = none
deploy_ledger (p ∷ ps) network id =
    let rest = deploy_ledger ps network id in if is_row network id p then p.deploy_ledger else rest

-- The first row of the contract on the network: no row before it is, and it says `l`.
abbrev pub IsCurated : Str → Str → ℤ → List DeployPin → Type 0
IsCurated network id l pins =
    (front : List DeployPin) × (p : DeployPin) × (back : List DeployPin) × (pins
      ≡ front ++ p ∷ back)
    × All (λ q. is_row network id q ≡ false) front
    × (is_row network id p ≡ true)
    × (p.deploy_ledger ≡ some l)

module _ (network id : Str) where
  deploy_ledger-first :
      (front : List DeployPin) (p : DeployPin) (back : List DeployPin)
      → All (λ q. is_row network id q ≡ false) front
      → is_row network id p ≡ true
      → deploy_ledger (front ++ p ∷ back) network id ≡ p.deploy_ledger
  unfolding deploy_ledger
  deploy_ledger-first [] p back h e = rw (e, deploy_ledger) refl
  deploy_ledger-first (q ∷ front) p back h e =
      rw (h.0, deploy_ledger) (deploy_ledger-first front p back h.1 e)

  deploy_ledger-IsCurated :
      (l : ℤ) (pins : List DeployPin)
      → deploy_ledger pins network id ≡ some l
      → IsCurated network id l pins
  unfolding deploy_ledger
  deploy_ledger-IsCurated l [] h = cc
  deploy_ledger-IsCurated l (p ∷ ps) h = elim (Bool-cases (is_row network id p)) [
    | inl e ↦ ([], p, ps, refl, tt, e, ground arith)
    | inr e ↦
        let (front, q, back, s, none_before, m, v) = deploy_ledger-IsCurated l ps (ground arith) in
        (p ∷ front, q, back, ap (λ (t : List DeployPin). p ∷ t) s, (e, none_before), m, v)
  ]

  -- The look-up gives a ledger exactly if there is a row of that contract on that network and the
  -- first such row has this ledger; a later row does not stand in for a first one without a ledger.
  pub deploy_ledger_iff :
      (l : ℤ) (pins : List DeployPin)
      → (deploy_ledger pins network id ≡ some l) ↔ IsCurated network id l pins
  deploy_ledger_iff l pins = (
    deploy_ledger-IsCurated l pins,
    λ (front, p, back, s, none_before, m, v).
        rw s (deploy_ledger-first front p back none_before m ∙ v),
  )
