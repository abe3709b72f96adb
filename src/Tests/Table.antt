-- ===== src/Tests/Table.antt =====
-- The table of deploy ledgers, applied to a curated row behind a row of another network.
use lidapters.Common.{◌≡◌, ◌↔◌, Option, some, List, [], ◌∷◌}
use lidapters.Common.Int.{ℤ, pos}
use lidapters.Common.Str.{Str, lit}
use lidapters.Deployments.{DeployPin, IsCurated, deploy_ledger, deploy_ledger_iff}

abbrev row : Str → Option ℤ → DeployPin
row network ledger = record {
  network = network;
  contract_id = lit "P";
  role = lit "pair";
  deploy_ledger = ledger;
  source = [];
  notes = [];
}

abbrev table : List DeployPin
table = row (lit "testnet") (some (pos 3)) ∷ row (lit "pubnet") (some (pos 50)) ∷ []

deploy_ledger_iff_example :
    (deploy_ledger table (lit "pubnet") (lit "P") ≡ some (pos 50))
    ↔ IsCurated (lit "pubnet") (lit "P") (pos 50) table
deploy_ledger_iff_example = deploy_ledger_iff (lit "pubnet") (lit "P") (pos 50) table
