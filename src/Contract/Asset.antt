-- ===== src/Contract/Asset.antt =====
-- A generated file of the contract: `Asset`.
use nautilus_agents.Base.{ℕ, List}
use nautilus_agents.Text.{Text}

pub record Asset : Type 0 where
  pub path : Text
  pub root_type : Text
  pub bytes : List ℕ
