-- ===== src/Contract/Errors.antt =====
-- The errors of the tool. The source makes texts of them; here they are their parts. A panic ends the
-- tool as an error does.
use nautilus_agents.Base.{List}
use nautilus_agents.Text.{Text}
use nautilus_agents.Protocol.Identity.{IdentityError}
use nautilus_agents.Protocol.Receipt.{ReceiptError}
use nautilus_agents.Panics.{Panic}
use nautilus_agents.Contract.Repository.{FilePath, IoError}

-- `library` is the text of an error of `serde_json`, of `schemars` or of the canonicalizer.
pub data ToolError : Type 0 where
  failed_to_read failed_to_write : FilePath → IoError → ToolError
  failed_to_create : IoError → ToolError
  asset_differs : FilePath → ToolError
  unexpected_files : Text → List Text → List Text → ToolError
  not_an_object : Text → ToolError
  library : Text → ToolError
  invalid_identity : IdentityError → ToolError
  invalid_receipt : ReceiptError → ToolError
  unknown_mode : Text → ToolError
  panicked : Panic → ToolError
