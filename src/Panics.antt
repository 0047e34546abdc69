-- ===== src/Panics.antt =====
-- What a failed `expect` or `unwrap` panics with in the fixtures and the examples, and an addition
-- beyond `u64`. A panic is an error of its kind.
use nautilus_agents.Base.{Result, map_err}
use nautilus_agents.Text.{Text}
use nautilus_agents.Value.Errors.{ValueError}
use nautilus_agents.Protocol.Identity as Identity
use nautilus_agents.Protocol.Identity.{IdentityError, UuidCrate, UuidIdentity}
use nautilus_agents.Protocol.Observation.{ObservationError}
use nautilus_agents.Protocol.Receipt.{ReceiptError}

pub data Panic : Type 0 where
  observation : ObservationError → Panic
  identity : IdentityError → Panic
  value : ValueError → Panic
  receipt : ReceiptError → Panic
  overflow : Panic

-- `parse` of testing.rs on an identity, and `ObservationId::parse(…).unwrap()`
unfoldable pub parse :
    (u : UuidCrate) {k : Identity.IdentityKind} → Text → Result (UuidIdentity k) Panic
parse u t = map_err identity (Identity.parse u t)
