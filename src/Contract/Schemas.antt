-- ===== src/Contract/Schemas.antt =====
-- The published schemas: `schema_assets`. `schemars` and `serde_json` are parameters: the schema of a
-- type as a value, and the pretty print of a value.
use nautilus_agents.Base.{
  ℕ, List, [], ◌∷◌, ◌++◌, if◌then◌else◌, Result, ok, err, ◌>>=◌, map_err, ◌==◌, list_eq, nat_eq,
}
use nautilus_agents.Base.{text_order}
use nautilus_agents.Text.{Text, codes}
use nautilus_agents.Contract.Json.{
  Value, Members, null, boolean, number, string, array, object, end, member,
}
use nautilus_agents.Contract.Asset.{Asset}
use nautilus_agents.Contract.Errors.{ToolError, library, not_an_object}

-- The types that have a schema.
pub data Dto : Type 0 where
  agent_trace decision_receipt live_proposal_request observation proposal_response : Dto

-- `Map::insert`, its result dropped. The map is a `BTreeMap`.
unfoldable pub insert_member : Text → Value → Members → Members
insert_member key v end = member key v end
insert_member key v (member k w ms) =
    let rest = insert_member key v ms in
    if key == k
    then member k v ms
    else if text_order.less key k
    then member key v (member k w ms)
    else member k w rest

module _ {T : Type 0} (to_vec_pretty : T → Result (List ℕ) Text) where
  unfoldable pub pretty_json : T → Result (List ℕ) ToolError
  pretty_json v = do raw ← map_err library (to_vec_pretty v); ok (raw ++ b'\n' ∷ [])

-- `as_object_mut` and what it changes
abbrev pub with_id : Text → Text → Value → Result Value ToolError
with_id file root_type (object ms) = ok (
    object (
      insert_member (codes "$id")
        (string (codes "https://schemas.nautilustrader.io/agents/v1/" ++ file)) ms))
with_id file root_type (array vs) = err (not_an_object root_type)
with_id file root_type null = err (not_an_object root_type)
with_id file root_type (boolean b) = err (not_an_object root_type)
with_id file root_type (number n) = err (not_an_object root_type)
with_id file root_type (string t) = err (not_an_object root_type)

module _ (schema_for : Dto → Result Value Text) (to_vec_pretty : Value → Result (List ℕ) Text) where
  unfoldable pub schema_asset : Dto → Text → Text → Result Asset ToolError
  unfolding insert_member pretty_json
  schema_asset type file root_type = do
    value ← map_err library (schema_for type)
    changed ← with_id file root_type value
    raw ← pretty_json to_vec_pretty changed
    ok (record { path = codes "schema/" ++ file; root_type = root_type; bytes = raw })

  unfoldable pub schema_assets : Result (List Asset) ToolError
  unfolding schema_asset
  schema_assets = do
    a ← schema_asset agent_trace (codes "agent-trace.schema.json") (codes "AgentTrace")
    b ←
        schema_asset decision_receipt (codes "decision-receipt.schema.json")
          (codes "DecisionReceipt")
    c ←
        schema_asset live_proposal_request (codes "live-proposal-request.schema.json")
          (codes "LiveProposalRequest")
    d ← schema_asset observation (codes "observation.schema.json") (codes "Observation")
    e ←
        schema_asset proposal_response (codes "proposal-response.schema.json")
          (codes "ProposalResponse")
    ok (a ∷ b ∷ c ∷ d ∷ e ∷ [])
