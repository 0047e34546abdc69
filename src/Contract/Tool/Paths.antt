-- ===== src/Contract/Tool/Paths.antt =====
-- The paths of the files that a run computes.
use nautilus_agents.Base.{
  ℕ, ◌≡◌, refl, ap, ◌∙◌, List, [], ◌∷◌, ◌++◌, map, Result, ok, err, ◌>>=◌, inl, inr, Result-cases,
  list_eq, nat_eq,
}
use nautilus_agents.Text.{Text, codes}
use nautilus_agents.Protocol.Identity.{UuidCrate}
use nautilus_agents.Protocol.Canonical.{Canonicalizer, to_vec}
use nautilus_agents.Protocol.Observation.{ObservationDigest}
use nautilus_agents.Contract.Json.{Value}
use nautilus_agents.Contract.Asset.{Asset}
use nautilus_agents.Contract.Schemas.{Dto, schema_asset, schema_assets}
use nautilus_agents.Contract.Fixtures.{
  FixtureValue, fixture_assets, fixture_values, valid_fixture_assets,
}

abbrev pub schema_paths : List Text
schema_paths =
    map (λ file. codes "schema/" ++ file)
      (codes "agent-trace.schema.json"
        ∷ codes "decision-receipt.schema.json"
        ∷ codes "live-proposal-request.schema.json"
        ∷ codes "observation.schema.json"
        ∷ codes "proposal-response.schema.json"
        ∷ [])

-- The files of the valid fixtures, with their root types.
abbrev pub valid_table : List (Text × Text)
valid_table =
    (codes "full-live-observation.json", codes "Observation")
    ∷ (codes "redacted-observation.json", codes "Observation")
    ∷ (codes "reduce-position-request.json", codes "LiveProposalRequest")
    ∷ (codes "trace-no-proposal.json", codes "AgentTrace")
    ∷ (codes "trace-proposal.json", codes "AgentTrace")
    ∷ (codes "trace-timeout.json", codes "AgentTrace")
    ∷ (codes "trace-policy-failure.json", codes "AgentTrace")
    ∷ (codes "receipt-accepted.json", codes "DecisionReceipt")
    ∷ (codes "receipt-rejected.json", codes "DecisionReceipt")
    ∷ (codes "receipt-authorized.json", codes "DecisionReceipt")
    ∷ (codes "receipt-not-dispatched.json", codes "DecisionReceipt")
    ∷ (codes "receipt-dispatched.json", codes "DecisionReceipt")
    ∷ (codes "receipt-dispatch-unknown.json", codes "DecisionReceipt")
    ∷ (codes "receipt-completed.json", codes "DecisionReceipt")
    ∷ (codes "error-forbidden.json", codes "ProposalResponse")
    ∷ (codes "error-unsupported-version.json", codes "ProposalResponse")
    ∷ []

abbrev pub in_valid : Text → Text
in_valid file = codes "fixtures/valid/" ++ file

abbrev pub valid_paths : List Text
valid_paths = map (λ r. in_valid r.0) valid_table

abbrev pub located : Text × Text → Text × Text
located r = (in_valid r.0, r.1)

abbrev pub row_of : Asset → Text × Text
row_of a = (a.path, a.root_type)

abbrev name_of : Text × Text × Value → Text × Text
name_of v = (v.0, v.1)

paths_rows : (assets : List Asset) → map (λ a. a.path) assets ≡ map (λ r. r.0) (map row_of assets)
paths_rows [] = refl
paths_rows (a ∷ assets) = ap (λ ps. a.path ∷ ps) (paths_rows assets)

-- The value of a result, where it has one, satisfies `P`.
abbrev Holds : {A E : Type 0} → (A → Type 0) → Result A E → Type 0
Holds P (ok a) = P a
Holds P (err e) = Unit

bind-Holds :
    {A B E : Type 0} (P : B → Type 0) (k : A → Result B E) (m : Result A E)
    → ((a : A) → Holds P (k a))
    → Holds P (m >>= k)
bind-Holds P k (ok a) h = h a
bind-Holds P k (err e) h = tt

bind-path :
    {A B E : Type 0} (P : B → Type 0) (k : A → Result B E) (m : Result A E) (Q : A → Type 0)
    → Holds Q m
    → ((a : A) → Q a → Holds P (k a))
    → Holds P (m >>= k)
bind-path P k (ok a) Q q h = h a q
bind-path P k (err e) Q q h = tt

Holds-ok : {A E : Type 0} (P : A → Type 0) (m : Result A E) (a : A) → Holds P m → m ≡ ok a → P a
Holds-ok P m a h e = rw e at h

abbrev HasPath : Text → Asset → Type 0
HasPath file a = a.path ≡ codes "schema/" ++ file

module _ (schema_for : Dto → Result Value Text) (to_vec_pretty : Value → Result (List ℕ) Text) where
  schema_asset-path :
      (type : Dto) (file root_type : Text)
      → Holds (HasPath file) (schema_asset schema_for to_vec_pretty type file root_type)
  unfolding schema_asset
  schema_asset-path type file root_type = search bind-Holds

  schema_assets-Holds :
      Holds
        (λ assets. map (λ a. a.path) assets ≡ schema_paths)
        (schema_assets schema_for to_vec_pretty)
  unfolding schema_assets
  schema_assets-Holds =
      bind-path _ _ _ (HasPath (codes "agent-trace.schema.json"))
        (schema_asset-path Dto.agent_trace _ _)
        λ a p.
          bind-path _ _ _ (HasPath (codes "decision-receipt.schema.json"))
            (schema_asset-path Dto.decision_receipt _ _)
            λ b q.
              bind-path _ _ _ (HasPath (codes "live-proposal-request.schema.json"))
                (schema_asset-path Dto.live_proposal_request _ _)
                λ c r.
                  bind-path _ _ _ (HasPath (codes "observation.schema.json"))
                    (schema_asset-path Dto.observation _ _)
                    λ d s.
                      bind-path _ _ _ (HasPath (codes "proposal-response.schema.json"))
                        (schema_asset-path Dto.proposal_response _ _) λ e t. rw (p, q, r, s, t) refl

module _ (u : UuidCrate) (c : Canonicalizer ObservationDigest)
    (to_value : FixtureValue → Result Value Text) where
  fixture_values-Holds :
      Holds (λ values. map name_of values ≡ valid_table) (fixture_values u c to_value)
  unfolding fixture_values
  fixture_values-Holds = search bind-Holds depth 60

module _ (canonical : Canonicalizer Value) where
  fixture_assets-Holds :
      (values : List (Text × Text × Value))
      → Holds
          (λ assets. map row_of assets ≡ map located (map name_of values))
          (fixture_assets canonical values)
  unfolding fixture_assets
  fixture_assets-Holds [] = refl
  fixture_assets-Holds ((file, root_type, value) ∷ values) =
      let rest = fixture_assets-Holds values in
      elim (Result-cases (to_vec canonical value)) [
        | inr (x, e) ↦ rw e tt
        | inl (raw, e) ↦ elim (Result-cases (fixture_assets canonical values)) [
          | inr (x, k) ↦ rw (e, k) tt
          | inl (assets, k) ↦
              let same = rw k at rest in rw (e, k) (ap (λ rs. located (file, root_type) ∷ rs) same)
        ]
      ]

-- The schemas of every run have the same paths.
pub schema_assets-paths :
    (schema_for : Dto → Result Value Text) (to_vec_pretty : Value → Result (List ℕ) Text)
    (assets : List Asset)
    → schema_assets schema_for to_vec_pretty ≡ ok assets
    → map (λ a. a.path) assets ≡ schema_paths
schema_assets-paths schema_for to_vec_pretty assets h =
    Holds-ok (λ x. map (λ a. a.path) x ≡ schema_paths) (schema_assets schema_for to_vec_pretty)
      assets (schema_assets-Holds schema_for to_vec_pretty) h

-- The valid fixtures of every run have the same paths and root types.
pub valid_fixture_assets-table :
    (u : UuidCrate) (c : Canonicalizer ObservationDigest)
    (to_value : FixtureValue → Result Value Text) (canonical : Canonicalizer Value)
    (assets : List Asset)
    → valid_fixture_assets u c to_value canonical ≡ ok assets
    → map row_of assets ≡ map located valid_table
unfolding valid_fixture_assets
valid_fixture_assets-table u c to_value canonical assets h =
    elim (Result-cases (fixture_values u c to_value)) [
      | inr (x, e) ↦ absurd (cc (rw e at h))
      | inl (values, e) ↦
          let names =
            Holds-ok (λ vs. map name_of vs ≡ valid_table) _ values
              (fixture_values-Holds u c to_value) e in
          let rows =
            Holds-ok _ (fixture_assets canonical values) assets
              (fixture_assets-Holds canonical values) (rw e at h) in
          rows ∙ ap (map located) names
    ]

pub valid_fixture_assets-paths :
    (u : UuidCrate) (c : Canonicalizer ObservationDigest)
    (to_value : FixtureValue → Result Value Text) (canonical : Canonicalizer Value)
    (assets : List Asset)
    → valid_fixture_assets u c to_value canonical ≡ ok assets
    → map (λ a. a.path) assets ≡ valid_paths
valid_fixture_assets-paths u c to_value canonical assets h =
    paths_rows assets
    ∙ ap (map (λ r. r.0)) (valid_fixture_assets-table u c to_value canonical assets h)
