-- ===== src/Protocol/Canonical.antt =====
-- src/protocol/canonical.rs. The canonical JSON serialiser (with the derived `Serialize`) and the
-- SHA-256 function are third-party code, and parameters.
use nautilus_agents.Base.{ℕ, List, Result, ok, ◌>>=◌, list_eq, nat_eq}
use nautilus_agents.Text.{Text}
use nautilus_agents.Value.Digest as Digest
use nautilus_agents.Value.Digest.{ContentDigest}

-- An error is given by its text.
pub record Canonicalizer (T : Type 0) : Type 0 where
  pub serialize : T → Result (List ℕ) Text
  pub digest : List ℕ → List ℕ

module _ {T : Type 0} (c : Canonicalizer T) where
  unfoldable pub to_vec : T → Result (List ℕ) Text
  to_vec value = c.serialize value

  unfoldable pub sha256_bytes : List ℕ → ContentDigest
  sha256_bytes raw = Digest.new (c.digest raw)

  unfoldable pub sha256 : T → Result ContentDigest Text
  unfolding to_vec sha256_bytes
  sha256 value = do raw ← to_vec value; ok (sha256_bytes raw)
