-- ===== src/Defaults.antt =====
-- internal/defaults/workloadtypes.go: EnsureDefaults. An error inside the loop is only logged, as is
-- a configuration that its label does not mark as a default.
pub mod Kept
use wto.Common.{String, Bool, true, false, Option, none, some, List, [], ◌∷◌}
use wto.Common.Text.{concat}
use wto.Api.{
  Error, wrapped, Result, ok, err, Fetch, found, not_found, failed, NamespacedName,
  WorkloadTypeConfig,
}
use wto.Client.{DefaultsClient}

-- The key of a configuration, which has no namespace.
abbrev pub config_key : String → NamespacedName
config_key name = record { namespace = ""; name = name }

module _ {Raw W : Type 0} (client : DefaultsClient Raw W) where
  -- the configuration of a file, with the one that the cluster has
  create_missing : WorkloadTypeConfig → Fetch WorkloadTypeConfig → W → W
  create_missing wtc (not_found e) w = (client.create_config wtc w).1
  create_missing wtc (failed e) w = w
  create_missing wtc (found existing) w = w

  with_config : Result WorkloadTypeConfig → W → W
  with_config (err e) w = w
  with_config (ok wtc) w = create_missing wtc (client.get_config (config_key wtc.name) w) w

  with_data : Result Raw → W → W
  with_data (err e) w = w
  with_data (ok raw) w = with_config (client.unmarshal raw) w

  -- one round of the loop over the entries
  ensure_entry : String × Bool → W → W
  ensure_entry (name, true) w = w
  ensure_entry (name, false) w =
      with_data (client.read_file (concat ("workloadtypes/" ∷ name ∷ []))) w

  ensure_entries : List (String × Bool) → W → W
  ensure_entries [] w = w
  ensure_entries (entry ∷ entries) w = ensure_entries entries (ensure_entry entry w)

  with_entries : Result (List (String × Bool)) → W → Option Error × W
  with_entries (err e) w = (some (wrapped "reading embedded workloadtypes: %w" [] e), w)
  with_entries (ok entries) w = (none, ensure_entries entries w)

  -- EnsureDefaults
  unfoldable pub ensure_defaults : W → Option Error × W
  unfolding with_entries ensure_entries ensure_entry with_data with_config create_missing
  ensure_defaults w = with_entries client.read_dir w
