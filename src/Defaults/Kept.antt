-- ===== src/Defaults/Kept.antt =====
-- What EnsureDefaults leaves as it is.
use wto.Common.{String, ◌≡◌, refl, Bool, true, false, List, [], ◌∷◌}
use wto.Api.{Error, Result, ok, err, Fetch, found, not_found, failed, WorkloadTypeConfig}
use wto.Client.{DefaultsClient}
use wto.Defaults.{
  config_key, create_missing, with_config, with_data, ensure_entry, ensure_entries, with_entries,
  ensure_defaults,
}

-- A property of the cluster that the creation of a configuration keeps, where the cluster has none
-- of that name.
abbrev pub IsKeptByCreation : {Raw W : Type 0} → DefaultsClient Raw W → (W → Type 0) → Type 0
IsKeptByCreation {W = W} client P =
    (wtc : WorkloadTypeConfig) (e : Error) (w : W)
    → client.get_config (config_key wtc.name) w ≡ not_found e
    → P w
    → P (client.create_config wtc w).1

module _ {Raw W : Type 0} (client : DefaultsClient Raw W) (P : W → Type 0)
    (kept : IsKeptByCreation client P) where
  create_missing_keeps :
      (wtc : WorkloadTypeConfig) (got : Fetch WorkloadTypeConfig) (w : W)
      → client.get_config (config_key wtc.name) w ≡ got
      → P w
      → P (create_missing client wtc got w)
  unfolding create_missing
  create_missing_keeps wtc (not_found e) w got h = kept wtc e w got h
  create_missing_keeps wtc (failed e) w got h = h
  create_missing_keeps wtc (found existing) w got h = h

  with_config_keeps : (r : Result WorkloadTypeConfig) (w : W) → P w → P (with_config client r w)
  unfolding with_config
  with_config_keeps (err e) w h = h
  with_config_keeps (ok wtc) w h = create_missing_keeps wtc _ w refl h

  with_data_keeps : (r : Result Raw) (w : W) → P w → P (with_data client r w)
  unfolding with_data
  with_data_keeps (err e) w h = h
  with_data_keeps (ok raw) w h = with_config_keeps (client.unmarshal raw) w h

  ensure_entry_keeps : (entry : String × Bool) (w : W) → P w → P (ensure_entry client entry w)
  unfolding ensure_entry
  ensure_entry_keeps (name, true) w h = h
  ensure_entry_keeps (name, false) w h = with_data_keeps _ w h

  ensure_entries_keeps :
      (entries : List (String × Bool)) (w : W) → P w → P (ensure_entries client entries w)
  unfolding ensure_entries
  ensure_entries_keeps [] w h = h
  ensure_entries_keeps (entry ∷ entries) w h =
      ensure_entries_keeps entries (ensure_entry client entry w) (ensure_entry_keeps entry w h)

  with_entries_keeps :
      (r : Result (List (String × Bool))) (w : W) → P w → P (with_entries client r w).1
  unfolding with_entries
  with_entries_keeps (err e) w h = h
  with_entries_keeps (ok entries) w h = ensure_entries_keeps entries w h

  -- A property of the cluster that the creation of a configuration keeps wherever the cluster has
  -- none of its name is kept by EnsureDefaults.
  pub ensure_defaults_keeps : (w : W) → P w → P (ensure_defaults client w).1
  unfolding ensure_defaults
  ensure_defaults_keeps w h = with_entries_keeps client.read_dir w h
