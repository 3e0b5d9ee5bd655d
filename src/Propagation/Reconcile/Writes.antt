-- ===== src/Propagation/Reconcile/Writes.antt =====
-- What a reconcile may write.
use wto.Common.{
  String, ◌≡◌, refl, ◌⊎◌, inl, inr, Bool, true, false, Option, none, some, List, [], ◌∷◌,
}
use wto.Common.Map.{lookup}
use wto.Common.Text.{split_slash}
use wto.Api.{Error, Fetch, found, not_found, failed, NamespacedName, WorkloadTypeConfigSpec}
use wto.Webhook.Names.{profile_annotation}
use wto.Client.{GroupVersionKind, Unstructured, PropagationClient}
use wto.Propagation.Registry.{Registry}
use wto.Propagation.Reconcile.{
  propagate, updated, write_changed, propagate_named, propagate_fetched, unless_native, with_config,
  with_parts, reconcile,
}

-- The object that a request names.
abbrev pub key_of : NamespacedName → String → NamespacedName
key_of req obj_name = record { namespace = req.namespace; name = obj_name }

module _ {Obj W : Type 0} (access : Unstructured Obj) (client : PropagationClient Obj W) where
  -- One update of an object that was read: it names a profile, its configuration is registered
  -- without native propagation, and propagating the name reports a change.
  pub record IsPropagation (registry : Registry) (req : NamespacedName) (w : W) (w' : W)
      : Type 0 where
    pub config_name : String
    pub obj_name : String
    pub parts : split_slash req.name ≡ config_name ∷ obj_name ∷ []
    pub gvk : GroupVersionKind
    pub watched : lookup config_name registry.watched_gvks ≡ some gvk
    pub spec : WorkloadTypeConfigSpec
    pub configured : lookup config_name registry.config_specs ≡ some spec
    pub not_native : spec.native_propagation ≡ false
    pub obj : Obj
    pub fetched : client.get_object gvk (key_of req obj_name) w ≡ found obj
    pub profile_name : String
    pub named : lookup profile_annotation (access.annotations obj) ≡ some profile_name
    pub new : Obj
    pub changed : propagate access spec obj profile_name ≡ (new, true)
    pub written : w' ≡ (client.update_object new w).1

  updated-world : (r : Option Error × W) → (updated access client r).1 ≡ r.1
  unfolding updated
  updated-world (some e, w) = refl
  updated-world (none, w) = refl

  -- What a reconcile does with the object it has read.
  abbrev Propagates : WorkloadTypeConfigSpec → Fetch Obj → W → W → Type 0
  Propagates spec got w w' =
      (w' ≡ w)
      ⊎ ((obj : Obj) × (got ≡ found obj)
          × (profile_name : String) × (lookup profile_annotation (access.annotations obj)
              ≡ some profile_name)
          × (new : Obj) × (propagate access spec obj profile_name ≡ (new, true))
          × (w' ≡ (client.update_object new w).1))

  write_changed-cases :
      (r : Obj × Bool) (w : W)
      → ((write_changed access client r w).1 ≡ w)
        ⊎ ((new : Obj) × (r ≡ (new, true))
            × ((write_changed access client r w).1 ≡ (client.update_object new w).1))
  unfolding write_changed
  write_changed-cases (u, false) w = inl refl
  write_changed-cases (u, true) w = inr (u, refl, updated-world (client.update_object u w))

  propagate_found :
      (spec : WorkloadTypeConfigSpec) (obj : Obj) (o : Option String) (w : W)
      → lookup profile_annotation (access.annotations obj) ≡ o
      → Propagates spec (found obj) w (propagate_named access client spec obj o w).1
  unfolding propagate_named
  propagate_found spec obj none w named = inl refl
  propagate_found spec obj (some name) w named =
      (add_object (write_changed-cases (propagate access spec obj name) w))
    where
      add_object :
          {w' : W}
          → (w' ≡ w)
            ⊎ ((new : Obj) × (propagate access spec obj name ≡ (new, true))
                × (w' ≡ (client.update_object new w).1))
          → Propagates spec (found obj) w w'
      add_object (inl same) = inl same
      add_object (inr (new, changed, written)) = inr (obj, refl, name, named, new, changed, written)

  propagate_fetched-Propagates :
      (spec : WorkloadTypeConfigSpec) (got : Fetch Obj) (w : W)
      → Propagates spec got w (propagate_fetched access client spec got w).1
  unfolding propagate_fetched
  propagate_fetched-Propagates spec (not_found e) w = inl refl
  propagate_fetched-Propagates spec (failed e) w = inl refl
  propagate_fetched-Propagates spec (found obj) w = propagate_found spec obj _ w refl

  unless_native_cases :
      (registry : Registry) (req : NamespacedName) (config_name obj_name : String) (native : Bool)
      (gvk : GroupVersionKind) (spec : WorkloadTypeConfigSpec) (w : W)
      → split_slash req.name ≡ config_name ∷ obj_name ∷ []
      → lookup config_name registry.watched_gvks ≡ some gvk
      → lookup config_name registry.config_specs ≡ some spec
      → spec.native_propagation ≡ native
      → ((unless_native access client native (key_of req obj_name) gvk spec w).1 ≡ w)
        ⊎ IsPropagation registry req w
            (unless_native access client native (key_of req obj_name) gvk spec w).1
  unfolding unless_native
  unless_native_cases registry req config_name obj_name true gvk spec w parts watched configured n =
      inl refl
  unless_native_cases registry req config_name obj_name false gvk spec w parts watched configured
        n =
      add_config
        (propagate_fetched-Propagates spec (client.get_object gvk (key_of req obj_name) w) w)
    where
      add_config :
          {w' : W}
          → Propagates spec (client.get_object gvk (key_of req obj_name) w) w w'
          → (w' ≡ w) ⊎ IsPropagation registry req w w'
      add_config (inl same) = inl same
      add_config (inr (obj, fetched, name, named, new, changed, written)) = inr (record {
        config_name = config_name;
        obj_name = obj_name;
        parts = parts;
        gvk = gvk;
        watched = watched;
        spec = spec;
        configured = configured;
        not_native = n;
        obj = obj;
        fetched = fetched;
        profile_name = name;
        named = named;
        new = new;
        changed = changed;
        written = written;
      })

  with_config_cases :
      (registry : Registry) (req : NamespacedName) (config_name obj_name : String)
      (gvk : Option GroupVersionKind) (spec : Option WorkloadTypeConfigSpec) (w : W)
      → split_slash req.name ≡ config_name ∷ obj_name ∷ []
      → lookup config_name registry.watched_gvks ≡ gvk
      → lookup config_name registry.config_specs ≡ spec
      → ((with_config access client (key_of req obj_name) gvk spec w).1 ≡ w)
        ⊎ IsPropagation registry req w
            (with_config access client (key_of req obj_name) gvk spec w).1
  unfolding with_config
  with_config_cases registry req c o none none w parts watched configured = inl refl
  with_config_cases registry req c o none (some spec) w parts watched configured = inl refl
  with_config_cases registry req c o (some gvk) none w parts watched configured = inl refl
  with_config_cases registry req c o (some gvk) (some spec) w parts watched configured =
      unless_native_cases registry req c o spec.native_propagation gvk spec w parts watched
        configured refl

  with_parts_cases :
      (registry : Registry) (req : NamespacedName) (parts : List String) (w : W)
      → split_slash req.name ≡ parts
      → ((with_parts access client registry req.namespace parts w).1 ≡ w)
        ⊎ IsPropagation registry req w (with_parts access client registry req.namespace parts w).1
  unfolding with_parts
  with_parts_cases registry req [] w split = inl refl
  with_parts_cases registry req (a ∷ []) w split = inl refl
  with_parts_cases registry req (a ∷ b ∷ []) w split =
      with_config_cases registry req a b _ _ w split refl refl
  with_parts_cases registry req (a ∷ b ∷ c ∷ rest) w split = inl refl

  -- A reconcile writes nothing, or it makes one update, of the object that the request names, and
  -- only if that object names a profile, its configuration is registered without native
  -- propagation, and propagating the profile's name reports a change; it writes the object that
  -- propagating gives.
  pub reconcile-IsPropagation :
      (registry : Registry) (req : NamespacedName) (w : W)
      → ((reconcile access client registry req w).1 ≡ w)
        ⊎ IsPropagation registry req w (reconcile access client registry req w).1
  unfolding reconcile
  reconcile-IsPropagation registry req w =
      with_parts_cases registry req (split_slash req.name) w refl
