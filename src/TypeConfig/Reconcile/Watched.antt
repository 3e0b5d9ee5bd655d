-- ===== src/TypeConfig/Reconcile/Watched.antt =====
-- What is registered after a reconcile.
use wto.Common.{
  String, ◌≡◌, refl, Bool, true, false, Option, none, some, ◌==◌, arith, if◌then◌else◌,
}
use wto.Common.Map.{lookup}
use wto.Api.{
  Error, ok, found, not_found, NamespacedName, ReconcileResult, done, requeue_after,
  WorkloadTypeConfig,
}
use wto.Client.{PropagationClient, TypeClient}
use wto.Propagation.Registry.{Registry}
use wto.Propagation.Registry.Laws.{
  Registers, IsRegistered, register_gvk-Registers, deregister_gvk_lem,
}
use wto.TypeConfig.Reconcile.{
  gvk_of, check_crd_exists, finish_update, watch_done, crd_missing, with_crd, reconcile_fetched,
  reconcile,
}

module _ {Obj W : Type 0} (client : TypeClient W) (watches : PropagationClient Obj W) where
  finish_update-done :
      (result : ReconcileResult) (registry : Registry) (r : Option Error × W)
      → (finish_update client watches result registry r).0 ≡ ok done
      → (result ≡ done) × ((finish_update client watches result registry r).1.0 ≡ registry)
  unfolding finish_update
  finish_update-done result registry (some e, w) h = cc
  finish_update-done result registry (none, w) h = (ground arith, refl)

  finish_update-registry :
      (result : ReconcileResult) (registry : Registry) (r : Option Error × W)
      → (finish_update client watches result registry r).1.0 ≡ registry
  unfolding finish_update
  finish_update-registry result registry (some e, w) = refl
  finish_update-registry result registry (none, w) = refl

  watch_done-done :
      (wtc old : WorkloadTypeConfig) (registry : Registry) (r : Option Error × (Registry × W))
      → Registers old.name (gvk_of old) old.spec registry r
      → (watch_done client watches wtc r).0 ≡ ok done
      → IsRegistered old.name (gvk_of old) old.spec (watch_done client watches wtc r).1.0
  unfolding watch_done
  watch_done-done wtc old registry (some e, (registry', w)) kept h =
      let impossible : ⊥ =
        ground (arith, (finish_update-done (requeue_after 10) registry' _ h).0) in
      elim impossible [ ]
  watch_done-done wtc old registry (none, (registry', w)) (here, others) h =
      rw (finish_update-done done registry' _ h).1 here

  with_crd-done :
      (exists : Bool) (wtc : WorkloadTypeConfig) (registry : Registry) (w : W)
      → (with_crd client watches exists wtc registry w).0 ≡ ok done
      → (exists ≡ true)
        × IsRegistered wtc.name
            (gvk_of wtc)
            wtc.spec
            (with_crd client watches exists wtc registry w).1.0
  unfolding with_crd crd_missing
  with_crd-done false wtc registry w h =
      let impossible : ⊥ = ground (arith, (finish_update-done (requeue_after 30) registry _ h).0) in
      elim impossible [ ]
  with_crd-done true wtc registry w h = (
    refl,
    watch_done-done _ wtc registry _
        (register_gvk-Registers watches client.show_gvk wtc.name (gvk_of wtc) wtc.spec registry w).0
        h,
  )

  -- A reconcile of a configuration that exists ends well, without asking to be called again, only
  -- if discovery lists its resource, and then its kind and its spec are registered under its name.
  pub reconcile-done :
      (req : NamespacedName) (wtc : WorkloadTypeConfig) (registry : Registry) (w : W)
      → client.get_config req w ≡ found wtc
      → (reconcile client watches req registry w).0 ≡ ok done
      → (check_crd_exists client watches wtc w ≡ true)
        × IsRegistered wtc.name (gvk_of wtc) wtc.spec (reconcile client watches req registry w).1.0
  unfolding reconcile reconcile_fetched
  reconcile-done req wtc registry w fetched =
      rw (fetched, reconcile_fetched)
        (λ h. with_crd-done (check_crd_exists client watches wtc w) wtc registry w h)

  -- After a reconcile of a configuration that is gone its name is in neither map of the registry,
  -- and every other name reads as before.
  pub reconcile-not_found :
      (req : NamespacedName) (e : Error) (registry : Registry) (w : W) (name : String)
      → client.get_config req w ≡ not_found e
      → (lookup name (reconcile client watches req registry w).1.0.watched_gvks
          ≡ (if req.name == name then none else lookup name registry.watched_gvks))
        × (lookup name (reconcile client watches req registry w).1.0.config_specs
            ≡ (if req.name == name then none else lookup name registry.config_specs))
  unfolding reconcile reconcile_fetched
  reconcile-not_found req e registry w name gone =
      rw (gone, reconcile_fetched) (deregister_gvk_lem req.name name registry)
