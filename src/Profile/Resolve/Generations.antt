-- ===== src/Profile/Resolve/Generations.antt =====
-- Which writes resolveSpec makes.
use wto.Common.{String, ◌≡◌, refl, Bool, true, false, Option, none, some}
use wto.Api.{
  Message, Error, Result, ok, err, Fetch, found, not_found, failed, NamespacedName, Namespace,
  LabelSelector, WorkloadProfile, WorkloadProfileTemplate,
}
use wto.Client.{EventType, Recorder, ProfileClient, ResourceClaimTemplate}
use wto.Profile.Resolve.{
  wait, finish, with_match, with_namespace, with_selector, with_template, resolve_ref, resolve_spec,
}

-- A status that differs neither in the generations nor in what no reconcile writes.
pub record SameGenerations {Q : Type 0} (base new : WorkloadProfile Q) : Type 0 where
  pub template_generation : new.status.template_generation ≡ base.status.template_generation
  pub resolved_generation : new.status.resolved_generation ≡ base.status.resolved_generation

-- A property of the cluster that every write keeps but a status patch which changes a generation.
pub record IsKept {Q W : Type 0} (client : ProfileClient Q W) (recorder : Recorder W)
    (P : W → Type 0) : Type 0 where
  pub update_keeps :
      (profile : WorkloadProfile Q) (w : W) → P w → P (client.update_profile profile w).1
  pub patch_keeps :
      (base new : WorkloadProfile Q) (w : W)
      → SameGenerations base new
      → P w
      → P (client.patch_status base new w).1
  pub sync_keeps :
      (rct : ResourceClaimTemplate) (f : ResourceClaimTemplate → Result ResourceClaimTemplate)
      (w : W)
      → P w
      → P (client.create_or_update rct f w).1
  pub event_keeps :
      (key : NamespacedName) (kind : EventType) (reason : String) (text : Message) (w : W)
      → P w
      → P (recorder.event key kind reason text w)

module _ {Q W : Type 0} (client : ProfileClient Q W) (recorder : Recorder W) (P : W → Type 0)
    (kept : IsKept client recorder P) where
  wait_keeps : (context : String) (r : Option Error × W) → P r.1 → P (wait client context r).1
  unfolding wait
  wait_keeps context (some e, w) h = h
  wait_keeps context (none, w) h = h

  with_match_keeps :
      (base : WorkloadProfile Q) (template : WorkloadProfileTemplate Q)
      (profile : WorkloadProfile Q) (name : String) (answer : Result Bool) (w : W)
      → SameGenerations base profile
      → P w
      → P (with_match client base template profile name answer w).1
  unfolding resolve_spec
  with_match_keeps base template profile name (err e) w same h = h
  with_match_keeps base template profile name (ok true) w same h = h
  with_match_keeps base template profile name (ok false) w same h =
      wait_keeps _ (client.patch_status base _ w) (
        kept.patch_keeps base _ w
          (record {
            template_generation = same.template_generation;
            resolved_generation = same.resolved_generation;
          })
          h)

  with_namespace_keeps :
      (base : WorkloadProfile Q) (template : WorkloadProfileTemplate Q)
      (profile : WorkloadProfile Q) (name : String) (selector : LabelSelector)
      (got : Fetch Namespace) (w : W)
      → SameGenerations base profile
      → P w
      → P (with_namespace client base template profile name selector got w).1
  unfolding with_namespace
  with_namespace_keeps base template profile name selector (found ns) w same h =
      with_match_keeps base template profile name _ w same h
  with_namespace_keeps base template profile name selector (not_found e) w same h = h
  with_namespace_keeps base template profile name selector (failed e) w same h = h

  with_selector_keeps :
      (base : WorkloadProfile Q) (template : WorkloadProfileTemplate Q)
      (profile : WorkloadProfile Q) (name : String) (o : Option LabelSelector) (w : W)
      → SameGenerations base profile
      → P w
      → P (with_selector client base template profile name o w).1
  unfolding with_selector finish
  with_selector_keeps base template profile name none w same h = h
  with_selector_keeps base template profile name (some selector) w same h =
      with_namespace_keeps base template profile name selector _ w same h

  with_template_keeps :
      (profile : WorkloadProfile Q) (name : String) (got : Fetch (WorkloadProfileTemplate Q))
      (w : W)
      → P w
      → P (with_template client profile name got w).1
  unfolding resolve_spec
  with_template_keeps profile name (not_found e) w h =
      wait_keeps _ (client.patch_status profile _ w) (
        kept.patch_keeps profile _ w
          (record { template_generation = refl; resolved_generation = refl }) h)
  with_template_keeps profile name (failed e) w h = h
  with_template_keeps profile name (found template) w h =
      with_selector_keeps profile template _ name template.spec.namespace_selector w
        (record { template_generation = refl; resolved_generation = refl }) h

  resolve_ref_keeps :
      (profile : WorkloadProfile Q) (ref : Option String) (w : W)
      → P w
      → P (resolve_ref client profile ref w).1
  unfolding resolve_ref
  resolve_ref_keeps profile none w h = h
  resolve_ref_keeps profile (some name) w h = with_template_keeps profile name _ w h

  pub resolve_spec_keeps :
      (profile : WorkloadProfile Q) (w : W) → P w → P (resolve_spec client profile w).1
  unfolding resolve_spec
  resolve_spec_keeps profile w h = resolve_ref_keeps profile profile.spec.template_ref w h
