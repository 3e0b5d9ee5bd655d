-- ===== src/Client/Server.antt =====
-- What the profile controller relies on of the API server, as Kubernetes documents it, with the
-- cache that the client reads told from the server: what a write leaves on the server, while
-- nobody else writes. Nothing is assumed of how soon the cache shows a write.
use wto.Common.{String, ◌≡◌, ◌⊎◌, none, some, List}
use wto.Api.{Message, Error, Fetch, Pod, Result, ok, found, NamespacedName, WorkloadProfile}
use wto.Client.{EventType, Recorder, PlacementClient, ProfileClient, ResourceClaimTemplate}

-- A list under a JSON merge patch, which replaces a list as a whole: one that the patch does not
-- change stays as the server has it, and one that it changes is set.
pub record IsMerged {A : Type 0} (base new before after : A) : Type 0 where
  pub kept : new ≡ base → after ≡ before
  pub set : (after ≡ new) ⊎ (new ≡ base)

abbrev pub key_of_profile : {Q : Type 0} → WorkloadProfile Q → NamespacedName
key_of_profile profile = record { namespace = profile.namespace; name = profile.name }

abbrev pub key_of_template : ResourceClaimTemplate → NamespacedName
key_of_template rct = record { namespace = rct.namespace; name = rct.name }

-- The profile of the server after a status patch from `base` to `new`.
pub record IsPatched {Q : Type 0} (base new before after : WorkloadProfile Q) : Type 0 where
  pub same_name : after.name ≡ before.name
  pub same_namespace : after.namespace ≡ before.namespace
  pub same_spec : after.spec ≡ before.spec
  pub conditions :
      IsMerged base.status.conditions new.status.conditions before.status.conditions
        after.status.conditions
  -- an object, which is merged key by key: the result is the new one where the server has the base
  pub resolved_spec :
      before.status.resolved_spec ≡ base.status.resolved_spec
      → after.status.resolved_spec ≡ new.status.resolved_spec

pub record IsServer {Q W : Type 0} (client : ProfileClient Q W) : Type 1 where
  -- what the server has, whatever the cache of the client shows
  pub profiles : NamespacedName → W → Fetch (WorkloadProfile Q)
  pub templates : NamespacedName → W → Fetch ResourceClaimTemplate
  -- nobody but the controller has written since the server's state that the cache shows, and
  -- nobody else does during its next call
  pub IsQuiet : W → Type 0
  pub named :
      (key : NamespacedName) (profile : WorkloadProfile Q) (w : W)
      → profiles key w ≡ found profile
      → key_of_profile profile ≡ key
  -- an update that changes the finalizers alone, of a profile that is not being deleted
  pub updated :
      (profile profile' : WorkloadProfile Q) (finalizers : List String) (w w' : W)
      → IsQuiet w
      → profiles (key_of_profile profile) w ≡ found profile
      → profile.deletion_timestamp ≡ none
      → client.update_profile (record profile { finalizers = finalizers }) w ≡ (ok profile', w')
      → (profile' ≡ record profile { finalizers = finalizers })
        × (profiles (key_of_profile profile) w' ≡ found profile')
        × IsQuiet w'
  -- CreateOrUpdate leaves the object there, loses no other, and does not touch profiles
  pub synced :
      (rct : ResourceClaimTemplate) (f : ResourceClaimTemplate → Result ResourceClaimTemplate)
      (w w' : W)
      → IsQuiet w
      → client.create_or_update rct f w ≡ (none, w')
      → ((t : ResourceClaimTemplate) × (templates (key_of_template rct) w' ≡ found t))
        × ((key : NamespacedName) (t : ResourceClaimTemplate)
            → templates key w ≡ found t
            → (t' : ResourceClaimTemplate) × (templates key w' ≡ found t'))
        × ((key : NamespacedName) → profiles key w' ≡ profiles key w)
        × IsQuiet w'
  pub patched :
      (base new before : WorkloadProfile Q) (w w' : W)
      → IsQuiet w
      → profiles (key_of_profile base) w ≡ found before
      → client.patch_status base new w ≡ (none, w')
      → (after : WorkloadProfile Q) × (profiles (key_of_profile base) w' ≡ found after)
        × IsPatched base new before after
  pub patched_templates :
      (base new : WorkloadProfile Q) (w w' : W) (key : NamespacedName)
      → IsQuiet w
      → client.patch_status base new w ≡ (none, w')
      → templates key w' ≡ templates key w

-- For the placement controller, with a client that reads what was patched last: a pod that was
-- patched is read as patched, a patch that fails changes no pod, and neither does an event.
pub record IsPodServer {Q W : Type 0} (client : PlacementClient Q W) (recorder : Recorder W)
    : Type 0 where
  pub patched :
      (key : NamespacedName) (pod new : Pod Q) (w w' : W)
      → client.get_pod key w ≡ found pod
      → client.patch_pod pod new w ≡ (none, w')
      → client.get_pod key w' ≡ found new
  pub refused :
      (key : NamespacedName) (pod new : Pod Q) (e : Error) (w w' : W)
      → client.patch_pod pod new w ≡ (some e, w')
      → client.get_pod key w' ≡ client.get_pod key w
  pub recorded :
      (key object : NamespacedName) (kind : EventType) (reason : String) (text : Message) (w : W)
      → client.get_pod key (recorder.event object kind reason text w) ≡ client.get_pod key w
