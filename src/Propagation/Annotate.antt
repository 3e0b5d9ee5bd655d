-- ===== src/Propagation/Annotate.antt =====
-- internal/controller/propagation_controller.go: the two functions that write the annotation.
pub mod Idempotent
use wto.Common.{String, Bool, true, false, Option, none, some, List, [], ◌∷◌, if◌then◌else◌}
use wto.Common.Map.{Map, lookup, insert}
use wto.Common.Text.{concat, split_dots}
use wto.Webhook.Names.{profile_annotation}
use wto.Client.{Unstructured}
use wto.Profile.Nodes.{reads_as}

-- the map to write into: a nil map is made
abbrev pub existing_or_new : Option (Map String) → Map String
existing_or_new none = []
existing_or_new (some existing) = existing

-- `found`, and the annotation reads as the profile's name
abbrev pub is_annotated : Option (Map String) → String → Bool
is_annotated none profile_name = false
is_annotated (some existing) profile_name =
    reads_as (lookup profile_annotation existing) profile_name

module _ {Obj : Type 0} (access : Unstructured Obj) where
  -- `_ = SetNestedStringMap(…)`: the error is dropped
  abbrev pub set_or_same : Obj → Option Obj → Obj
  set_or_same u none = u
  set_or_same u (some u') = u'

  -- what both functions do with the fields of their path: the object, and `true` for a change
  unfoldable pub annotate : Obj → List String → String → Obj × Bool
  annotate u fields profile_name =
      let existing = access.nested_string_map u fields in
      if is_annotated existing profile_name then (u, false) else (
        set_or_same u (
            access.set_nested_string_map u
              (insert profile_annotation profile_name (existing_or_new existing)) fields),
        true,
      )

  -- propagateViaPodTemplatePath
  unfoldable pub propagate_via_pod_template_path : Obj → String → String → Obj × Bool
  unfolding annotate
  propagate_via_pod_template_path u template_path profile_name =
      annotate u (split_dots (concat (template_path ∷ ".metadata.annotations" ∷ []))) profile_name

  -- propagateViaAnnotationPath
  unfoldable pub propagate_via_annotation_path : Obj → String → String → Obj × Bool
  unfolding annotate
  propagate_via_annotation_path u path profile_name = annotate u (split_dots path) profile_name
