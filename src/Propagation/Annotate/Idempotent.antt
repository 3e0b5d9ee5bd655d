-- ===== src/Propagation/Annotate/Idempotent.antt =====
-- A second propagation into the same place.
use wto.Common.{String, ◌≡◌, refl, true, false, some, List, eq_iff, arith, Bool-cases, inl, inr}
use wto.Common.Map.{Map, insert, lookup-insert}
use wto.Common.Text.{split_dots}
use wto.Webhook.Names.{profile_annotation}
use wto.Client.{Unstructured}
use wto.Propagation.Annotate.{
  existing_or_new, is_annotated, annotate, propagate_via_annotation_path,
}

-- The documented meaning of SetNestedStringMap: where it gives no error, NestedStringMap finds the
-- map that was set.
pub record IsStore {Obj : Type 0} (access : Unstructured Obj) : Type 0 where
  pub found_after_set :
      (u u' : Obj) (m : Map String) (fields : List String)
      → access.set_nested_string_map u m fields ≡ some u'
      → access.nested_string_map u' fields ≡ some m

inserted-is_annotated :
    (profile_name : String) (m : Map String)
    → is_annotated (some (insert profile_annotation profile_name m)) profile_name ≡ true
inserted-is_annotated profile_name m =
    rw (lookup-insert profile_annotation profile_annotation profile_name m) (
      ground
        (arith, eq_iff profile_annotation profile_annotation, eq_iff profile_name profile_name))

module _ {Obj : Type 0} (access : Unstructured Obj) (store : IsStore access) where
  pub annotate-is_annotated :
      (u u' : Obj) (fields : List String) (profile_name : String)
      → access.set_nested_string_map u
          (insert profile_annotation profile_name
            (existing_or_new (access.nested_string_map u fields)))
          fields
        ≡ some u'
      → is_annotated
          (access.nested_string_map (annotate access u fields profile_name).0 fields)
          profile_name
        ≡ true
  unfolding annotate
  annotate-is_annotated u u' fields profile_name set =
      elim (Bool-cases (is_annotated (access.nested_string_map u fields) profile_name)) [
        | inl there ↦ rw there there
        | inr missing ↦ rw missing (
            rw set (
              rw (store.found_after_set u u' _ fields set) (
                inserted-is_annotated profile_name
                  (existing_or_new (access.nested_string_map u fields)))))
      ]

  pub unchanged :
      (u : Obj) (fields : List String) (profile_name : String)
      → is_annotated (access.nested_string_map u fields) profile_name ≡ true
      → annotate access u fields profile_name ≡ (u, false)
  unfolding annotate
  unchanged u fields profile_name there = rw there refl

  -- Where a map that was set is found, and the annotations of a path can be set, propagating the
  -- profile's name there leaves an object into which propagating it again is no change.
  pub propagate_via_annotation_path_idempotent :
      (u u' : Obj) (path profile_name : String)
      → access.set_nested_string_map u
          (insert profile_annotation profile_name
            (existing_or_new (access.nested_string_map u (split_dots path))))
          (split_dots path)
        ≡ some u'
      → propagate_via_annotation_path access
          (propagate_via_annotation_path access u path profile_name).0
          path
          profile_name
        ≡ ((propagate_via_annotation_path access u path profile_name).0, false)
  unfolding propagate_via_annotation_path
  propagate_via_annotation_path_idempotent u u' path profile_name set =
      unchanged (annotate access u (split_dots path) profile_name).0 (split_dots path) profile_name
        (annotate-is_annotated u u' (split_dots path) profile_name set)
