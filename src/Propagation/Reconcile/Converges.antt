-- ===== src/Propagation/Reconcile/Converges.antt =====
-- The update that a reconcile writes is the last: its event leads to no other.
use wto.Common.{
  String, ◌≡◌, refl, ◌∙◌, ap, Bool, true, false, ◌||◌, Option, none, some, List, [], ◌∷◌, ◌++◌,
  ◌==◌, map, All, Bool-cases, inl, inr, if◌then◌else◌,
}
use wto.Common.Map.{Map, lookup, insert}
use wto.Common.Text.{concat, split_dots}
use wto.Api.{found, ok, done, WorkloadTypeConfigSpec}
use wto.Webhook.Names.{profile_annotation}
use wto.Client.{Unstructured, PropagationClient}
use wto.Propagation.Annotate.{
  existing_or_new, is_annotated, annotate, propagate_via_pod_template_path,
  propagate_via_annotation_path,
}
use wto.Propagation.Annotate.Idempotent.{IsStore, annotate-is_annotated, unchanged}
use wto.Propagation.Reconcile.{
  propagate_all, propagate_template, propagate, write_changed, propagate_named, propagate_fetched,
}

-- The paths part ways: neither runs through the other.
abbrev pub apart : List String → List String → Bool
apart [] g = false
apart (x ∷ f) [] = false
apart (x ∷ f) (y ∷ g) = if x == y then apart f g else true

abbrev pub AllApart : List (List String) → Type 0
AllApart [] = Unit
AllApart (f ∷ fs) = All (λ g. apart g f ≡ true) fs × AllApart fs

abbrev template_fields : Option String → List (List String)
template_fields none = []
template_fields (some path) = split_dots (concat (path ∷ ".metadata.annotations" ∷ [])) ∷ []

-- The paths that a propagation writes to.
abbrev pub fields_of : WorkloadTypeConfigSpec → List (List String)
fields_of spec = template_fields spec.pod_template_path ++ map split_dots spec.annotation_paths

module _ {Obj : Type 0} (access : Unstructured Obj) where
  -- What SetNestedStringMap does to the other paths.
  pub record IsTree : Type 0 where
    pub store : IsStore access
    pub others :
        (u u' : Obj) (m : Map String) (f g : List String)
        → access.set_nested_string_map u m f ≡ some u'
        → apart f g ≡ true
        → access.nested_string_map u' g ≡ access.nested_string_map u g

  -- A path can be set in the objects of a kind, and gives one of them.
  abbrev pub Settable : (Obj → Type 0) → List String → Type 0
  Settable Good f =
      (u : Obj) (m : Map String)
      → Good u
      → (u' : Obj) × (access.set_nested_string_map u m f ≡ some u') × Good u'

  annotate_all : List (List String) → String → Obj × Bool → Obj × Bool
  annotate_all [] name (u, changed) = (u, changed)
  annotate_all (f ∷ fs) name (u, changed) =
      let (u', changed') = annotate access u f name in
      annotate_all fs name (u', changed || changed')

  propagate_all-annotate_all :
      (paths : List String) (name : String) (u : Obj) (changed : Bool)
      → propagate_all access paths name (u, changed)
        ≡ annotate_all (map split_dots paths) name (u, changed)
  unfolding propagate_all annotate_all propagate_via_annotation_path
  propagate_all-annotate_all [] name u changed = refl
  propagate_all-annotate_all (p ∷ ps) name u changed = propagate_all-annotate_all ps name _ _

  propagate-annotate_all :
      (spec : WorkloadTypeConfigSpec) (u : Obj) (name : String)
      → propagate access spec u name ≡ annotate_all (fields_of spec) name (u, false)
  unfolding propagate propagate_template propagate_via_pod_template_path annotate_all
  propagate-annotate_all spec u name = by_template spec.pod_template_path
    where
      by_template :
          (t : Option String)
          → propagate_all access spec.annotation_paths name (propagate_template access t u name)
            ≡ annotate_all
                (template_fields t ++ map split_dots spec.annotation_paths)
                name
                (u, false)
      by_template none = propagate_all-annotate_all spec.annotation_paths name u false
      by_template (some path) = propagate_all-annotate_all spec.annotation_paths name _ _

  module _ (tree : IsTree) (Good : Obj → Type 0) (name : String) where
    -- One write: the kind of the object, and what the other paths read.
    annotate_kept :
        (f : List String) (u : Obj)
        → Settable Good f
        → Good u
        → Good (annotate access u f name).0
          × ((g : List String)
              → apart f g ≡ true
              → access.nested_string_map (annotate access u f name).0 g
                ≡ access.nested_string_map u g)
    unfolding annotate
    annotate_kept f u settable good =
        elim (Bool-cases (is_annotated (access.nested_string_map u f) name)) [
          | inl there ↦ rw there (good, λ g away. refl)
          | inr missing ↦
              let (u', set, good') =
                settable u
                  (insert profile_annotation name (existing_or_new (access.nested_string_map u f)))
                  good in
              rw missing (rw set (good', λ g away. tree.others u u' _ f g set away))
        ]

    annotate_all_kept :
        (fs : List (List String)) (u : Obj) (changed : Bool) (g : List String)
        → All (Settable Good) fs
        → Good u
        → All (λ f. apart f g ≡ true) fs
        → access.nested_string_map (annotate_all fs name (u, changed)).0 g
          ≡ access.nested_string_map u g
    unfolding annotate_all
    annotate_all_kept [] u changed g settable good away = refl
    annotate_all_kept (f ∷ fs) u changed g (s, settable) good (a, away) =
        let (good', kept) = annotate_kept f u s good in
        annotate_all_kept fs _ _ g settable good' away ∙ kept g a

    annotate_all_done :
        (fs : List (List String)) (u : Obj) (changed : Bool)
        → All (Settable Good) fs
        → Good u
        → AllApart fs
        → All
            (λ f.
              is_annotated (access.nested_string_map (annotate_all fs name (u, changed)).0 f) name
              ≡ true)
            fs
    unfolding annotate_all
    annotate_all_done [] u changed settable good away = tt
    annotate_all_done (f ∷ fs) u changed (s, settable) good (a, away) =
        let (good', kept) = annotate_kept f u s good in
        let (u', set, _) = s u _ good in
        (
          ap (λ m. is_annotated m name) (annotate_all_kept fs _ _ f settable good' a)
              ∙ annotate-is_annotated access tree.store u u' f name set,
          annotate_all_done fs _ _ settable good' away,
        )

  annotate_all_unchanged :
      (store : IsStore access) (fs : List (List String)) (u : Obj) (name : String)
      → All (λ f. is_annotated (access.nested_string_map u f) name ≡ true) fs
      → annotate_all fs name (u, false) ≡ (u, false)
  unfolding annotate_all
  annotate_all_unchanged store [] u name h = refl
  annotate_all_unchanged store (f ∷ fs) u name (here, h) =
      rw (unchanged access store u f name here) (annotate_all_unchanged store fs u name h)

  -- Where the paths of a configuration part ways and can be set, and a write at a path is read
  -- there and leaves the others alone, propagating a profile's name a second time is no change; so
  -- a reconcile of the object as it was written, if it names the profile still, ends without a
  -- write.
  pub propagate_fetched_converges :
      {W : Type 0} (client : PropagationClient Obj W) (tree : IsTree) (Good : Obj → Type 0)
      (spec : WorkloadTypeConfigSpec) (u : Obj) (name : String) (w : W)
      → All (Settable Good) (fields_of spec)
      → AllApart (fields_of spec)
      → Good u
      → lookup profile_annotation (access.annotations (propagate access spec u name).0) ≡ some name
      → (propagate access spec (propagate access spec u name).0 name
          ≡ ((propagate access spec u name).0, false))
        × (propagate_fetched access client spec (found (propagate access spec u name).0) w
            ≡ (ok done, w))
  unfolding propagate_fetched
  propagate_fetched_converges client tree Good spec u name w settable away good named =
      (again, rw (named, propagate_named) (rw (again, write_changed) refl))
    where
      again :
          propagate access spec (propagate access spec u name).0 name
          ≡ ((propagate access spec u name).0, false)
      again =
          rw (propagate-annotate_all spec u name, propagate-annotate_all spec)
            (annotate_all_unchanged tree.store (fields_of spec) _ name
              (annotate_all_done tree Good name (fields_of spec) u false settable good away))
