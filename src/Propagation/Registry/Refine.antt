-- ===== src/Propagation/Registry/Refine.antt =====
-- The two maps against one table.
use wto.Common.{
  String, ◌≡◌, refl, sym, ◌∙◌, ap, Option, none, some, List, [], ◌∷◌, ◌==◌, eq_iff, arith, is_some,
  Bool-cases, inl, inr, if◌then◌else◌,
}
use wto.Common.Map.{lookup}
use wto.Api.{Arg, Error, wrapped, WorkloadTypeConfigSpec}
use wto.Client.{GroupVersionKind, PropagationClient}
use wto.Propagation.Registry.{Registry, is_watched, finish_watch, deregister_gvk, register_gvk}
use wto.Propagation.Registry.Laws.{
  IsConsistent, Registers, deregister_gvk_lem, finish_watch-Registers, register_gvk-Registers,
}
use wto.Propagation.Registry.Reachable.{deregister_gvk-IsConsistent, Registers-IsConsistent}

-- What is registered under each name.
abbrev pub Table : Type 0
Table = String → Option (GroupVersionKind × WorkloadTypeConfigSpec)

abbrev pub entry_of :
    Option GroupVersionKind
    → Option WorkloadTypeConfigSpec
    → Option (GroupVersionKind × WorkloadTypeConfigSpec)
entry_of none spec = none
entry_of (some gvk) none = none
entry_of (some gvk) (some spec) = some (gvk, spec)

-- The table that a registry stands for.
abbrev pub view : Registry → Table
view registry name =
    entry_of (lookup name registry.watched_gvks) (lookup name registry.config_specs)

abbrev pub written : String → Option (GroupVersionKind × WorkloadTypeConfigSpec) → Table → Table
written name entry table asked = if name == asked then entry else table asked

abbrev pub kind_of : Option (GroupVersionKind × WorkloadTypeConfigSpec) → Option GroupVersionKind
kind_of none = none
kind_of (some (gvk, spec)) = some gvk

-- The calls of the workload type controller.
pub data Call : Type 0 where
  register : String → GroupVersionKind → WorkloadTypeConfigSpec → Call
  deregister : String → Call

module _ {Obj W : Type 0} (client : PropagationClient Obj W)
    (show_gvk : GroupVersionKind → String) where
  -- A call on the maps: its error, the maps and the cluster after it.
  abbrev pub call : Call → Registry → W → Option Error × (Registry × W)
  call (register name gvk spec) registry w = register_gvk client show_gvk name gvk spec registry w
  call (deregister name) registry w = (none, (deregister_gvk name registry, w))

  abbrev after_watch :
      String
      → GroupVersionKind
      → WorkloadTypeConfigSpec
      → Table
      → Option Error × W
      → Option Error × (Table × W)
  after_watch name gvk spec table (some e, w) =
      (some (wrapped "registering watch for %s: %w" (Arg.s (show_gvk gvk) ∷ []) e), (table, w))
  after_watch name gvk spec table (none, w) = (none, (written name (some (gvk, spec)) table, w))

  -- The same on a table: a kind that is registered under the name needs no new watch.
  abbrev pub table_call : Call → Table → W → Option Error × (Table × W)
  table_call (register name gvk spec) table w =
      if is_watched (kind_of (table name)) gvk
      then (none, (written name (some (gvk, spec)) table, w))
      else after_watch name gvk spec table (client.watch name gvk w)
  table_call (deregister name) table w = (none, (written name none table, w))

  -- The errors of a sequence of calls, and what is there after it.
  unfoldable pub run : List Call → Registry → W → List (Option Error) × (Registry × W)
  run [] registry w = ([], (registry, w))
  run (c ∷ cs) registry w =
      let (answer, (registry', w')) = call c registry w in
      let (answers, last) = run cs registry' w' in (answer ∷ answers, last)

  unfoldable pub table_run : List Call → Table → W → List (Option Error) × (Table × W)
  table_run [] table w = ([], (table, w))
  table_run (c ∷ cs) table w =
      let (answer, (table', w')) = table_call c table w in
      let (answers, last) = table_run cs table' w' in (answer ∷ answers, last)

  -- A consistent registry shows its kinds in the table.
  kind_of-entry_of :
      (gvk : Option GroupVersionKind) (spec : Option WorkloadTypeConfigSpec)
      → is_some gvk ≡ is_some spec
      → kind_of (entry_of gvk spec) ≡ gvk
  kind_of-entry_of none spec h = refl
  kind_of-entry_of (some gvk) none h = cc
  kind_of-entry_of (some gvk) (some spec) h = refl

  view-deregister :
      (name : String) (registry : Registry)
      → view (deregister_gvk name registry) ≡ written name none (view registry)
  view-deregister name registry = λ i asked. at asked i
    where
      at :
          (asked : String)
          → view (deregister_gvk name registry) asked ≡ written name none (view registry) asked
      at asked =
          let (kinds, specs) = deregister_gvk_lem name asked registry in
          rw (kinds, specs) (ground arith)

  -- One call: the same error and cluster, the table of the new registry, which is consistent.
  IsStep : Option Error × (Registry × W) → Option Error × (Table × W) → Type 0
  IsStep out out' = ((out.0, (view out.1.0, out.1.1)) ≡ out') × IsConsistent out.1.0

  view-Registers :
      (name : String) (gvk : GroupVersionKind) (spec : WorkloadTypeConfigSpec)
      (registry registry' : Registry) (w : W)
      → Registers name gvk spec registry (none, (registry', w))
      → view registry' ≡ written name (some (gvk, spec)) (view registry)
  view-Registers name gvk spec registry registry' w ((kind, stored), others) = λ i asked. at asked i
    where
      at :
          (asked : String)
          → view registry' asked ≡ written name (some (gvk, spec)) (view registry) asked
      at asked = elim (Bool-cases (name == asked)) [
        | inl same ↦
            ap (λ n. view registry' n) (sym ((eq_iff name asked).0 same))
            ∙ rw (kind, stored, same) refl
        | inr other ↦ let (kinds, specs) = others asked other in rw (kinds, specs, other) refl
      ]

  view-finish_watch :
      (name : String) (gvk : GroupVersionKind) (spec : WorkloadTypeConfigSpec) (registry : Registry)
      (r : Option Error × W)
      → (
        (finish_watch show_gvk name gvk spec registry r).0,
        (
          view (finish_watch show_gvk name gvk spec registry r).1.0,
          (finish_watch show_gvk name gvk spec registry r).1.1,
        ),
      )
        ≡ after_watch name gvk spec (view registry) r
  view-finish_watch name gvk spec registry (some e, w) = refl
  view-finish_watch name gvk spec registry (none, w) =
      ap (λ table. (none, (table, w)))
        (view-Registers name gvk spec registry _ w
          (finish_watch-Registers client show_gvk name gvk spec registry (none, w)))

  view-register_gvk :
      (name : String) (gvk : GroupVersionKind) (spec : WorkloadTypeConfigSpec) (registry : Registry)
      (w : W)
      → IsConsistent registry
      → (
        (register_gvk client show_gvk name gvk spec registry w).0,
        (
          view (register_gvk client show_gvk name gvk spec registry w).1.0,
          (register_gvk client show_gvk name gvk spec registry w).1.1,
        ),
      )
        ≡ table_call (register name gvk spec) (view registry) w
  unfolding register_gvk
  view-register_gvk name gvk spec registry w same =
      rw (kind_of-entry_of _ _ (same name))
        (elim (Bool-cases (is_watched (lookup name registry.watched_gvks) gvk)) [
          | inl watched ↦ rw watched (
              ap (λ table. (none, (table, w)))
                (view-Registers name gvk spec registry _ w (
                  rw (watched, register_gvk) at
                    (register_gvk-Registers client show_gvk name gvk spec registry w).0)))
          | inr fresh ↦
              rw fresh (view-finish_watch name gvk spec registry (client.watch name gvk w))
        ])

  call-IsStep :
      (c : Call) (registry : Registry) (w : W)
      → IsConsistent registry
      → IsStep (call c registry w) (table_call c (view registry) w)
  unfolding IsStep
  call-IsStep (register name gvk spec) registry w same = (
    view-register_gvk name gvk spec registry w same,
    Registers-IsConsistent name gvk spec registry _ same
        (register_gvk-Registers client show_gvk name gvk spec registry w).0,
  )
  call-IsStep (deregister name) registry w same = (
    ap (λ table. (none, (table, w))) (view-deregister name registry),
    deregister_gvk-IsConsistent name registry same,
  )

  -- A sequence of calls of RegisterGVK and DeregisterGVK on two maps that have the same names
  -- gives the errors and the state of the cluster that it gives on the one table that the maps
  -- stand for; the maps after it stand for that table's last state and have the same names.
  pub run-table_run :
      (calls : List Call) (registry : Registry) (w : W)
      → IsConsistent registry
      → ((run calls registry w).0, (view (run calls registry w).1.0, (run calls registry w).1.1))
          ≡ table_run calls (view registry) w
        × IsConsistent (run calls registry w).1.0
  unfolding run table_run IsStep
  run-table_run [] registry w same = (refl, same)
  run-table_run (c ∷ cs) registry w same =
      let (step, same') = call-IsStep c registry w same in
      let (rest, same'') = run-table_run cs (call c registry w).1.0 (call c registry w).1.1 same' in
      (
        rw (← step) (
            ap (λ (r : List (Option Error) × (Table × W)). ((call c registry w).0 ∷ r.0, r.1))
              rest),
        same'',
      )
