-- ===== src/Build/Supervisor.antt =====
-- `builder_supervisor_node` of src/darkfactory/agents/builder_supervisor.py: which worker runs next,
-- and on which slice.
use local_dafa.Base.{
  Bool, Option, none, some, List, [], ◌∷◌, Text, any, if◌then◌else◌, or_else, ◌==◌, nat_eq, list_eq,
  Dict, lookup,
}
use local_dafa.State.Records.{WorkPackageDict, BuilderOutputRecord, TesterOutputRecord}
use local_dafa.State.Reducers.{write_slices}
use local_dafa.State.Channels.{
  State, Delta, spec, build_order, current_slice, builder_outputs, tester_outputs,
}
use local_dafa.Build.TopoSort.{topo_sort}

pub data Worker : Type 0 where
  builder tester : Worker

-- `Command(goto=..., update=...)`; `missing` is the KeyError for an id that the spec does not have.
pub data Command : Type 0 where
  finished : Delta → Command
  dispatch : Worker → Delta → Command
  missing : Text → Command

unfoldable pub slice_has_builder_run : State → Text → Bool
slice_has_builder_run s slice_id =
    any (λ (o : BuilderOutputRecord). o.wp_id == slice_id) (or_else (s builder_outputs) [])

unfoldable pub slice_has_tester_run : State → Text → Bool
slice_has_tester_run s slice_id =
    any (λ (o : TesterOutputRecord). o.wp_id == slice_id) (or_else (s tester_outputs) [])

unfoldable pub next_worker_for_slice : State → WorkPackageDict → Option Worker
next_worker_for_slice s slice =
    if slice_has_builder_run s slice.story_id
    then (if slice_has_tester_run s slice.story_id then none else some tester)
    else some builder

unfoldable pub no_update : Delta
no_update c = none

unfoldable pub order_update : List Text → Delta
order_update order build_order = some (some order)
order_update order _ = none

unfoldable pub dispatch_update : List Text → Text → Delta
dispatch_update order slice_id build_order = some (some order)
dispatch_update order slice_id current_slice = some (some slice_id)
dispatch_update order slice_id _ = none

-- The loop over the build order.
unfoldable pub dispatch_loop : State → Dict Text WorkPackageDict → List Text → List Text → Command
unfolding next_worker_for_slice
dispatch_loop s by_id order [] = finished (order_update order)
dispatch_loop s by_id order (slice_id ∷ rest) =
    let later = dispatch_loop s by_id order rest in
    elim (lookup slice_id by_id) [
      | none ↦ missing slice_id
      | some slice ↦ elim (next_worker_for_slice s slice) [
        | none ↦ later
        | some worker ↦ dispatch worker (dispatch_update order slice_id)
      ]
    ]

-- `state.get("build_order") or topo_sort(spec)`
unfoldable pub order_of : State → List WorkPackageDict → List Text
order_of s slices = elim (or_else (s build_order) []) [ [] ↦ topo_sort slices | x ∷ xs ↦ x ∷ xs ]

unfoldable pub builder_supervisor_node : State → Command
unfolding dispatch_loop order_of
builder_supervisor_node s = elim (or_else (s spec) []) [
  | [] ↦ finished no_update
  | slice ∷ slices ↦
      let all = slice ∷ slices in
      let order = order_of s all in dispatch_loop s (write_slices all []) order order
]
