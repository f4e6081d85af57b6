-- ===== src/Build/TopoSort.antt =====
-- `topo_sort` of src/darkfactory/agents/builder_supervisor.py: Kahn's algorithm on the slices.
use local_dafa.Base.{
  ℕ, zero, suc, not, List, [], ◌∷◌, ◌++◌, Text, is_empty, filter, contains, length, if◌then◌else◌,
  nat_eq, list_eq, Dict, get, insert,
}
use local_dafa.State.Records.{WorkPackageDict}

unfoldable pub story_ids : List WorkPackageDict → List Text
story_ids [] = []
story_ids (s ∷ rest) = s.story_id ∷ story_ids rest

abbrev pub Pending : Type 0
Pending = Dict Text (List Text)

-- The dependencies of each slice that are slices of the spec; of two slices with one id the later.
unfoldable pub pending_of : List Text → List WorkPackageDict → Pending → Pending
pending_of ids [] pending = pending
pending_of ids (s ∷ rest) pending =
    pending_of ids rest (insert s.story_id (filter (λ d. contains d ids) s.depends_on) pending)

-- `[sid for sid in remaining if not pending[sid]]`
unfoldable pub ready_of : Pending → List Text → List Text
ready_of pending remaining = filter (λ sid. is_empty (get sid [] pending)) remaining

-- `[sid for sid in remaining if sid not in ready_set]`
unfoldable pub without : List Text → List Text → List Text
without ready remaining = filter (λ sid. not (contains sid ready)) remaining

-- `for sid in remaining: pending[sid] -= ready_set`
unfoldable pub subtract : List Text → List Text → Pending → Pending
unfolding without
subtract ready [] pending = pending
subtract ready (sid ∷ rest) pending =
    subtract ready rest (insert sid (without ready (get sid [] pending)) pending)

-- The `while` loop, with one round of fuel for each slice; without a ready slice the rest follows
-- in declared order.
unfoldable pub topo_loop : ℕ → Pending → List Text → List Text → List Text
unfolding ready_of subtract
topo_loop zero pending remaining order = order ++ remaining
topo_loop (suc fuel) pending [] order = order
topo_loop (suc fuel) pending (sid ∷ rest) order =
    let remaining = sid ∷ rest in
    let ready = ready_of pending remaining in
    let later = without ready remaining in
    let next = topo_loop fuel (subtract ready later pending) later (order ++ ready) in
    if is_empty ready then order ++ remaining else next

unfoldable pub topo_sort : List WorkPackageDict → List Text
unfolding topo_loop pending_of story_ids
topo_sort spec = let ids = story_ids spec in topo_loop (length ids) (pending_of ids spec []) ids []
