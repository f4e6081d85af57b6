-- ===== src/Build/Turns.antt =====
-- What a worker's turn in src/darkfactory/stages/build.py means for the supervisor of
-- src/darkfactory/agents/builder_supervisor.py.
use local_dafa.Base.{
  Bool, true, Option, some, List, [], ◌∷◌, ◌++◌, ◌≡◌, refl, ◌⊎◌, inl, inr, arith, Text, any,
  is_empty, nat_eq, list_eq, ◌==◌, eq_self, Dict, lookup, if◌then◌else◌, Option-cases, Bool-cases,
}
use local_dafa.State.Records.{WorkPackageDict, Patch}
use local_dafa.State.Reducers.{write_slices, add}
use local_dafa.State.Channels.{
  State, spec, build_order, builder_outputs, tester_outputs, current_slice,
}
use local_dafa.State.Merge.{Caps, merge, reducer}
use local_dafa.Build.Supervisor.{
  Worker, builder, tester, slice_has_builder_run, slice_has_tester_run, next_worker_for_slice,
  dispatch_loop, order_of, builder_supervisor_node,
}
use local_dafa.Build.Worker.{
  WorkerResult, completed, crashed, worker_node, crash_delta, builder_delta, tester_delta,
}

-- The two states agree on what the supervisor reads.
record Agree (s t : State) : Type 0 where
  pub specs : s spec ≡ t spec
  pub orders : s build_order ≡ t build_order
  pub builders : s builder_outputs ≡ t builder_outputs
  pub testers : s tester_outputs ≡ t tester_outputs

next_worker-Agree :
    (s t : State)
    → Agree s t
    → (slice : WorkPackageDict) → next_worker_for_slice s slice ≡ next_worker_for_slice t slice
unfolding next_worker_for_slice slice_has_builder_run slice_has_tester_run
next_worker-Agree s t a slice = rw (next_worker_for_slice, a.builders, a.testers)

dispatch_loop-Agree :
    (s t : State)
    → Agree s t
    → (by_id : Dict Text WorkPackageDict) (order rest : List Text)
    → dispatch_loop s by_id order rest ≡ dispatch_loop t by_id order rest
unfolding dispatch_loop
dispatch_loop-Agree s t a by_id order [] = refl
dispatch_loop-Agree s t a by_id order (id ∷ rest) =
    let later = dispatch_loop-Agree s t a by_id order rest in
    elim (Option-cases (lookup id by_id)) [
      | inl e ↦ rw (dispatch_loop, e)
      | inr (slice, e) ↦ elim (Option-cases (next_worker_for_slice t slice)) [
        | inl f ↦ rw (dispatch_loop, e, next_worker-Agree s t a slice, f) later
        | inr (w, f) ↦ rw (dispatch_loop, e, next_worker-Agree s t a slice, f)
      ]
    ]

builder_supervisor_node-Agree :
    (s t : State) → Agree s t → builder_supervisor_node s ≡ builder_supervisor_node t
unfolding builder_supervisor_node order_of
builder_supervisor_node-Agree s t a = elim (Option-cases (t spec)) [
  | inl e ↦ rw (builder_supervisor_node, a.specs, e)
  | inr ([], e) ↦ rw (builder_supervisor_node, a.specs, e)
  | inr (x ∷ xs, e) ↦
      rw (builder_supervisor_node, a.specs, e, order_of, a.orders)
        (dispatch_loop-Agree s t a (write_slices (x ∷ xs) []) (order_of t (x ∷ xs))
          (order_of t (x ∷ xs)))
]

-- After a worker's crash, whichever it is and whatever it raised, the supervisor answers the same
-- again: the crash is no progress.
pub crash_repeats :
    (k : Caps) (s : State) (worker : Worker) (exc : Text) (diff : Option (List Patch))
    → builder_supervisor_node (merge k s (worker_node worker s (crashed exc) diff))
      ≡ builder_supervisor_node s
unfolding merge reducer worker_node crash_delta
crash_repeats k s worker exc diff =
    builder_supervisor_node-Agree _ s
      (record { specs = refl; orders = refl; builders = refl; testers = refl })

-- The worker has run on the slice.
abbrev pub has_run : Worker → State → Text → Bool
has_run builder s id = slice_has_builder_run s id
has_run tester s id = slice_has_tester_run s id

-- The result names the slice it was asked for, or none; a Tester's result is filed under the slice
-- whatever it names.
abbrev pub IsFiled : Worker → Text → WorkerResult → Type 0
IsFiled builder id r = (r.wp_id ≡ []) ⊎ (r.wp_id ≡ id)
IsFiled tester id r = Unit

any-snoc :
    {A : Type 0} (p : A → Bool) (xs : List A) (x : A) → p x ≡ true → any p (xs ++ x ∷ []) ≡ true
any-snoc p [] x h = ground (arith, h)
any-snoc p (y ∷ xs) x h = ground (arith, any-snoc p xs x h)

filed_under : (w id : Text) → (w ≡ []) ⊎ (w ≡ id) → ((if is_empty w then id else w) == id) ≡ true
filed_under w id (inl e) = rw e (eq_self id)
filed_under w id (inr e) = elim (Bool-cases (is_empty w)) [
  | inl f ↦ rw f (eq_self id)
  | inr f ↦ rw (f, e) (eq_self id)
]

-- After a completed turn on a slice, the worker counts as run on it, so that the supervisor does
-- not send it there again, if the result of a Builder names that slice or none.
pub turn_advances :
    (k : Caps) (s : State) (worker : Worker) (id : Text) (r : WorkerResult)
    (diff : Option (List Patch))
    → s current_slice ≡ some id
    → IsFiled worker id r
    → has_run worker (merge k s (worker_node worker s (completed r) diff)) id ≡ true
unfolding merge reducer worker_node builder_delta tester_delta slice_has_builder_run
    slice_has_tester_run add
turn_advances k s tester id r diff e h = elim (Option-cases (s tester_outputs)) [
  | inl f ↦ rw (f, e) (ground (arith, eq_self id))
  | inr (xs, f) ↦ rw (f, e) (any-snoc (λ o. o.wp_id == id) xs _ (eq_self id))
]
turn_advances k s builder id r diff e h = elim (Option-cases (s builder_outputs)) [
  | inl f ↦ rw (f, e) (ground (arith, filed_under r.wp_id id h))
  | inr (xs, f) ↦ rw (f, e) (any-snoc (λ o. o.wp_id == id) xs _ (filed_under r.wp_id id h))
]
