-- ===== src/Build/Dispatch.antt =====
-- Which worker the supervisor of src/darkfactory/agents/builder_supervisor.py sends out.
use local_dafa.Base.{
  Bool, true, false, ◌&&◌, none, some, List, [], ◌∷◌, ◌++◌, ◌≡◌, refl, sym, ◌∙◌, inl, inr, arith,
  Text, nat_eq, list_eq, ◌==◌, eq_iff, contains, or_else, Bool-cases, Option-cases, Dict, lookup,
  insert, lookup-insert, append_assoc, append-nil, All, ◌⊎◌,
}
use local_dafa.State.Records.{WorkPackageDict}
use local_dafa.State.Reducers.{write_slices}
use local_dafa.State.Channels.{State, spec, build_order, current_slice}
use local_dafa.Build.TopoSort.{story_ids}
use local_dafa.Build.Supervisor.{
  no_update, Worker, builder, tester, Command, finished, dispatch, missing, slice_has_builder_run,
  slice_has_tester_run, next_worker_for_slice, order_update, dispatch_update, dispatch_loop,
  order_of, builder_supervisor_node,
}

-- Both workers have run on the slice.
abbrev pub is_complete : State → Text → Bool
is_complete s id = slice_has_builder_run s id && slice_has_tester_run s id

-- The worker is the one that the slice needs: the Builder first, and the Tester after it.
abbrev pub IsNeeded : State → Text → Worker → Type 0
IsNeeded s id builder = slice_has_builder_run s id ≡ false
IsNeeded s id tester = (slice_has_builder_run s id ≡ true) × (slice_has_tester_run s id ≡ false)

-- The command finishes with every slice of the order complete, or sends the worker that a slice
-- needs while every slice before it is complete, or the order names an id after complete slices
-- that no slice of the spec has.
abbrev pub IsRight : State → List WorkPackageDict → List Text → Command → Type 0
IsRight s slices order (finished u) =
    All (λ id. is_complete s id ≡ true) order × (u build_order ≡ some (some order))
IsRight s slices order (dispatch w u) =
    (before : List Text) × (id : Text) × (after : List Text) × (order ≡ before ++ id ∷ after)
    × All (λ x. is_complete s x ≡ true) before
    × IsNeeded s id w
    × (u current_slice ≡ some (some id))
    × (u build_order ≡ some (some order))
IsRight s slices order (missing id) =
    (before : List Text) × (after : List Text) × (order ≡ before ++ id ∷ after)
    × All (λ x. is_complete s x ≡ true) before
    × (contains id (story_ids slices) ≡ false)

-- What the supervisor does for a spec: without a slice it finishes and leaves the state alone.
abbrev pub IsDecision : State → List WorkPackageDict → Command → Type 0
IsDecision s [] c = c ≡ finished no_update
IsDecision s (slice ∷ slices) c = IsRight s (slice ∷ slices) (order_of s (slice ∷ slices)) c

IsKeyed : Dict Text WorkPackageDict → Type 0
IsKeyed m = (id : Text) (slice : WorkPackageDict) → lookup id m ≡ some slice → slice.story_id ≡ id

write_slices-IsKeyed :
    (slices : List WorkPackageDict) (m : Dict Text WorkPackageDict)
    → IsKeyed m
    → IsKeyed (write_slices slices m)
unfolding write_slices IsKeyed
write_slices-IsKeyed [] m k = k
write_slices-IsKeyed (s ∷ rest) m k =
    write_slices-IsKeyed rest (insert s.story_id s m) (λ id slice h.
      elim (Bool-cases (s.story_id == id)) [
        | inl same ↦
            let e : some s ≡ some slice = sym (lookup-insert s.story_id id s m ∙ rw same) ∙ h in
            cc (e, (eq_iff s.story_id id).0 same)
        | inr other ↦ k id slice (sym (lookup-insert s.story_id id s m ∙ rw other) ∙ h)
      ])

-- Only an id that no slice has is missing.
absent_id :
    (slices : List WorkPackageDict) (m : Dict Text WorkPackageDict) (id : Text)
    → lookup id (write_slices slices m) ≡ none
    → (contains id (story_ids slices) ≡ false) × (lookup id m ≡ none)
unfolding write_slices story_ids contains
absent_id [] m id h = (refl, h)
absent_id (s ∷ rest) m id h =
    let (gone, k) = absent_id rest (insert s.story_id s m) id h in
    let here = lookup-insert s.story_id id s m in
    elim (Bool-cases (s.story_id == id)) [
      | inl same ↦ absurd (let e : some s ≡ none = sym (here ∙ rw same) ∙ k in cc (e))
      | inr other ↦ (rw other gone, sym (here ∙ rw other) ∙ k)
    ]

All-snoc :
    (s : State) (xs : List Text) (x : Text)
    → All (λ id. is_complete s id ≡ true) xs
    → is_complete s x ≡ true
    → All (λ id. is_complete s id ≡ true) (xs ++ x ∷ [])
All-snoc s [] x h k = (k, tt)
All-snoc s (y ∷ xs) x h k = (h.0, All-snoc s xs x h.1 k)

-- The three answers for a slice.
IsNeeded-cases :
    (s : State) (slice : WorkPackageDict)
    → ((next_worker_for_slice s slice ≡ none) × (is_complete s slice.story_id ≡ true))
      ⊎ ((w : Worker) × (next_worker_for_slice s slice ≡ some w) × IsNeeded s slice.story_id w)
unfolding next_worker_for_slice
IsNeeded-cases s slice = elim (Bool-cases (slice_has_builder_run s slice.story_id)) [
  | inr e ↦ inr (builder, rw e refl, e)
  | inl e ↦ elim (Bool-cases (slice_has_tester_run s slice.story_id)) [
    | inr f ↦ inr (tester, rw (e, f) refl, (e, f))
    | inl f ↦ inl (rw (e, f) refl, ground (arith, e, f))
  ]
]

dispatch_loop-IsRight :
    (s : State) (slices : List WorkPackageDict) (order before rest : List Text)
    → order ≡ before ++ rest
    → All (λ id. is_complete s id ≡ true) before
    → IsRight s slices order (dispatch_loop s (write_slices slices []) order rest)
unfolding dispatch_loop order_update dispatch_update IsKeyed
dispatch_loop-IsRight s slices order before [] e h =
    ((let f : before ≡ order = sym (e ∙ append-nil before) in rw f at h), refl)
dispatch_loop-IsRight s slices order before (id ∷ rest) e h =
    let by_id = write_slices slices [] in
    elim (Option-cases (lookup id by_id)) [
      | inl gone ↦ rw (IsRight, gone) (before, rest, e, h, (absent_id slices [] id gone).0)
      | inr (slice, found) ↦
          let keyed : slice.story_id ≡ id =
            write_slices-IsKeyed slices [] (λ _ _ k. absurd (unfold lookup in cc (k))) id slice
              found in
          elim (IsNeeded-cases s slice) [
            | inr (w, next, needs) ↦
                rw (IsRight, found, next) (before, id, rest, e, h, rw keyed at needs, refl, refl)
            | inl (next, complete) ↦
                let done : is_complete s id ≡ true = rw keyed at complete in
                rw (IsRight, found, next)
                  (dispatch_loop-IsRight s slices order (before ++ id ∷ []) rest
                    (e ∙ sym (append_assoc before (id ∷ []) rest)) (All-snoc s before id h done))
          ]
    ]

decided :
    (s : State) (slices : List WorkPackageDict)
    → or_else (s spec) [] ≡ slices
    → IsDecision s slices (builder_supervisor_node s)
unfolding builder_supervisor_node
decided s [] e = rw (builder_supervisor_node, e) refl
decided s (slice ∷ slices) e =
    let all = slice ∷ slices in
    rw (IsDecision, IsRight, e)
      (dispatch_loop-IsRight s all (order_of s all) [] (order_of s all) refl tt)

-- The supervisor ends exactly right: without a slice in the spec it finishes at once. With one it
-- finishes only when both workers have run on every slice of the build order, and otherwise sends
-- out the worker that the first incomplete slice needs, the Tester never before the Builder; where
-- the first id of the order that is not complete is one that no slice of the spec has, it ends with
-- the KeyError for that id. The build order is the one of the state, if that has one, and
-- `topo_sort` of the spec otherwise.
pub builder_supervisor_node_lem :
    (s : State) → IsDecision s (or_else (s spec) []) (builder_supervisor_node s)
builder_supervisor_node_lem s = decided s (or_else (s spec) []) refl
