-- ===== src/Tests/BuildRuns.antt =====
-- The build stage on a spec of three slices.
use local_dafa.Base.{
  ℕ, ◌<◌, true, false, none, some, List, [], ◌∷◌, ◌≡◌, refl, sym, inl, inr, arith, Text, codes,
  contains, count, nat_eq, list_eq, list_beq, ◌==◌, get, lookup, insert, Bool-cases, eq_iff,
}
use local_dafa.State.Records.{WorkPackageDict}
use local_dafa.State.Channels.{State, spec, current_slice}
use local_dafa.State.Merge.{Caps, merge}
use local_dafa.Build.TopoSort.{topo_sort, story_ids}
use local_dafa.Build.TopoOrder.{count-topo_sort}
use local_dafa.Build.Sorted.{depends_on_of, needs, IsSorted, topo_sort-IsSorted}
use local_dafa.Build.Supervisor.{builder, builder_supervisor_node}
use local_dafa.Build.Dispatch.{IsDecision, builder_supervisor_node_lem}
use local_dafa.Build.Worker.{WorkerResult, completed, crashed, worker_node}
use local_dafa.Build.Turns.{crash_repeats, turn_advances, has_run}
use local_dafa.Tests.Samples.{slice}

abbrev a : Text
a = codes "a"

abbrev b : Text
b = codes "b"

abbrev c : Text
c = codes "c"

-- `c` needs `b`, which needs `a`.
abbrev three : List WorkPackageDict
three = slice c (b ∷ []) ∷ slice b (a ∷ codes "elsewhere" ∷ []) ∷ slice a [] ∷ []

three_sorted : topo_sort three ≡ a ∷ b ∷ c ∷ []
unfolding topo_sort get lookup insert list_beq contains
three_sorted = refl

count-topo_sort_example : count b (topo_sort three) ≡ count b (story_ids three)
count-topo_sort_example = count-topo_sort three b

rank : Text → ℕ
rank [] = 0
rank (x ∷ _) = x

three_falls : (x d : Text) → needs three x d ≡ true → rank d < rank x
unfolding rank contains depends_on_of story_ids list_beq
three_falls x d h = elim (Bool-cases (c == x)) [
  | inl is_c ↦
      let e : d ≡ b = sym ((eq_iff b d).0 (ground (arith, is_c, h))) in
      let f : x ≡ c = sym ((eq_iff c x).0 is_c) in rw (e, f) (omega arith)
  | inr not_c ↦ elim (Bool-cases (b == x)) [
    | inl is_b ↦
        let e : d ≡ a = sym ((eq_iff a d).0 (ground (arith, not_c, is_b, h))) in
        let f : x ≡ b = sym ((eq_iff b x).0 is_b) in rw (e, f) (omega arith)
    | inr not_b ↦ elim (Bool-cases (a == x)) [
      | inl is_a ↦ absurd (ground (arith, not_c, not_b, is_a, h))
      | inr not_a ↦ absurd (ground (arith, not_c, not_b, not_a, h))
    ]
  ]
]

topo_sort-IsSorted_example : IsSorted (needs three) [] (topo_sort three)
topo_sort-IsSorted_example = topo_sort-IsSorted three rank three_falls

abbrev planned : State
planned spec = some three
planned current_slice = some b
planned _ = none

builder_supervisor_node_lem_example : IsDecision planned three (builder_supervisor_node planned)
builder_supervisor_node_lem_example = builder_supervisor_node_lem planned

abbrev caps : Caps
caps = record { attempts = 50; planning = 50 }

abbrev built : WorkerResult
built = record {
  wp_id = b;
  status = none;
  edits = [];
  blockers = [];
  summary = codes "done";
  carried = [];
  coverage = [];
  findings = [];
  parse_failure = false;
}

crash_repeats_example :
    builder_supervisor_node
      (merge caps planned (worker_node builder planned (crashed (codes "x")) none))
    ≡ builder_supervisor_node planned
crash_repeats_example = crash_repeats caps planned builder (codes "x") none

turn_advances_example :
    has_run builder (merge caps planned (worker_node builder planned (completed built) none)) b
    ≡ true
turn_advances_example = turn_advances caps planned builder b built none refl (inr refl)
