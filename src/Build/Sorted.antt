-- ===== src/Build/Sorted.antt =====
-- `topo_sort` of src/darkfactory/agents/builder_supervisor.py against the `depends_on` of the slices.
use local_dafa.Base.{
  ℕ, ◌<◌, Bool, true, false, ◌&&◌, List, [], ◌∷◌, ◌≡◌, ◌∙◌, refl, sym, inl, inr, arith, Text,
  filter, contains, nat_eq, list_eq, ◌==◌, Bool-cases, get, insert, get-insert, lookup,
  contains-filter, if◌then◌else◌,
}
use local_dafa.State.Records.{WorkPackageDict}
use local_dafa.Build.TopoSort.{Pending, story_ids, pending_of, topo_sort}
use local_dafa.Build.TopoOrder.{deps_of, IsOrdered, deps-IsOrdered}

-- The `depends_on` of the slice with an id, of several such slices the last.
unfoldable pub depends_on_of : List WorkPackageDict → Text → List Text
depends_on_of [] x = []
depends_on_of (s ∷ rest) x =
    let later = depends_on_of rest x in
    if contains x (story_ids rest) then later else if s.story_id == x then s.depends_on else []

-- A slice depends on another one of the spec.
abbrev pub needs : List WorkPackageDict → Text → Text → Bool
needs spec x d = contains d (depends_on_of spec x) && contains d (story_ids spec)

-- What each element of the list needs is before it, or among the elements given.
abbrev pub IsSorted : (Text → Text → Bool) → List Text → List Text → Type 0
IsSorted need before [] = Unit
IsSorted need before (x ∷ xs) =
    ((d : Text) → need x d ≡ true → contains d before ≡ true) × IsSorted need (x ∷ before) xs

-- What is pending at the start is what the slice with the id depends on.
pending_of-depends_on :
    (ids : List Text) (spec : List WorkPackageDict) (pending : Pending) (x d : Text)
    → contains d (get x [] (pending_of ids spec pending)) ≡ (
        if contains x (story_ids spec)
        then contains d (depends_on_of spec x) && contains d ids
        else contains d (get x [] pending))
unfolding pending_of story_ids depends_on_of contains
pending_of-depends_on ids [] pending x d = refl
pending_of-depends_on ids (s ∷ rest) pending x d =
    let mine = filter (λ t. contains t ids) s.depends_on in
    let later = pending_of-depends_on ids rest (insert s.story_id mine pending) x d in
    let here = get-insert s.story_id x mine [] pending in
    let within = contains-filter (λ u. contains u ids) d s.depends_on in
    unfold contains in
    elim (Bool-cases (contains x (story_ids rest))) [
      | inl e ↦ rw (later, e) (ground arith)
      | inr e ↦ elim (Bool-cases (s.story_id == x)) [
        | inl same ↦ rw (later, e, here, same, within) (ground arith)
        | inr other ↦ rw (later, e, here, other) (ground arith)
      ]
    ]

absent_needs :
    (spec : List WorkPackageDict) (x : Text)
    → contains x (story_ids spec) ≡ false
    → depends_on_of spec x ≡ []
unfolding depends_on_of story_ids contains
absent_needs [] x h = refl
absent_needs (s ∷ rest) x h =
    let gone : contains x (story_ids rest) ≡ false = ground (arith, h) in
    let other : (s.story_id == x) ≡ false = ground (arith, h) in rw (gone, other) refl

deps_of-needs :
    (spec : List WorkPackageDict) (x d : Text) → contains d (deps_of spec x) ≡ needs spec x d
deps_of-needs spec x d = elim (Bool-cases (contains x (story_ids spec))) [
  | inl e ↦ pending_of-depends_on (story_ids spec) spec [] x d ∙ rw e refl
  | inr e ↦
      pending_of-depends_on (story_ids spec) spec [] x d
      ∙ (unfold contains get lookup in rw (e, absent_needs spec x e) refl)
]

IsOrdered-IsSorted :
    (spec : List WorkPackageDict) (before xs : List Text)
    → IsOrdered (deps_of spec) before xs
    → IsSorted (needs spec) before xs
unfolding IsOrdered
IsOrdered-IsSorted spec before [] o = tt
IsOrdered-IsSorted spec before (x ∷ xs) o =
    (λ d n. o.0 d (deps_of-needs spec x d ∙ n), IsOrdered-IsSorted spec (x ∷ before) xs o.1)

-- Where the dependencies have no cycle, which a rank that falls along them shows, every slice comes
-- after all the slices of the spec that it depends on. Of several slices with one id, what the last
-- one depends on counts.
pub topo_sort-IsSorted :
    (spec : List WorkPackageDict) (rank : Text → ℕ)
    → ((x d : Text) → needs spec x d ≡ true → rank d < rank x)
    → IsSorted (needs spec) [] (topo_sort spec)
topo_sort-IsSorted spec rank falls =
    IsOrdered-IsSorted spec [] (topo_sort spec)
      (deps-IsOrdered spec rank (λ x d m. falls x d (sym (deps_of-needs spec x d) ∙ m)))
