-- ===== src/State/PackageMerge.antt =====
-- What `merge_work_packages` of src/darkfactory/state.py keeps.
use local_dafa.Base.{
  false, Option, none, some, List, [], ◌∷◌, ◌≡◌, refl, sym, ◌∙◌, ap, inl, inr, arith, Text,
  contains, nat_eq, list_eq, ◌==◌, eq_iff, IsUnique, Bool-cases, Dict, lookup, insert,
  lookup-insert, if◌then◌else◌,
}
use local_dafa.State.Records.{WorkPackageDict}
use local_dafa.State.Reducers.{values, write_slices, merge_work_packages}
use local_dafa.Build.TopoSort.{story_ids}

-- The last slice with an id, or what was there before.
unfoldable pub last_with :
    Text → List WorkPackageDict → Option WorkPackageDict → Option WorkPackageDict
last_with id [] found = found
last_with id (s ∷ ss) found = last_with id ss (if s.story_id == id then some s else found)

-- The first slice with an id.
unfoldable pub first_with : Text → List WorkPackageDict → Option WorkPackageDict
first_with id [] = none
first_with id (s ∷ ss) = if s.story_id == id then some s else first_with id ss

-- Each slice stands under its own id, and no id twice.
IsIndexed : Dict Text WorkPackageDict → Type 0
IsIndexed [] = Unit
IsIndexed ((k, s) ∷ m) =
    (s.story_id ≡ k) × (contains k (story_ids (values m)) ≡ false) × IsIndexed m

lookup-write_slices :
    (id : Text) (ss : List WorkPackageDict) (m : Dict Text WorkPackageDict)
    → lookup id (write_slices ss m) ≡ last_with id ss (lookup id m)
unfolding write_slices last_with
lookup-write_slices id [] m = refl
lookup-write_slices id (s ∷ ss) m =
    lookup-write_slices id ss (insert s.story_id s m)
    ∙ ap (last_with id ss) (lookup-insert s.story_id id s m)

contains-insert :
    (id k : Text) (s : WorkPackageDict) (m : Dict Text WorkPackageDict)
    → IsIndexed m
    → s.story_id ≡ k
    → k == id ≡ false
    → contains id (story_ids (values m)) ≡ false
    → contains id (story_ids (values (insert k s m))) ≡ false
unfolding insert contains story_ids IsIndexed
contains-insert id k s [] x e other h = rw (e, other)
contains-insert id k s ((j, t) ∷ m) x e other h =
    ground (arith, eq_iff j k, contains-insert id k s m x.2 e other, h)

insert-IsIndexed :
    (s : WorkPackageDict) (m : Dict Text WorkPackageDict)
    → IsIndexed m
    → IsIndexed (insert s.story_id s m)
unfolding insert contains story_ids IsIndexed
insert-IsIndexed s [] x = (refl, refl, tt)
insert-IsIndexed s ((j, t) ∷ m) x = elim (Bool-cases (j == s.story_id)) [
  | inl same ↦ rw same (sym ((eq_iff j s.story_id).0 same), x.1, x.2)
  | inr other ↦
      let swapped : s.story_id == j ≡ false =
        ground (arith, eq_iff j s.story_id, eq_iff s.story_id j) in
      rw other
        (x.0, contains-insert j s.story_id s m x.2 refl swapped x.1, insert-IsIndexed s m x.2)
]

write_slices-IsIndexed :
    (ss : List WorkPackageDict) (m : Dict Text WorkPackageDict)
    → IsIndexed m
    → IsIndexed (write_slices ss m)
unfolding write_slices
write_slices-IsIndexed [] m x = x
write_slices-IsIndexed (s ∷ ss) m x =
    write_slices-IsIndexed ss (insert s.story_id s m) (insert-IsIndexed s m x)

values-IsUnique : (m : Dict Text WorkPackageDict) → IsIndexed m → IsUnique (story_ids (values m))
unfolding story_ids IsIndexed
values-IsUnique [] x = tt
values-IsUnique ((k, s) ∷ m) x = rw x.0 (x.1, values-IsUnique m x.2)

first_with-values :
    (id : Text) (m : Dict Text WorkPackageDict)
    → IsIndexed m
    → first_with id (values m) ≡ lookup id m
unfolding first_with lookup IsIndexed
first_with-values id [] x = refl
first_with-values id ((k, s) ∷ m) x = rw (x.0, first_with-values id m x.2)

-- The merged spec has no slice id twice, and under each id the last slice written with it, those of
-- the delta after those of the state.
pub merge_work_packages_lem :
    (left right : List WorkPackageDict)
    → IsUnique (story_ids (merge_work_packages left right))
      × ((id : Text)
          → first_with id (merge_work_packages left right)
            ≡ last_with id right (last_with id left none))
unfolding merge_work_packages
merge_work_packages_lem left right =
    let first = write_slices left [] in
    let x =
      write_slices-IsIndexed right first
        (write_slices-IsIndexed left [] (unfold IsIndexed in tt)) in
    (
      values-IsUnique (write_slices right first) x,
      λ id.
          first_with-values id (write_slices right first) x
          ∙ (lookup-write_slices id right first
              ∙ ap (last_with id right) (lookup-write_slices id left [] ∙ unfold lookup in refl)),
    )
