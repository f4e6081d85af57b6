-- ===== src/Build/TopoOrder.antt =====
-- `topo_sort` of src/darkfactory/agents/builder_supervisor.py reorders the slices, and puts what is
-- pending for a slice at the start before it where there is no cycle.
use local_dafa.Base.{
  ℕ, zero, suc, ◌+◌, ◌≤◌, ◌<◌, true, false, not, ◌&&◌, ◌||◌, List, [], ◌∷◌, ◌++◌, ◌≡◌, ◌∙◌, inl,
  inr, arith, Text, is_empty, filter, contains, contains-append, length, nat_eq, list_eq, ◌==◌,
  eq_iff, Bool-cases, get, insert, get-insert, lookup, count, count-append, contains-filter,
  count-filter, count_absent, not_in_empty, some_element, length-filter_lt, append-nil,
}
use local_dafa.State.Records.{WorkPackageDict}
use local_dafa.Build.TopoSort.{
  Pending, story_ids, pending_of, ready_of, without, subtract, topo_loop, topo_sort,
}

count-ready_without :
    (x : Text) (pending : Pending) (xs : List Text)
    → count x (ready_of pending xs) + count x (without (ready_of pending xs) xs) ≡ count x xs
unfolding ready_of without
count-ready_without x pending xs =
    let p = λ (sid : Text). is_empty (get sid [] pending) in
    let r = filter p xs in
    elim (Bool-cases (contains x xs)) [
      | inl e ↦ ground (
        arith,
        count-filter p x xs,
        contains-filter p x xs,
        count-filter (λ sid. not (contains sid r)) x xs,
      )
      | inr e ↦ ground (
        arith,
        count-filter p x xs,
        contains-filter p x xs,
        count-filter (λ sid. not (contains sid r)) x xs,
        count_absent x xs e,
      )
    ]

count-topo_loop :
    (x : Text) (fuel : ℕ) (pending : Pending) (remaining order : List Text)
    → count x (topo_loop fuel pending remaining order) ≡ count x order + count x remaining
unfolding topo_loop
count-topo_loop x zero pending remaining order = count-append x order remaining
count-topo_loop x (suc fuel) pending [] order = unfold count in omega arith
count-topo_loop x (suc fuel) pending (sid ∷ rest) order =
    let remaining = sid ∷ rest in
    let ready = ready_of pending remaining in
    let later = without ready remaining in
    elim (Bool-cases (is_empty ready)) [
      | inl none_ready ↦ rw none_ready (count-append x order remaining)
      | inr some_ready ↦ rw some_ready (
          omega (
            arith,
            count-topo_loop x fuel (subtract ready later pending) later (order ++ ready),
            count-append x order ready,
            count-ready_without x pending remaining,
          ))
    ]

-- The build order has every slice id exactly as often as the spec has it, whatever the
-- dependencies are.
pub count-topo_sort :
    (spec : List WorkPackageDict) (x : Text) → count x (topo_sort spec) ≡ count x (story_ids spec)
unfolding topo_sort
count-topo_sort spec x =
    let ids = story_ids spec in
    count-topo_loop x (length ids) (pending_of ids spec []) ids [] ∙ unfold count in omega arith

-- What is pending for a slice at the start.
abbrev pub deps_of : List WorkPackageDict → Text → List Text
deps_of spec x = get x [] (pending_of (story_ids spec) spec [])

-- Every element of the list has its dependencies before it, or among the elements given.
unfoldable pub IsOrdered : (Text → List Text) → List Text → List Text → Type 0
IsOrdered deps before [] = Unit
IsOrdered deps before (x ∷ xs) =
    ((d : Text) → contains d (deps x) ≡ true → contains d before ≡ true)
    × IsOrdered deps (x ∷ before) xs

contains-subtract :
    (d sid : Text) (ready rest : List Text) (pending : Pending)
    → contains d (get sid [] (subtract ready rest pending))
      ≡ (contains d (get sid [] pending) && not (contains sid rest && contains d ready))
unfolding subtract without contains
contains-subtract d sid ready [] pending = ground arith
contains-subtract d sid ready (y ∷ rest) pending =
    let left = filter (λ s. not (contains s ready)) (get y [] pending) in
    let ih = contains-subtract d sid ready rest (insert y left pending) in
    elim (Bool-cases (y == sid)) [
      | inl same ↦
          let g : get sid [] (insert y left pending) ≡ left =
            get-insert y sid left [] pending ∙ rw same in
          let q : get y [] pending ≡ get sid [] pending = cc ((eq_iff y sid).0 same) in
          let f = contains-filter (λ s. not (contains s ready)) d (get y [] pending) in
          rw (ih, g, f, q, same) (ground arith)
      | inr other ↦
          let g : get sid [] (insert y left pending) ≡ get sid [] pending =
            get-insert y sid left [] pending ∙ rw other in
          rw (ih, g, other) (ground arith)
    ]

shorter :
    (pending : Pending) (remaining : List Text)
    → is_empty (ready_of pending remaining) ≡ false
    → length (without (ready_of pending remaining) remaining) < length remaining
unfolding ready_of without
shorter pending remaining e =
    let p = λ (sid : Text). is_empty (get sid [] pending) in
    let ready = filter p remaining in
    let (x, m) = some_element ready e in
    length-filter_lt (λ sid. not (contains sid ready)) x remaining
      (ground (arith, contains-filter p x remaining, m)) (ground (arith, m))

pending-known :
    (ids : List Text) (spec : List WorkPackageDict) (pending : Pending)
    → ((x d : Text) → contains d (get x [] pending) ≡ true → contains d ids ≡ true)
    → (x d : Text) → contains d (get x [] (pending_of ids spec pending)) ≡ true
    → contains d ids ≡ true
unfolding pending_of
pending-known ids [] pending h x d k = h x d k
pending-known ids (s ∷ rest) pending h x d k =
    let mine = filter (λ t. contains t ids) s.depends_on in
    pending-known ids rest (insert s.story_id mine pending)
      (λ y t m. ground (
        arith,
        get-insert s.story_id y mine [] pending,
        contains-filter (λ u. contains u ids) t s.depends_on,
        h y t,
        m,
      ))
      x d k

module _ (deps : Text → List Text) where
  IsOrdered-batch :
      (before ys : List Text)
      → ((y : Text)
          → contains y ys ≡ true
          → (d : Text) → contains d (deps y) ≡ true
          → contains d before ≡ true)
      → IsOrdered deps before ys
  unfolding IsOrdered contains
  IsOrdered-batch before [] h = tt
  IsOrdered-batch before (y ∷ ys) h = (
    h y (ground (arith, eq_iff y y)),
    IsOrdered-batch (y ∷ before) ys (λ x k d m. ground (arith, h x (ground arith) d m)),
  )

  IsOrdered-append :
      (before xs ys : List Text)
      → IsOrdered deps before xs
      → ((y : Text)
          → contains y ys ≡ true
          → (d : Text) → contains d (deps y) ≡ true
          → (contains d before || contains d xs) ≡ true)
      → IsOrdered deps before (xs ++ ys)
  unfolding IsOrdered contains
  IsOrdered-append before [] ys o h =
      IsOrdered-batch before ys (λ y k d m. ground (arith, h y k d m))
  IsOrdered-append before (x ∷ xs) ys o h =
      (o.0, IsOrdered-append (x ∷ before) xs ys o.1 (λ y k d m. ground (arith, h y k d m)))

  -- In a state of the loop: what is pending for a slice that remains, and that every dependency
  -- is in the order or remains.
  record Ready (pending : Pending) (remaining order : List Text) : Type 0 where
    pub left :
        (x : Text)
        → contains x remaining ≡ true
        → (d : Text)
        → contains d (get x [] pending) ≡ (contains d (deps x) && not (contains d order))
    pub known :
        (x d : Text)
        → contains d (deps x) ≡ true
        → (contains d order || contains d remaining) ≡ true
    pub ordered : IsOrdered deps [] order

  Ready-deps :
      (pending : Pending) (remaining order : List Text)
      → Ready pending remaining order
      → (x : Text) → contains x (ready_of pending remaining) ≡ true
      → (d : Text) → contains d (deps x) ≡ true
      → contains d order ≡ true
  unfolding ready_of
  Ready-deps pending remaining order r x m d k =
      let p = λ (sid : Text). is_empty (get sid [] pending) in
      let f = contains-filter p x remaining in
      let e = not_in_empty d (get x [] pending) (ground (arith, f, m)) in
      ground (arith, f, m, e, k, r.left x (ground (arith, f, m)) d)

  next-Ready :
      (pending : Pending) (remaining order : List Text)
      → Ready pending remaining order
      → let ready = ready_of pending remaining in
        let later = without ready remaining in
        Ready (subtract ready later pending) later (order ++ ready)
  unfolding without
  next-Ready pending remaining order r =
      let ready = ready_of pending remaining in
      let later = without ready remaining in
      let stays = λ (x : Text). contains-filter (λ sid. not (contains sid ready)) x remaining in
      record {
        left = λ x m d. ground (
          arith,
          contains-subtract d x ready later pending,
          contains-append d order ready,
          m,
          r.left x (ground (arith, stays x, m)) d,
        );
        known = λ x d k. ground (arith, contains-append d order ready, stays d, r.known x d k);
        ordered =
            IsOrdered-append [] order ready r.ordered
              (λ y m d k. ground (arith, Ready-deps pending remaining order r y m d k));
      }

  module _ (rank : Text → ℕ)
      (falls : (x d : Text) → contains d (deps x) ≡ true → rank d < rank x) where
    -- Without a cycle, some slice that remains is ready.
    descent :
        (pending : Pending) (remaining order : List Text)
        → Ready pending remaining order
        → is_empty (ready_of pending remaining) ≡ true
        → (n : ℕ) (x : Text) → rank x < n
        → contains x remaining ≡ false
    unfolding ready_of
    descent pending remaining order r stuck zero x h = absurd (omega arith)
    descent pending remaining order r stuck (suc n) x h = elim (Bool-cases (contains x remaining)) [
      | inr e ↦ e
      | inl m ↦
          let p = λ (sid : Text). is_empty (get sid [] pending) in
          let none_ready = not_in_empty x (filter p remaining) stuck in
          let (d, k) =
            some_element (get x [] pending)
              (ground (arith, contains-filter p x remaining, none_ready, m)) in
          let dep : contains d (deps x) ≡ true = ground (arith, k, r.left x m d) in
          let gone = descent pending remaining order r stuck n d (omega (arith, falls x d dep)) in
          absurd (ground (arith, gone, k, r.left x m d, r.known x d dep))
    ]

    topo_loop-IsOrdered :
        (fuel : ℕ) (pending : Pending) (remaining order : List Text)
        → Ready pending remaining order
        → length remaining ≤ fuel
        → IsOrdered deps [] (topo_loop fuel pending remaining order)
    unfolding topo_loop
    topo_loop-IsOrdered zero pending [] order r h = rw append-nil r.ordered
    topo_loop-IsOrdered zero pending (x ∷ xs) order r h = absurd (omega arith)
    topo_loop-IsOrdered (suc fuel) pending [] order r h = r.ordered
    topo_loop-IsOrdered (suc fuel) pending (sid ∷ rest) order r h =
        let remaining = sid ∷ rest in
        let ready = ready_of pending remaining in
        let later = without ready remaining in
        elim (Bool-cases (is_empty ready)) [
          | inl stuck ↦ absurd (
              descent_head
                (descent pending remaining order r stuck (suc (rank sid)) sid (omega arith)))
          | inr e ↦ rw e (
              topo_loop-IsOrdered fuel (subtract ready later pending) later (order ++ ready)
                (next-Ready pending remaining order r) (omega (arith, shorter pending remaining e)))
        ]
      where
        descent_head : contains sid (sid ∷ rest) ≡ false → ⊥
        descent_head e = unfold contains in ground (arith, eq_iff sid sid)

-- Without a cycle, everything comes after what was pending for it.
pub deps-IsOrdered :
    (spec : List WorkPackageDict) (rank : Text → ℕ)
    → ((x d : Text) → contains d (deps_of spec x) ≡ true → rank d < rank x)
    → IsOrdered (deps_of spec) [] (topo_sort spec)
unfolding topo_sort
deps-IsOrdered spec rank falls =
    let ids = story_ids spec in
    topo_loop-IsOrdered (deps_of spec) rank falls (length ids) (pending_of ids spec []) ids []
      (unfold contains IsOrdered in
        record {
          left = λ x m d. ground arith;
          known = λ x d k.
              pending-known ids spec [] (λ y t m. absurd (unfold get lookup in ground (arith, m))) x
                d k;
          ordered = tt;
        })
      (omega arith)
