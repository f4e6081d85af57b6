-- ===== src/Issue/MoveFacts.antt =====
-- What one move of an issue's label keeps: the labels on the issue, the approvals behind it, and the
-- count of the clarification rounds.
use local_dafa.Base.{
  ℕ, ◌+◌, ◌≤◌, Bool, true, false, ◌||◌, none, some, List, [], ◌∷◌, ◌≡◌, refl, arith, inl, inr,
  Bool-cases, ltb, nat_beq,
}
use local_dafa.State.Records.{Label}
use local_dafa.Issue.Life.{
  Place, off, ready, triaging, clarifying, designing, awaiting, building, verifying, reviewing,
  gated, fixing, rebuilding, merging, stuck, down, label_of, same_label, same_labels, Move, if_move,
  moves, swap_move, needed, max_rounds,
}
use local_dafa.Issue.Labels.{label_edit, edited, same_label-eq}

same_labels-eq : (xs ys : List Label) → same_labels xs ys ≡ true → xs ≡ ys
same_labels-eq [] [] h = refl
same_labels-eq [] (y ∷ ys) h = cc
same_labels-eq (x ∷ xs) [] h = cc
same_labels-eq (x ∷ xs) (y ∷ ys) h =
    let a : same_label x y ≡ true = ground (arith, h) in
    let b : same_labels xs ys ≡ true = ground (arith, h) in
    cc (same_label-eq x y a, same_labels-eq xs ys b)

-- A swap that is allowed takes off what the move asks for.
pub swap_move-inv :
    (r : List Label) (m : Move) (q : Place) → swap_move r m ≡ some q → m ≡ some (r, q)
unfolding swap_move
swap_move-inv r none q h = cc
swap_move-inv r (some (need, p)) q h = elim (Bool-cases (same_labels r need)) [
  | inl e ↦ let f : p ≡ q = ground (arith, h, e) in cc (same_labels-eq r need e, f)
  | inr e ↦ absurd (ground (arith, h, e))
]

-- The state labels on an issue at a place. A design that was refused while its approval was asked
-- for has two.
abbrev pub carried : Place → List Label
carried stuck = Label.awaiting_approval ∷ Label.needs_human ∷ []
carried (down p) = carried p
carried p = label_of p ∷ []

-- Whether a label asks for clarification, as a number.
abbrev pub asks_once : Label → ℕ
asks_once Label.needs_clarification = 1
asks_once _ = 0

-- How many clarification rounds a place can have behind it.
abbrev pub rounds_of : Place → ℕ
rounds_of off = 0
rounds_of ready = 0
rounds_of (triaging n) = n
rounds_of (clarifying n) = n
rounds_of (down p) = rounds_of p
rounds_of _ = 3

-- What a move keeps: the issue carries the labels of its place, an issue behind two approvals
-- stays there, and a label that asks for clarification counts a round.
pub record IsKept (p q : Place) (l : Label) (r : List Label) : Type 0 where
  pub carries : edited (carried p) (label_edit (carried p) r l) ≡ carried q
  pub stays : 2 ≤ needed p → 2 ≤ needed q
  pub counts : rounds_of p ≤ 3 → rounds_of p + asks_once l ≤ rounds_of q
  pub bounded : rounds_of p ≤ 3 → rounds_of q ≤ 3

abbrev pub MoveOk : Place → Label → Move → Type 0
MoveOk p l none = Unit {0}
MoveOk p l (some (r, q)) = IsKept p q l r

kept :
    {p q : Place} {l : Label} {r : List Label}
    → edited (carried p) (label_edit (carried p) r l) ≡ carried q
    → (2 ≤ needed p → 2 ≤ needed q)
    → (rounds_of p ≤ 3 → (rounds_of p + asks_once l ≤ rounds_of q) × (rounds_of q ≤ 3))
    → IsKept p q l r
kept c s b = record { carries = c; stays = s; counts = λ h. (b h).0; bounded = λ h. (b h).1 }

if_move-MoveOk :
    (p : Place) (l : Label) (b : Bool) (m : Move)
    → (b ≡ true → MoveOk p l m)
    → MoveOk p l (if_move b m)
if_move-MoveOk p l true m h = h refl
if_move-MoveOk p l false m h = tt

-- A move that asks for no clarification and stays in its round.
unasked :
    {p q : Place} {l : Label} {r : List Label}
    → edited (carried p) (label_edit (carried p) r l) ≡ carried q
    → (ltb (needed p) 2 || ltb 1 (needed q)) ≡ true
    → rounds_of p ≡ rounds_of q
    → asks_once l ≡ 0
    → IsKept p q l r
unasked c s e z =
    kept c (λ h. ground (arith, s, h)) (λ h. (omega (arith, e, z), omega (arith, e, h)))

-- A move that asks for no clarification, to a place past the triage.
triaged :
    {p q : Place} {l : Label} {r : List Label}
    → edited (carried p) (label_edit (carried p) r l) ≡ carried q
    → (ltb (needed p) 2 || ltb 1 (needed q)) ≡ true
    → rounds_of q ≡ 3
    → asks_once l ≡ 0
    → IsKept p q l r
triaged c s e z =
    kept c (λ h. ground (arith, s, h)) (λ h. (omega (arith, e, h, z), omega (arith, e)))

pub moves-MoveOk : (p : Place) (l : Label) → MoveOk p l (moves p l)
unfolding moves edited label_edit
moves-MoveOk (triaging n) Label.needs_clarification =
    if_move-MoveOk (triaging n) Label.needs_clarification (ltb n max_rounds) _ (λ e.
      let small : n ≤ 2 = ground (arith, e) in
      kept refl (λ h. omega (arith, h)) (λ h. (omega arith, omega (arith, small))))
moves-MoveOk (triaging n) Label.needs_human =
    if_move-MoveOk (triaging n) Label.needs_human (nat_beq n max_rounds) _
      (λ _. triaged refl refl refl refl)
moves-MoveOk ready Label.triaging = unasked refl refl refl refl
moves-MoveOk (triaging n) Label.canceled = triaged refl refl refl refl
moves-MoveOk (triaging n) Label.designing = triaged refl refl refl refl
moves-MoveOk (clarifying n) Label.triaging = unasked refl refl refl refl
moves-MoveOk (clarifying n) Label.canceled = triaged refl refl refl refl
moves-MoveOk designing Label.awaiting_approval = unasked refl refl refl refl
moves-MoveOk designing Label.needs_human = unasked refl refl refl refl
moves-MoveOk awaiting Label.designing = unasked refl refl refl refl
moves-MoveOk awaiting Label.canceled = unasked refl refl refl refl
moves-MoveOk awaiting Label.building = unasked refl refl refl refl
moves-MoveOk awaiting Label.awaiting_approval = unasked refl refl refl refl
moves-MoveOk awaiting Label.needs_human = unasked refl refl refl refl
moves-MoveOk building Label.verifying = unasked refl refl refl refl
moves-MoveOk building Label.canceled = unasked refl refl refl refl
moves-MoveOk verifying Label.needs_human = unasked refl refl refl refl
moves-MoveOk verifying Label.reviewing = unasked refl refl refl refl
moves-MoveOk reviewing Label.awaiting_merge = unasked refl refl refl refl
moves-MoveOk gated Label.canceled = unasked refl refl refl refl
moves-MoveOk gated Label.in_progress = unasked refl refl refl refl
moves-MoveOk gated Label.fixing = unasked refl refl refl refl
moves-MoveOk gated Label.building = unasked refl refl refl refl
moves-MoveOk gated Label.reviewing = unasked refl refl refl refl
moves-MoveOk fixing Label.reviewing = unasked refl refl refl refl
moves-MoveOk rebuilding Label.reviewing = unasked refl refl refl refl
moves-MoveOk merging Label.done = unasked refl refl refl refl
moves-MoveOk _ _ = tt
