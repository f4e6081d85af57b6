-- ===== src/Issue/LifeFacts.antt =====
-- What the life of an issue implies for the activities that were called: approvals before the
-- merge, the labels on the issue, and the clarifications that were asked for.
use mathlib.Core.Path.{subst}
use local_dafa.Base.{
  sym, ◌∙◌, ℕ, ◌+◌, ◌≤◌, Bool, true, false, ◌&&◌, Option, none, some, List, [], ◌∷◌, ◌≡◌, refl,
  arith, inl, inr, any, Option-cases, if◌then◌else◌,
}
use local_dafa.State.Records.{Label}
use local_dafa.Issue.Machine.{Activity, setup_worker, merge_branch, teardown_worker, swap_label}
use local_dafa.Issue.Life.{
  Place, off, ready, merging, finished, down, moves, works, step, step_from, life, needed, is_up,
}
use local_dafa.Issue.Labels.{labels_after}
use local_dafa.Issue.MoveFacts.{
  carried, asks_once, rounds_of, IsKept, MoveOk, moves-MoveOk, swap_move-inv,
}

abbrev is_merge : Activity → Bool
is_merge merge_branch = true
is_merge _ = false

-- `merge_branch` was called.
abbrev pub merges : List Activity → Bool
merges = any is_merge

abbrev asked : Activity → ℕ
asked (swap_label _ l) = asks_once l
asked _ = 0

-- How often the issue was labelled as one that needs clarification.
abbrev pub clarifications : List Activity → ℕ
clarifications [] = 0
clarifications (a ∷ t) = clarifications t + asked a

-- What the activities up to a place have been.
pub record IsLived (t : List Activity) (p : Place) : Type 0 where
  pub labels : labels_after t ≡ carried p
  pub behind : merges t ≡ true → 2 ≤ needed p
  pub asks : clarifications t ≤ rounds_of p
  pub bounded : rounds_of p ≤ 3

-- An activity that is no swap, and after which the issue is where it was.
abbrev Stays : Place → Bool → Place → Type 0
Stays p b q = (b ≡ true) × (p ≡ q)

stay-inv : (p q : Place) (b : Bool) → (if b then some p else none) ≡ some q → Stays p b q
stay-inv p q true h = (refl, cc)
stay-inv p q false h = cc

works-merge_branch : (p : Place) (b : Bool) → (works p merge_branch && b) ≡ true → 2 ≤ needed p
unfolding works
works-merge_branch merging b h = omega arith
works-merge_branch (finished Label.canceled) b h = cc
works-merge_branch _ b h = cc

-- An activity that the trace's figures do not count.
abbrev IsPlain : Activity → Type 0
IsPlain (swap_label _ _) = ⊥
IsPlain merge_branch = ⊥
IsPlain teardown_worker = ⊥
IsPlain setup_worker = ⊥
IsPlain _ = Unit {0}

plain-step :
    (p : Place) (a : Activity)
    → IsPlain a
    → step p a ≡ (if works p a && is_up p then some p else none)
unfolding step
plain-step p (swap_label _ _) h = absurd h
plain-step p merge_branch h = absurd h
plain-step p teardown_worker h = absurd h
plain-step p setup_worker h = absurd h
plain-step p _ h = refl

plain-IsLived :
    (a : Activity) (t : List Activity) (p : Place) → IsPlain a → IsLived t p → IsLived (a ∷ t) p
unfolding labels_after
plain-IsLived (swap_label _ _) t p h i = absurd h
plain-IsLived merge_branch t p h i = absurd h
plain-IsLived teardown_worker t p h i = absurd h
plain-IsLived setup_worker t p h i = absurd h
plain-IsLived _ t p h i = record {
  labels = i.labels;
  behind = i.behind;
  asks = omega (arith, i.asks);
  bounded = i.bounded;
}

swap-IsLived :
    (r : List Label) (l : Label) (t : List Activity) (p q : Place)
    → IsLived t p
    → moves p l ≡ some (r, q)
    → IsLived (swap_label r l ∷ t) q
unfolding labels_after
swap-IsLived r l t p q i e =
    let k : IsKept p q l r = subst (MoveOk p l) e (moves-MoveOk p l) in
    record {
      labels = rw (i.labels) k.carries;
      behind = λ h. k.stays (i.behind h);
      asks = omega (arith, i.asks, k.counts i.bounded);
      bounded = k.bounded i.bounded;
    }

plain_step-IsLived :
    (a : Activity) (t : List Activity) (p q : Place)
    → IsPlain a
    → IsLived t p
    → step p a ≡ some q
    → IsLived (a ∷ t) q
plain_step-IsLived a t p q h i e =
    let (b, same) = stay-inv p q (works p a && is_up p) (sym (plain-step p a h) ∙ e) in
    subst (IsLived (a ∷ t)) same (plain-IsLived a t p h i)

step-IsLived :
    (a : Activity) (t : List Activity) (p q : Place)
    → IsLived t p
    → step p a ≡ some q
    → IsLived (a ∷ t) q
unfolding step labels_after
step-IsLived (swap_label r l) t p q i e = swap-IsLived r l t p q i (swap_move-inv r (moves p l) q e)
step-IsLived merge_branch t p q i e =
    let (b, same) = stay-inv p q (works p merge_branch && is_up p) e in
    subst (IsLived (merge_branch ∷ t)) same (record {
      labels = i.labels;
      behind = λ _. works-merge_branch p (is_up p) b;
      asks = omega (arith, i.asks);
      bounded = i.bounded;
    })
step-IsLived teardown_worker t p q i e =
    let (b, same) = stay-inv (down p) q (is_up p) e in
    subst (IsLived (teardown_worker ∷ t)) same (record {
      labels = i.labels;
      behind = i.behind;
      asks = omega (arith, i.asks);
      bounded = i.bounded;
    })
step-IsLived setup_worker t off q i e =
    let same : ready ≡ q = cc e in
    subst (IsLived (setup_worker ∷ t)) same (record {
      labels = i.labels;
      behind = i.behind;
      asks = omega (arith, i.asks);
      bounded = omega arith;
    })
step-IsLived setup_worker t _ q i e = cc
step-IsLived a t p q i e = plain_step-IsLived a t p q tt i e

empty-IsLived : IsLived [] off
unfolding labels_after
empty-IsLived = record {
  labels = refl;
  behind = λ h. cc;
  asks = omega arith;
  bounded = omega arith;
}

-- Whatever the activities were, if they follow the life of an issue.
pub life-IsLived : (t : List Activity) (p : Place) → life t ≡ some p → IsLived t p
unfolding life labels_after
life-IsLived [] p e = let same : off ≡ p = cc e in subst (IsLived []) same empty-IsLived
life-IsLived (a ∷ t) p e = elim (Option-cases (life t)) [
  | inl h ↦ absurd (nowhere (life t) h e)
  | inr (q, h) ↦
      step-IsLived a t q p (life-IsLived t q h)
        (subst (λ (o : Option Place). step_from o a ≡ some p) h e)
]
  where
    nowhere : (o : Option Place) → o ≡ none → step_from o a ≡ some p → ⊥
    nowhere none h e = cc
    nowhere (some q) h e = cc
