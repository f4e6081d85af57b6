-- ===== src/Issue/Labels.antt =====
-- The labels of the issue: the edit of `swap_state_label_activity` in
-- src/darkfactory/runtime/activities.py, and what a trace leaves.
use local_dafa.Base.{
  ℕ, zero, suc, Bool, true, not, List, [], ◌∷◌, ◌++◌, ◌≡◌, refl, any, filter, ap, sym, ◌∙◌,
  nat_beq_iff,
}
use local_dafa.State.Records.{Label}
use local_dafa.Issue.Machine.{Activity, swap_label}
use local_dafa.Issue.Life.{label_number, same_label}

abbrev pub has_label : List Label → Label → Bool
has_label ls l = any (λ x. same_label x l) ls

-- The labels to take off and to put on: those that the issue carries, and those that it lacks.
pub record LabelEdit : Type 0 where
  pub remove_labels : List Label
  pub add_labels : List Label

unfoldable pub label_edit : List Label → List Label → Label → LabelEdit
label_edit existing remove add = record {
  remove_labels = filter (has_label existing) remove;
  add_labels = filter (λ l. not (has_label existing l)) (add ∷ []);
}

-- What GitHub makes of an edit.
unfoldable pub edited : List Label → LabelEdit → List Label
edited existing e = filter (λ l. not (has_label e.remove_labels l)) existing ++ e.add_labels

-- The state labels that a trace leaves on an issue that was ready, the last activity first.
unfoldable pub labels_after : List Activity → List Label
unfolding label_edit edited
labels_after [] = Label.ready ∷ []
labels_after (swap_label remove add ∷ t) =
    let existing = labels_after t in edited existing (label_edit existing remove add)
labels_after (_ ∷ t) = labels_after t

-- A label by its number, for equality.
label_at : ℕ → List Label → Label
label_at n [] = Label.ready
label_at zero (l ∷ ls) = l
label_at (suc n) (l ∷ ls) = label_at n ls

abbrev all_labels : List Label
all_labels =
    Label.ready ∷ Label.triaging ∷ Label.needs_clarification ∷ Label.designing
    ∷ Label.awaiting_approval ∷ Label.approved ∷ Label.building ∷ Label.verifying ∷ Label.reviewing
    ∷ Label.awaiting_merge ∷ Label.fixing ∷ Label.in_progress ∷ Label.done ∷ Label.needs_human
    ∷ Label.cancel ∷ Label.canceled ∷ []

number_label : ℕ → Label
unfolding label_at
number_label n = label_at n all_labels

number_label-label_number : (l : Label) → number_label (label_number l) ≡ l
unfolding number_label
number_label-label_number Label.ready = refl
number_label-label_number Label.triaging = refl
number_label-label_number Label.needs_clarification = refl
number_label-label_number Label.designing = refl
number_label-label_number Label.awaiting_approval = refl
number_label-label_number Label.approved = refl
number_label-label_number Label.building = refl
number_label-label_number Label.verifying = refl
number_label-label_number Label.reviewing = refl
number_label-label_number Label.awaiting_merge = refl
number_label-label_number Label.fixing = refl
number_label-label_number Label.in_progress = refl
number_label-label_number Label.done = refl
number_label-label_number Label.needs_human = refl
number_label-label_number Label.cancel = refl
number_label-label_number Label.canceled = refl

pub same_label-eq : (a b : Label) → same_label a b ≡ true → a ≡ b
same_label-eq a b h =
    sym (number_label-label_number a)
    ∙ (ap number_label ((nat_beq_iff (label_number a) (label_number b)).0 h)
        ∙ number_label-label_number b)
