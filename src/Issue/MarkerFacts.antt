-- ===== src/Issue/MarkerFacts.antt =====
-- The phase comments of src/darkfactory/runtime/phase_comment.py against the filter of
-- src/darkfactory/runtime/issue_comments.py.
use mathlib.Core.Path.{subst}
use local_dafa.Base.{
  ℕ, zero, suc, ◌+◌, ◌%◌, ◌/◌, Bool, true, false, not, Option, none, some, List, [], ◌∷◌, ◌++◌, ◌≡◌,
  refl, Text, codes, arith, inl, inr, Bool-cases, is_empty, or_else, nat_beq, leb, All, All-append,
  show, show-All, if◌then◌else◌, append_assoc,
}
use local_dafa.State.Records.{IssueComment}
use local_dafa.Flow.Machine.{Result, ok, raised, pending_still}
use local_dafa.Issue.Machine.{Phase, triage, design, build, verify, pr, review, merge}
use local_dafa.Issue.Markers.{
  phase_name, plain_marker, numbered_marker, counted_marker, phase_marker, marker_for,
}
use local_dafa.Issue.Comments.{
  closes_from, after_word, marked_with, names_marker, marker_here, marker_in, marker_words,
  has_dark_factory_marker, filter_dark_factory_marker_comments,
}

-- No character closes a marker.
abbrev pub IsOpen : Text → Type 0
IsOpen = All (λ c. nat_beq c b'>' ≡ false)

closes-append :
    (xs ys : Text)
    → IsOpen xs
    → ((a b : ℕ) → closes_from a b ys ≡ true)
    → (a b : ℕ) → closes_from a b (xs ++ ys) ≡ true
unfolding closes_from
closes-append [] ys h k a b = k a b
closes-append (x ∷ xs) ys h k a b = rw (h.0) (closes-append xs ys h.1 k b x)

-- The end of a marker.
ending : (rest : Text) (a b : ℕ) → closes_from a b (codes " -->" ++ rest) ≡ true
unfolding closes_from
ending rest a b = refl

-- The end of a plain marker, from the colon on.
plain_ending :
    (p : Phase) (rest : Text) (a b : ℕ)
    → closes_from a b ((codes ":" ++ (phase_name p ++ codes " -->")) ++ rest) ≡ true
unfolding closes_from
plain_ending triage rest a b = refl
plain_ending design rest a b = refl
plain_ending build rest a b = refl
plain_ending verify rest a b = refl
plain_ending pr rest a b = refl
plain_ending review rest a b = refl
plain_ending merge rest a b = refl

show-IsOpen : (n : ℕ) → IsOpen (show n)
show-IsOpen = show-All (λ c. nat_beq c b'>' ≡ false) (λ n. ground arith)

-- A number and the end of the marker.
number_ending :
    (n : ℕ) (rest : Text) (a b : ℕ) → closes_from a b ((show n ++ codes " -->") ++ rest) ≡ true
number_ending n rest a b =
    rw (append_assoc (show n) (codes " -->") rest)
      (closes-append (show n) (codes " -->" ++ rest) (show-IsOpen n) (ending rest) a b)

numbered_ending :
    (p : Phase) (n : ℕ) (rest : Text) (a b : ℕ)
    → closes_from a b
        ((codes ":" ++ (phase_name p ++ (codes ":" ++ (show n ++ codes " -->")))) ++ rest)
      ≡ true
unfolding closes_from
numbered_ending triage n rest a b = number_ending n rest _ _
numbered_ending design n rest a b = number_ending n rest _ _
numbered_ending build n rest a b = number_ending n rest _ _
numbered_ending verify n rest a b = number_ending n rest _ _
numbered_ending pr n rest a b = number_ending n rest _ _
numbered_ending review n rest a b = number_ending n rest _ _
numbered_ending merge n rest a b = number_ending n rest _ _

-- A comment that begins with a phase marker is one of ours.
begins_marker :
    (wf ys rest : Text)
    → IsOpen wf
    → ((a b : ℕ) → closes_from a b (ys ++ rest) ≡ true)
    → marker_in marker_words ((codes "<!-- df-phase:" ++ (wf ++ ys)) ++ rest) ≡ true
unfolding marker_in marker_here after_word names_marker marked_with local_dafa.Base.lstrip
    local_dafa.Base.is_space
begins_marker wf ys rest h k =
    rw (append_assoc wf ys rest) (rw (closes-append wf (ys ++ rest) h k 0 0) refl)

-- What a comment with a marker begins with, where the marker was made.
abbrev IsFound : Text → Result Text → Type 0
IsFound rest (ok m) = marker_in marker_words (m ++ rest) ≡ true
IsFound rest (raised e) = Unit {0}
IsFound rest pending_still = Unit {0}

counted_marker-IsFound :
    (wf rest message : Text) (p : Phase) (n : Option ℕ)
    → IsOpen wf
    → IsFound rest (counted_marker wf p n message)
unfolding counted_marker numbered_marker
counted_marker-IsFound wf rest message p n h = elim (Bool-cases (nat_beq (or_else n 0) 0)) [
  | inl e ↦ rw e tt
  | inr e ↦
      let k = or_else n 0 in
      rw e (
        begins_marker wf (codes ":" ++ (phase_name p ++ (codes ":" ++ (show k ++ codes " -->"))))
          rest h (numbered_ending p k rest))
]

plain_marker-IsFound :
    (wf rest : Text) (p : Phase) → IsOpen wf → IsFound rest (ok (plain_marker wf p))
unfolding plain_marker
plain_marker-IsFound wf rest p h =
    begins_marker wf (codes ":" ++ (phase_name p ++ codes " -->")) rest h (plain_ending p rest)

phase_marker-IsFound :
    (wf rest : Text) (p : Phase) (rev attempt : Option ℕ)
    → IsOpen wf
    → IsFound rest (phase_marker wf p rev attempt)
unfolding phase_marker
phase_marker-IsFound wf rest triage rev attempt h = plain_marker-IsFound wf rest triage h
phase_marker-IsFound wf rest design rev attempt h = counted_marker-IsFound wf rest _ design rev h
phase_marker-IsFound wf rest build rev attempt h = plain_marker-IsFound wf rest build h
phase_marker-IsFound wf rest verify rev attempt h = plain_marker-IsFound wf rest verify h
phase_marker-IsFound wf rest pr rev attempt h = plain_marker-IsFound wf rest pr h
phase_marker-IsFound wf rest review rev attempt h =
    counted_marker-IsFound wf rest _ review attempt h
phase_marker-IsFound wf rest merge rev attempt h = plain_marker-IsFound wf rest merge h

marker_for-IsFound :
    (wf rest : Text) (p : Phase) (rev attempt : Option ℕ)
    → IsOpen wf
    → IsFound rest (marker_for wf p rev attempt)
unfolding marker_for
marker_for-IsFound wf rest p rev attempt h = elim (Bool-cases (is_empty wf)) [
  | inl e ↦ rw e tt
  | inr e ↦ rw e (phase_marker-IsFound wf rest p rev attempt h)
]

found-filtered :
    (c : IssueComment) (before after : List IssueComment)
    → marker_in marker_words c.body ≡ true
    → filter_dark_factory_marker_comments (before ++ c ∷ after)
      ≡ filter_dark_factory_marker_comments (before ++ after)
unfolding filter_dark_factory_marker_comments has_dark_factory_marker
found-filtered c [] after h = rw h refl
found-filtered c (x ∷ before) after h = ground (arith, found-filtered c before after h)

-- A comment whose body begins with the marker that `marker_for` makes for a phase, with any number
-- and any text after it, is dropped from the comments that the workflow takes over, wherever it
-- stands among them, if the workflow id has no `>`.
pub phase_comments_are_dropped :
    (wf rest m : Text) (p : Phase) (rev attempt : Option ℕ) (c : IssueComment)
    (before after : List IssueComment)
    → IsOpen wf
    → marker_for wf p rev attempt ≡ ok m
    → c.body ≡ m ++ rest
    → filter_dark_factory_marker_comments (before ++ c ∷ after)
      ≡ filter_dark_factory_marker_comments (before ++ after)
phase_comments_are_dropped wf rest m p rev attempt c before after h e b =
    let found = subst (IsFound rest) e (marker_for-IsFound wf rest p rev attempt h) in
    found-filtered c before after (rw b found)
