-- ===== src/Hooks/LoopFacts.antt =====
-- When the loop breaker of src/darkfactory/hooks/loop_breaker.py denies a call, and what it
-- remembers.
use local_dafa.Base.{
  ℕ, suc, ◌+◌, ◌-◌, ◌≤◌, ◌<◌, true, false, List, [], ◌∷◌, ◌++◌, ◌≡◌, refl, ◌∙◌, sym, ap, inl, inr,
  arith, Text, length, drop, last_n, leb, ltb, nat_eq, list_eq, pair_eq, ◌==◌, eq_iff, Bool-cases,
  Dict, lookup, get, insert, get-insert, if◌then◌else◌, length-drop, append_assoc, append-nil,
  drop_of_nil, last_n-append,
}
use local_dafa.Hooks.LoopBreaker.{
  Triplet, triplets, scan_triplets, detect_repeating_triplet, remember, history_after,
}

-- How often a triplet stands in a list.
unfoldable pub occurrences : Triplet → List Triplet → ℕ
occurrences t [] = 0
occurrences t (x ∷ xs) = let n = occurrences t xs in if x == t then suc n else n

-- The scan stops exactly where a count, with what is to come, reaches the minimum.
scan_sound :
    (m : ℕ) (counts : Dict Triplet ℕ) (tris : List Triplet)
    → scan_triplets m counts tris ≡ true
    → (t : Triplet) × (m ≤ get t 0 counts + occurrences t tris)
unfolding scan_triplets occurrences
scan_sound m counts [] h = absurd (ground (arith, h))
scan_sound m counts (x ∷ xs) h = elim (Bool-cases (leb m (get x 0 counts + 1))) [
  | inl e ↦ (x, ground (arith, eq_iff x x))
  | inr e ↦
      let (t, le) = scan_sound m (insert x (get x 0 counts + 1) counts) xs (ground arith) in
      (t, ground (arith, le, eq_iff x t, get-insert x t (get x 0 counts + 1) 0 counts))
]

scan_complete :
    (m : ℕ) (counts : Dict Triplet ℕ) (tris : List Triplet) (t : Triplet)
    → get t 0 counts < m
    → m ≤ get t 0 counts + occurrences t tris
    → scan_triplets m counts tris ≡ true
unfolding scan_triplets occurrences
scan_complete m counts [] t lt le = absurd (omega arith)
scan_complete m counts (x ∷ xs) t lt le = elim (Bool-cases (leb m (get x 0 counts + 1))) [
  | inl e ↦ rw e
  | inr e ↦
      let c = insert x (get x 0 counts + 1) counts in
      let g = get-insert x t (get x 0 counts + 1) 0 counts in
      rw e (scan_complete m c xs t (ground (arith, g, eq_iff x t)) (ground (arith, g, eq_iff x t)))
]

short_triplets : (hs : List Text) → length hs < 3 → triplets hs ≡ []
unfolding triplets
short_triplets [] h = refl
short_triplets (a ∷ []) h = refl
short_triplets (a ∷ b ∷ []) h = refl
short_triplets (a ∷ b ∷ c ∷ rest) h = absurd (omega arith)

no_count : (t : Triplet) → get {V = ℕ} t 0 [] ≡ 0
unfolding get lookup
no_count t = refl

-- The guard of the detection only skips histories without a triplet.
detect-scan :
    (hs : List Text) (m : ℕ)
    → 2 ≤ m
    → detect_repeating_triplet hs m ≡ scan_triplets m [] (triplets hs)
unfolding detect_repeating_triplet
detect-scan hs m two = elim (Bool-cases (ltb (length hs) 3)) [
  | inl short ↦ rw (short, short_triplets hs (ground arith)) (unfold scan_triplets in refl)
  | inr long ↦ let e : ltb m 2 ≡ false = ground arith in rw (long, e)
]

-- With a minimum of two or more, a history is found repeating exactly when some triplet of
-- consecutive calls stands in it at least that often.
pub detect_iff :
    (hs : List Text) (m : ℕ)
    → 2 ≤ m
    → (detect_repeating_triplet hs m ≡ true → (t : Triplet) × (m ≤ occurrences t (triplets hs)))
      × ((t : Triplet) → m ≤ occurrences t (triplets hs) → detect_repeating_triplet hs m ≡ true)
detect_iff hs m two = (
  (λ h.
      let (t, le) = scan_sound m [] (triplets hs) (sym (detect-scan hs m two) ∙ h) in
      (t, omega (arith, le, no_count t))),
  λ t le.
      detect-scan hs m two
      ∙ scan_complete m [] (triplets hs) t (omega (arith, no_count t)) (omega (arith, no_count t)),
)

remember-eq-last_n :
    (w : ℕ) (xs : List Text) (h : Text) → remember w (last_n w xs) h ≡ last_n w (xs ++ h ∷ [])
unfolding remember
remember-eq-last_n w xs h = elim (Bool-cases (ltb w (length (last_n w xs ++ h ∷ [])))) [
  | inl long ↦ rw long (last_n-append w xs (h ∷ []))
  | inr short ↦
      let e : length (last_n w xs ++ h ∷ []) - w ≡ 0 = ground (arith, short) in
      rw short
        (sym (ap (λ (t : ℕ). drop t (last_n w xs ++ h ∷ [])) e) ∙ last_n-append w xs (h ∷ []))
]

history_from :
    (w m : ℕ) (xs hs : List Text) → history_after w m (last_n w xs) hs ≡ last_n w (xs ++ hs)
unfolding history_after
history_from w m xs [] = rw append-nil
history_from w m xs (h ∷ hs) =
    rw (remember-eq-last_n w xs h, history_from w m (xs ++ h ∷ []) hs)
      (ap (last_n w) (append_assoc xs (h ∷ []) hs))

-- After any calls the breaker remembers exactly the last ones, at most a window of them, whatever
-- it answered.
pub history_after_lem :
    (window min_repeats : ℕ) (hs : List Text)
    → (history_after window min_repeats [] hs ≡ last_n window hs)
      × (length (history_after window min_repeats [] hs) ≤ window)
history_after_lem w m hs =
    let nil : last_n {A = Text} w [] ≡ [] = drop_of_nil (0 - w) in
    let e : history_after w m [] hs ≡ last_n w hs = rw nil at (history_from w m [] hs) in
    (e, rw e (omega (arith, length-drop (length hs - w) hs)))
