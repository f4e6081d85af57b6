-- ===== src/Hooks/LoopBreaker.antt =====
-- src/darkfactory/hooks/loop_breaker.py: a session that repeats the same three tool calls.
use local_dafa.Base.{
  ℕ, ◌+◌, Bool, true, false, ◌||◌, List, [], ◌∷◌, ◌++◌, Text, codes, length, last_n, leb, ltb,
  if◌then◌else◌, nat_eq, list_eq, pair_eq, Dict, get, insert,
}
use local_dafa.Hooks.CallCap.{Verdict, allow, deny}

abbrev pub Triplet : Type 0
Triplet = Text × (Text × Text)

-- `(hashes[i], hashes[i + 1], hashes[i + 2])` for each `i` of the loop.
unfoldable pub triplets : List Text → List Triplet
triplets [] = []
triplets (a ∷ []) = []
triplets (a ∷ b ∷ []) = []
triplets (a ∷ b ∷ c ∷ rest) = (a, (b, c)) ∷ triplets (b ∷ c ∷ rest)

-- The loop over the triplets, with the counts so far.
unfoldable pub scan_triplets : ℕ → Dict Triplet ℕ → List Triplet → Bool
scan_triplets min_repeats counts [] = false
scan_triplets min_repeats counts (tri ∷ rest) =
    let n = get tri 0 counts + 1 in
    let later = scan_triplets min_repeats (insert tri n counts) rest in
    if leb min_repeats n then true else later

unfoldable pub detect_repeating_triplet : List Text → ℕ → Bool
unfolding triplets
detect_repeating_triplet hashes min_repeats =
    if ltb (length hashes) 3 || ltb min_repeats 2
    then false
    else scan_triplets min_repeats [] (triplets hashes)

-- `history.append(hash)`, and all but the last entries of the window deleted.
unfoldable pub remember : ℕ → List Text → Text → List Text
remember window history hash =
    let history' = history ++ hash ∷ [] in
    if ltb window (length history') then last_n window history' else history'

abbrev pub reconsider_text : Text
reconsider_text =
    codes
      "You appear to be repeating the same tool-call pattern. Stop, reconsider your approach, and try a different strategy."

-- The hook on a call with this hash, and the closure's history after it.
unfoldable pub loop_breaker_hook : ℕ → ℕ → List Text → Text → Verdict × List Text
unfolding remember
loop_breaker_hook window min_repeats history hash =
    let history' = remember window history hash in
    (
      if detect_repeating_triplet history' min_repeats then deny reconsider_text else allow,
      history',
    )

-- The history after these calls.
unfoldable pub history_after : ℕ → ℕ → List Text → List Text → List Text
unfolding loop_breaker_hook
history_after window min_repeats history [] = history
history_after window min_repeats history (h ∷ hs) =
    let (_, history') = loop_breaker_hook window min_repeats history h in
    history_after window min_repeats history' hs
