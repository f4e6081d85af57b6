-- ===== src/Tests/HookRuns.antt =====
-- The hooks on short sessions.
use local_dafa.Base.{
  join, ℕ, ◌-◌, ◌+◌, ◌/◌, ◌≤◌, Bool, true, false, Option, none, some, List, [], ◌∷◌, ◌++◌, ◌≡◌, ◌⊎◌,
  refl, arith, Text, codes, min, replicate, length, last_n, nat_eq, list_eq,
}
use local_dafa.Hooks.CallCap.{call_cap_session, call_cap_session_lem}
use local_dafa.Hooks.GoalPin.{GoalPin, make_goal_pin, reminders, reminders_lem}
use local_dafa.Hooks.LoopBreaker.{Triplet, triplets, detect_repeating_triplet, history_after}
use local_dafa.Hooks.LoopFacts.{occurrences, detect_iff, history_after_lem}
use local_dafa.Hooks.Permission.{Policy, check_argv, permission_gate, match_tool, text}
use local_dafa.Hooks.PermissionFacts.{
  is_granted, permits, check_argv_lem, permission_gate-refuses_merge,
}

call_cap_session_lem_example :
    call_cap_session 2 0 5 ≡ replicate (min 5 2) true ++ replicate (5 - 2) false
call_cap_session_lem_example = call_cap_session_lem 2 5

reminders_lem_example :
    ((◌≡◌ {A = ℕ} 5 0) × (make_goal_pin (codes "goal") [] 5 ≡ none))
    ⊎ ((pin : GoalPin) × (make_goal_pin (codes "goal") [] 5 ≡ some pin)
        × ((n : ℕ) → reminders pin 0 n ≡ n / 5))
reminders_lem_example = reminders_lem (codes "goal") [] 5

abbrev calls : List Text
calls =
    codes "r"
    ∷ codes "w"
    ∷ codes "t"
    ∷ codes "r"
    ∷ codes "w"
    ∷ codes "t"
    ∷ codes "r"
    ∷ codes "w"
    ∷ codes "t"
    ∷ []

calls_repeat : detect_repeating_triplet calls 3 ≡ true
unfolding detect_repeating_triplet local_dafa.Hooks.LoopBreaker.scan_triplets local_dafa.Base.get
    local_dafa.Base.lookup local_dafa.Base.insert local_dafa.Base.pair_beq local_dafa.Base.list_beq
calls_repeat = refl

detect_iff_example :
    (detect_repeating_triplet calls 3 ≡ true → (t : Triplet) × (3 ≤ occurrences t (triplets calls)))
    × ((t : Triplet) → 3 ≤ occurrences t (triplets calls) → detect_repeating_triplet calls 3 ≡ true)
detect_iff_example = detect_iff calls 3 (omega arith)

history_after_lem_example :
    (history_after 8 3 [] calls ≡ last_n 8 calls) × (length (history_after 8 3 [] calls) ≤ 8)
history_after_lem_example = history_after_lem 8 3 calls

abbrev policy : Policy
policy = record {
  role = codes "builder";
  allowlist = codes "git" ∷ codes "ls" ∷ codes "gh" ∷ [];
  denylist = (codes "git" ∷ codes "push" ∷ []) ∷ [];
  owned = ((codes "gh" ∷ codes "pr" ∷ codes "create" ∷ []), codes "pr_creator" ∷ []) ∷ [];
}

status_granted :
    is_granted (check_argv policy (codes "git" ∷ codes "status" ∷ []) (codes "git status")) ≡ true
unfolding check_argv local_dafa.Hooks.Permission.first_where local_dafa.Hooks.Permission.is_infix
    local_dafa.Hooks.Permission.argv_has_prefix local_dafa.Base.list_beq local_dafa.Base.contains
status_granted = refl

push_refused :
    is_granted (check_argv policy (codes "git" ∷ codes "push" ∷ []) (codes "git push")) ≡ false
unfolding check_argv local_dafa.Hooks.Permission.first_where local_dafa.Hooks.Permission.is_infix
    local_dafa.Hooks.Permission.argv_has_prefix local_dafa.Base.list_beq
push_refused = refl

check_argv_lem_example :
    is_granted (check_argv policy (codes "git" ∷ codes "push" ∷ []) (codes "git push"))
    ≡ permits policy (codes "git" ∷ codes "push" ∷ []) (codes "git push")
check_argv_lem_example = check_argv_lem policy (codes "git" ∷ codes "push" ∷ []) (codes "git push")

abbrev words : Text → Option (List Text)
words t = some (codes "gh" ∷ codes "pr" ∷ codes "merge" ∷ codes "7" ∷ [])

bash_matches : match_tool (codes "Bash") (codes "Bash") ≡ true
unfolding match_tool local_dafa.Base.list_beq
bash_matches = refl

permission_gate-refuses_merge_example :
    is_granted (permission_gate words policy (codes "Bash") (text (codes "gh pr merge 7"))) ≡ false
permission_gate-refuses_merge_example =
    permission_gate-refuses_merge words policy (codes "Bash") (codes "gh pr merge 7")
      (codes "7" ∷ []) bash_matches refl
