-- ===== src/Hooks/CallCap.antt =====
-- src/darkfactory/hooks/call_cap.py: a cap on the tool calls of one session.
use local_dafa.Base.{
  ℕ, zero, suc, ◌+◌, ◌-◌, Bool, true, false, List, [], ◌∷◌, ◌++◌, ◌≡◌, refl, arith, Text, codes,
  show, leb, min, replicate, if◌then◌else◌, Bool-cases, inl, inr,
}

-- What a PreToolUse hook answers: nothing, or a denial with its reason.
pub data Verdict : Type 0 where
  allow : Verdict
  deny : Text → Verdict

abbrev pub is_allowed : Verdict → Bool
is_allowed allow = true
is_allowed (deny _) = false

-- `{}`, or the denial, and the closure's counter after the call.
unfoldable pub call_cap_hook : ℕ → ℕ → Verdict × ℕ
call_cap_hook max_turns counter =
    let counter' = counter + 1 in
    (
      if leb counter' max_turns
          then allow
          else deny (
              codes "Tool-call cap of "
              ++ (show max_turns
                  ++ codes
                      " exceeded for this agent. Stop, summarise progress and outstanding work, then produce your final structured response.")),
      counter',
    )

-- The verdicts of so many calls in a row.
unfoldable pub call_cap_session : ℕ → ℕ → ℕ → List Bool
call_cap_session max_turns counter zero = []
call_cap_session max_turns counter (suc n) =
    let (v, counter') = call_cap_hook max_turns counter in
    is_allowed v ∷ call_cap_session max_turns counter' n

-- A call within the cap is allowed, and one beyond it is not.
call_cap_hook_lem :
    (cap counter : ℕ)
    → (is_allowed (call_cap_hook cap counter).0 ≡ leb (counter + 1) cap)
      × ((call_cap_hook cap counter).1 ≡ counter + 1)
unfolding call_cap_hook
call_cap_hook_lem cap counter = (ground arith, refl)

-- From any count, the calls that the cap still admits are allowed and all later ones are denied.
capped_from :
    (cap counter n : ℕ)
    → call_cap_session cap counter n
      ≡ replicate (min n (cap - counter)) true ++ replicate (n - (cap - counter)) false
unfolding call_cap_session
capped_from cap counter zero =
    let e : min 0 (cap - counter) ≡ 0 = omega arith in
    let f : 0 - (cap - counter) ≡ 0 = omega arith in rw (e, f)
capped_from cap counter (suc n) = elim (Bool-cases (leb (counter + 1) cap)) [
  | inl within ↦
      let e : min (suc n) (cap - counter) ≡ suc (min n (cap - (counter + 1))) = ground arith in
      let f : suc n - (cap - counter) ≡ n - (cap - (counter + 1)) = ground arith in
      let (v, c) = call_cap_hook_lem cap counter in
      rw (e, f, v, c, within, capped_from cap (counter + 1) n)
  | inr beyond ↦
      let e : min (suc n) (cap - counter) ≡ 0 = ground arith in
      let f : suc n - (cap - counter) ≡ suc n = ground arith in
      let g : min n (cap - (counter + 1)) ≡ 0 = ground arith in
      let k : n - (cap - (counter + 1)) ≡ n = ground arith in
      let (v, c) = call_cap_hook_lem cap counter in
      rw (e, f, v, c, beyond, capped_from cap (counter + 1) n, g, k)
]

-- Of any number of calls in a session, the first `max_turns` are allowed and all others are denied.
pub call_cap_session_lem :
    (max_turns n : ℕ)
    → call_cap_session max_turns 0 n
      ≡ replicate (min n max_turns) true ++ replicate (n - max_turns) false
call_cap_session_lem max_turns n =
    let e : max_turns - 0 ≡ max_turns = omega arith in rw e at (capped_from max_turns 0 n)
