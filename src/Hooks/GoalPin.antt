-- ===== src/Hooks/GoalPin.antt =====
-- src/darkfactory/hooks/goal_pin.py: a reminder of the goal at every n-th prompt.
use local_dafa.Base.{
  ℕ, zero, suc, ◌+◌, ◌/◌, ◌%◌, Option, none, some, ◌++◌, ◌≡◌, refl, arith, ◌⊎◌, inl, inr, ◌≢◌,
  Bool-cases, Text, codes, is_some, ◌<◌, is_empty, ltb, if◌then◌else◌, ◌==◌, nat_eq,
}

unfoldable pub format : Text → Text → Text
format user_request spec_summary =
    let body = codes "GOAL REMINDER\nUser request: " ++ user_request in
    if is_empty spec_summary then body else body ++ (codes "\nSpec summary: " ++ spec_summary)

-- `make_goal_pin`: `none` is the ValueError for an interval below one.
pub record GoalPin : Type 0 where
  pub user_request : Text
  pub spec_summary : Text
  pub every_n : ℕ

unfoldable pub make_goal_pin : Text → Text → ℕ → Option GoalPin
make_goal_pin user_request spec_summary every_n =
    if ltb every_n 1
    then none
    else some
        (record { user_request = user_request; spec_summary = spec_summary; every_n = every_n })

-- The context that a prompt gets, and the closure's counter after it.
unfoldable pub goal_pin_hook : GoalPin → ℕ → Option Text × ℕ
unfolding format
goal_pin_hook pin counter =
    let counter' = counter + 1 in
    (
      if counter' % pin.every_n == 0 then some (format pin.user_request pin.spec_summary) else none,
      counter',
    )

-- How many of the next prompts are reminded, and the counter after them.
unfoldable pub reminders : GoalPin → ℕ → ℕ → ℕ
reminders pin counter zero = 0
reminders pin counter (suc n) =
    let (context, counter') = goal_pin_hook pin counter in
    let later = reminders pin counter' n in if is_some context then suc later else later

div_step_exact : (m k : ℕ) → 0 < k → (m + 1) % k ≡ 0 → (m + 1) / k ≡ m / k + 1
div_step_exact m k h e = grind arith

div_step_rest : (m k : ℕ) → 0 < k → (m + 1) % k ≢ 0 → (m + 1) / k ≡ m / k
div_step_rest m k h e = grind arith

div_step : (m k : ℕ) → 0 < k → (m + 1) / k ≡ (if (m + 1) % k == 0 then m / k + 1 else m / k)
div_step m k h = elim (Bool-cases ((m + 1) % k == 0)) [
  | inl e ↦ rw e (div_step_exact m k h (ground arith))
  | inr e ↦ rw e (div_step_rest m k h (ground arith))
]

reminders_from :
    (pin : GoalPin) (counter n : ℕ)
    → 0 < pin.every_n
    → reminders pin counter n + counter / pin.every_n ≡ (counter + n) / pin.every_n
unfolding reminders goal_pin_hook
reminders_from pin counter zero h =
    let e : counter + 0 ≡ counter = omega arith in rw e (omega arith)
reminders_from pin counter (suc n) h =
    let e : counter + 1 + n ≡ counter + suc n = omega arith in
    ground (arith, reminders_from pin (counter + 1) n h, e, div_step counter pin.every_n h)

-- A goal pin exists exactly for an interval of at least one, and then reminds of the goal at every
-- such number of prompts: of any number of prompts from the start of the session, as many are
-- reminded as the interval fits into the number.
pub reminders_lem :
    (user_request spec_summary : Text) (every_n : ℕ)
    → ((every_n ≡ 0) × (make_goal_pin user_request spec_summary every_n ≡ none))
      ⊎ ((pin : GoalPin) × (make_goal_pin user_request spec_summary every_n ≡ some pin)
          × ((n : ℕ) → reminders pin 0 n ≡ n / every_n))
unfolding make_goal_pin
reminders_lem user_request spec_summary zero = inl (refl, refl)
reminders_lem user_request spec_summary (suc m) =
    let pin : GoalPin = record {
      user_request = user_request;
      spec_summary = spec_summary;
      every_n = suc m;
    } in
    inr (pin, ground arith, λ n. ground (arith, reminders_from pin 0 n (omega arith)))
