-- ===== src/Issue/TriageEnds.antt =====
-- The triage of src/darkfactory/runtime/issue_workflow.py ends: four rounds are enough.
use local_dafa.Base.{
  ℕ, zero, suc, ◌+◌, ◌≤◌, true, false, ◌≡◌, refl, ap, ◌∙◌, sym, arith, inl, inr, Bool-cases,
  or_else, leb,
}
use local_dafa.State.Channels.{Delta, ready_to_build}
use local_dafa.Issue.Machine.{Service, Flow, ◌>>=◌, ◌>>◌, Exit, or_return}
use local_dafa.State.Records.{Label}
use local_dafa.Issue.Steps.{cancel_if_requested}
use local_dafa.Issue.Triage.{
  max_clarification_rounds, delta_get, drain, ask_triage, after_triage, triage_loop,
}

module _ (env : Service) (waits : ℕ) where
  -- After the last round the loop does not go on.
  last_round :
      (n : ℕ) (d : Delta) (again again' : Flow Exit)
      → leb max_clarification_rounds n ≡ true
      → after_triage env waits n d again ≡ after_triage env waits n d again'
  unfolding after_triage
  last_round n d again again' h = elim (Bool-cases (or_else (delta_get d ready_to_build) false)) [
    | inl e ↦ rw (after_triage, e) refl
    | inr e ↦ rw (after_triage, e, h) refl
  ]

  -- One round, by what it does after the verdict.
  round : (Delta → Flow Exit) → Flow Exit
  round judge = do
    e ← cancel_if_requested env Label.triaging
    or_return e (do drain env; d ← ask_triage env; judge d)

  unfold_round :
      (fuel n : ℕ)
      → triage_loop env (suc fuel) waits n
        ≡ round (λ d. after_triage env waits n d (triage_loop env fuel waits (n + 1)))
  unfolding triage_loop round
  unfold_round fuel n = refl

  -- What a round does with what follows it, or does not do after the last one.
  same_round :
      (n : ℕ) (d : Delta) (again again' : Flow Exit)
      → (leb max_clarification_rounds n ≡ false → again ≡ again')
      → after_triage env waits n d again ≡ after_triage env waits n d again'
  same_round n d again again' h = elim (Bool-cases (leb max_clarification_rounds n)) [
    | inl e ↦ last_round n d again again' e
    | inr e ↦ ap (after_triage env waits n d) (h e)
  ]

  -- One more unit of fuel changes nothing once the rounds left are covered.
  more_fuel :
      (fuel n : ℕ)
      → 4 ≤ fuel + n
      → n ≤ 3
      → triage_loop env (suc fuel) waits n ≡ triage_loop env fuel waits n
  more_fuel zero n h k = absurd (omega (arith, h, k))
  more_fuel (suc fuel) n h k =
      let next = λ (e : leb max_clarification_rounds n ≡ false).
        more_fuel fuel (n + 1) (omega (arith, h)) (ground (arith, e)) in
      unfold_round (suc fuel) n
      ∙ (ap round (λ i d.
            same_round n d (triage_loop env (suc fuel) waits (n + 1))
              (triage_loop env fuel waits (n + 1)) next i)
          ∙ sym (unfold_round fuel n))

-- Four rounds are enough fuel for a triage: more of it changes no outcome, whatever the service
-- replies. The waits for the author have a fuel of their own.
pub triage_needs_four_rounds :
    (env : Service) (waits k : ℕ) → triage_loop env (k + 4) waits 0 ≡ triage_loop env 4 waits 0
triage_needs_four_rounds env waits zero = refl
triage_needs_four_rounds env waits (suc k) =
    let e : suc k + 4 ≡ suc (k + 4) = omega arith in
    rw e (
      more_fuel env waits (k + 4) 0 (omega arith) (omega arith)
      ∙ triage_needs_four_rounds env waits k)
