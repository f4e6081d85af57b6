-- ===== src/State/BoundedLog.antt =====
-- The logs of src/darkfactory/state.py that `_bounded_add` caps.
use local_dafa.Base.{
  ℕ, ◌-◌, ◌≤◌, List, [], ◌∷◌, ◌++◌, ◌≡◌, sym, ◌∙◌, ap, inl, inr, arith, length, last_n, drop, ltb,
  append_assoc, append-nil, length-drop, last_n-append, drop_of_nil, Bool-cases,
}
use local_dafa.State.Reducers.{EnvValue, resolve_cap, bounded_add}

module _ {A : Type 0} where
  bounded_add-eq-last_n : (cap : ℕ) (xs ys : List A) → bounded_add cap xs ys ≡ last_n cap (xs ++ ys)
  unfolding bounded_add
  bounded_add-eq-last_n cap xs ys = elim (Bool-cases (ltb cap (length (xs ++ ys)))) [
    | inl long ↦ rw long
    | inr short ↦
        let e : length (xs ++ ys) - cap ≡ 0 = ground (arith, short) in
        rw short (sym (ap (λ (n : ℕ). drop n (xs ++ ys)) e))
  ]

  -- The log after a delta for each of these batches.
  unfoldable pub log_after : ℕ → List A → List (List A) → List A
  log_after cap log [] = log
  log_after cap log (b ∷ bs) = log_after cap (bounded_add cap log b) bs

  -- Everything that was ever logged.
  unfoldable pub history : List (List A) → List A
  history [] = []
  history (b ∷ bs) = b ++ history bs

  log_from :
      (cap : ℕ) (xs : List A) (bs : List (List A))
      → log_after cap (last_n cap xs) bs ≡ last_n cap (xs ++ history bs)
  unfolding log_after history
  log_from cap xs [] = rw append-nil
  log_from cap xs (b ∷ bs) =
      rw (bounded_add-eq-last_n cap (last_n cap xs) b, last_n-append cap xs b)
        (log_from cap (xs ++ b) bs ∙ ap (last_n cap) (append_assoc xs b (history bs)))

-- Whatever the environment holds, the cap is at least one, and after any batches the log is exactly
-- the last entries of all that was logged, at most the cap of them.
pub log_after_lem :
    {A : Type 0} (value : EnvValue) (default : ℕ) (batches : List (List A))
    → 1 ≤ default
    → let cap = resolve_cap value default in
      (1 ≤ cap)
      × (log_after cap [] batches ≡ last_n cap (history batches))
      × (length (log_after cap [] batches) ≤ cap)
unfolding resolve_cap
log_after_lem {A} value default batches h =
    let cap = resolve_cap value default in
    let nil : last_n {A = A} cap [] ≡ [] = drop_of_nil (0 - cap) in
    let e : log_after cap [] batches ≡ last_n cap (history batches) =
      rw nil at (log_from cap [] batches) in
    (
      cap_pos value,
      e,
      rw e (omega (arith, length-drop (length (history batches) - cap) (history batches))),
    )
  where
    cap_pos : (v : EnvValue) → 1 ≤ resolve_cap v default
    cap_pos EnvValue.unset = omega arith
    cap_pos EnvValue.malformed = omega arith
    cap_pos EnvValue.negative = omega arith
    cap_pos (EnvValue.number n) = omega arith
