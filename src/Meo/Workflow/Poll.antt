-- ===== src/Meo/Workflow/Poll.antt =====
-- meo/meo_plugin.py: the loop that waits for an execution ends.
use apmec.Prelude.{
  ℕ, zero, suc, ◌+◌, ◌≤◌, String, ◌≡◌, refl, ap, ◌∙◌, true, false, ◌==◌, ◌⊎◌, inl, inr, Bool-cases,
  arith, eq_iff,
}
use apmec.Errors.{ok}
use apmec.Exec.{◌>>=◌}
use apmec.Meo.Ns.{MistralObj}
use apmec.Mec.World.{call}
use apmec.Meo.Workflow.{Workflows, Orchestra, on_world, ask, is_done, poll}

-- The state after some calls of the driver.
abbrev pub after_calls : ℕ → Orchestra → Orchestra
after_calls c o = record o { world = record o.world { calls = o.world.calls + c } }

after_none : (o : Orchestra) → o ≡ after_calls 0 o
after_none o =
    let same : o.world.calls ≡ o.world.calls + 0 = omega arith in
    ap (λ n. record o { world = record o.world { calls = n } }) same

after_more : (c : ℕ) (o : Orchestra) → after_calls c (after_calls 1 o) ≡ after_calls (suc c) o
after_more c o =
    let same : o.world.calls + 1 + c ≡ o.world.calls + suc c = omega arith in
    ap (λ n. record o { world = record o.world { calls = n } }) same

done_state : (s : String) → is_done s ≡ true → (s == "RUNNING") ≡ false
done_state s h = elim (Bool-cases (s == "SUCCESS")) [
  | inl success ↦ ap (λ x. x == "RUNNING") ((eq_iff s "SUCCESS").0 success)
  | inr other ↦ ap (λ x. x == "RUNNING") ((eq_iff s "ERROR").0 (rw other at h))
]

one_more :
    (c retries : ℕ) (last : String) (left : ℕ)
    → ((last == "RUNNING") ≡ false) ⊎ ((left ≡ 0) × (c ≡ retries))
    → ((last == "RUNNING") ≡ false) ⊎ ((left ≡ 0) × (suc c ≡ suc retries))
one_more c retries last left (inl other) = inl other
one_more c retries last left (inr (none_left, all_asked)) =
    inr (none_left, ap (λ n. suc n) all_asked)

module _ (flows : Workflows) (driver_type execution_id : String) where
  -- The loop ends within its retries: it asks the driver no more often, writes nothing, and gives a
  -- state other than RUNNING, or RUNNING and no retry left after it has asked with each.
  abbrev pub Ends : ℕ → String → Orchestra → Type 0
  Ends retries exec_state o =
      (last : String) × (left : ℕ) × (c : ℕ) × (poll flows driver_type execution_id retries
          exec_state o
        ≡ (ok (last, left), after_calls c o))
      × (c ≤ retries)
      × (((last == "RUNNING") ≡ false) ⊎ ((left ≡ 0) × (c ≡ retries)))

  module _ (answers : ℕ → MistralObj)
      (answered : (n : ℕ) → flows.get_execution n driver_type execution_id ≡ ok (answers n)) where
    pub poll-Ends : (retries : ℕ) (exec_state : String) (o : Orchestra) → Ends retries exec_state o
    unfolding poll ask on_world call ◌>>=◌
    poll-Ends zero exec_state o = (
      exec_state,
      0,
      0,
      ap (λ x. (ok (exec_state, 0), x)) (after_none o),
      omega arith,
      inr (refl, refl),
    )
    poll-Ends (suc retries) exec_state o = elim (Bool-cases (exec_state == "RUNNING")) [
      | inr other ↦ (
        exec_state,
        suc retries,
        0,
        rw other (ap (λ x. (ok (exec_state, suc retries), x)) (after_none o)),
        omega arith,
        inl other,
      )
      | inl running ↦ elim (Bool-cases (is_done (answers o.world.calls).state)) [
        | inl done ↦ (
          (answers o.world.calls).state,
          suc retries,
          1,
          rw (running, answered o.world.calls, done) refl,
          omega arith,
          inl (done_state (answers o.world.calls).state done),
        )
        | inr more ↦
            let (last, left, c, same, few, why) =
              poll-Ends retries (answers o.world.calls).state (after_calls 1 o) in
            (
              last,
              left,
              suc c,
              rw (running, answered o.world.calls, more)
                  (same ∙ ap (λ x. (ok (last, left), x)) (after_more c o)),
              omega (arith, few),
              one_more c retries last left why,
            )
      ]
    ]
