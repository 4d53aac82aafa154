-- ===== src/Run/Executor/Finish/Accepted.antt =====
-- The closure matrix of the evidence agrees with the status of the run.
use text.Mathlib.TextEquality.{eq_iff}
use ao_covenant.Base.{
  String, Bool, true, false, not, ◌&&◌, List, [], ◌∷◌, ◌≡◌, refl, sym, subst, arith,
  contains_string, contains_string-append, All, All-map, Any, Any-map, Bool-cases, inl, inr, ◌==◌,
  Outcome, ok, err, >>-ok, >>=-ok, each-ok, fail_if, fail_if-ok, ◌>>◌, ◌>>=◌,
}
use ao_covenant.Base.Dict.{Dict, lookup}
use ao_covenant.Text.{Host}
use ao_covenant.Contract.Types.{Contract, Task, Obligation}
use ao_covenant.Closure.{or_empty, evaluate, status_accepted, status_rejected}
use ao_covenant.Closure.Accepted.{Fulfils, Fulfilled, evaluate-accepted}
use ao_covenant.Run.Types.{Event, EventHashPayload, EvidencePack}
use ao_covenant.Run.Recorder.{emit}
use ao_covenant.Run.Executor.{
  Services, Run, Ending, denied, task_failed, ledger_error, context_error, no_progress, out_of_fuel,
  Step, going, stopped, satisfied_obligations, verify_required_obligations,
}
use ao_covenant.Run.Executor.Loop.{execute_tasks}
use ao_covenant.Run.Executor.Loop.States.{states_by, Tracked}
use ao_covenant.Run.Executor.Loop.Events.{run_of}
use ao_covenant.Run.Executor.Loop.Kept.{execute_tasks-Kept}
use ao_covenant.Run.Executor.Loop.Progress.{InTime, Goes}
use ao_covenant.Run.Executor.Loop.Fuel.{AllDone, execute_tasks-Goes}
use ao_covenant.Run.Executor.Finish.{
  RunFiles, Identity, FinishError, evidence_schema_invalid, of_file, of_recorder, with_digest,
  Report, ended, obligation_unsatisfied, unfinished, failed, succeeded, task_statuses,
  closure_input, evidence_pack, write_evidence, finish_run, satisfied, failing, succeeding,
  finish_execution, execute_run,
}

module _ (statuses : String → String) (id : String) where
  -- The task names the obligation, and its status is success, in the map too.
  abbrev Named : Dict String → Task → Type 0
  Named m t =
      (contains_string t.obligations id ≡ true)
      × (statuses t.id ≡ "success")
      × (or_empty (lookup m t.id) ≡ "success")

  abbrev statuses_of : List Task → Dict String
  statuses_of tasks = task_statuses (states_by statuses tasks)

  Named-cons :
      (t : Task) (tasks : List Task)
      → Any (Named (statuses_of tasks)) tasks
      → Any (Named (statuses_of (t ∷ tasks))) (t ∷ tasks)
  unfolding task_statuses states_by lookup
  Named-cons t tasks h = inr (
      Any-map (Named (statuses_of tasks)) (Named (statuses_of (t ∷ tasks))) tasks
        (λ u (named, status, found). (named, status, ground (arith, status, found))) h)

  satisfied-Named :
      (tasks : List Task)
      → contains_string (satisfied_obligations (states_by statuses tasks)) id ≡ true
      → Any (Named (statuses_of tasks)) tasks
  unfolding satisfied_obligations states_by task_statuses lookup
  satisfied-Named [] h = cc
  satisfied-Named (t ∷ tasks) h =
      let later = satisfied_obligations (states_by statuses tasks) in
      elim (Bool-cases (statuses t.id == "success")) [
        | inr e ↦ Named-cons t tasks (satisfied-Named tasks (ground arith))
        | inl e ↦ elim (Bool-cases (contains_string t.obligations id)) [
          | inl named ↦ inl (named, ground arith, ground arith)
          | inr other ↦ Named-cons t tasks (
              satisfied-Named tasks (ground (arith, contains_string-append t.obligations later id)))
        ]
      ]

module _ {World : Type 0} (c : Contract) (identity : Identity) where
  lacks :
      (run : Run World) (o : Obligation)
      → (o.required && not (contains_string (satisfied_obligations run.states) o.id)) ≡ false
      → o.required ≡ true
      → contains_string (satisfied_obligations run.states) o.id ≡ true
  lacks run o h required = ground arith

  -- What the executor requires before it succeeds is what the matrix requires.
  required-Fulfilled :
      (run : Run World)
      → Tracked c.tasks run.states
      → verify_required_obligations c run.states ≡ ok tt
      → All
          (λ o. o.required ≡ true → Fulfilled (closure_input c identity "success" run) o)
          c.obligations
  unfolding verify_required_obligations
  required-Fulfilled run (statuses, same) h =
      let input = closure_input c identity "success" run in
      let check = λ (o : Obligation).
        fail_if (o.required && not (contains_string (satisfied_obligations run.states) o.id))
          o.id in
      All-map (λ o. check o ≡ ok tt) (λ o. o.required ≡ true → Fulfilled input o) c.obligations
        (λ o checked required.
          Any-map (Named statuses o.id (statuses_of statuses o.id c.tasks)) (Fulfils input o.id)
            c.tasks (λ t (named, status, found). (named, rw same found))
            (satisfied-Named statuses o.id c.tasks
              (rw (sym same) (lacks run o (fail_if-ok _ _ checked) required))))
        (each-ok check c.obligations h)

  evidence-accepted :
      (run : Run World) (digest : String)
      → Tracked c.tasks run.states
      → verify_required_obligations c run.states ≡ ok tt
      → (evidence_pack c identity "success" run digest).closure_matrix.status ≡ status_accepted
  unfolding evidence_pack
  evidence-accepted run digest tracked h =
      (evaluate-accepted (closure_input c identity "success" run)).1
        (refl, required-Fulfilled run tracked h)

  evidence-rejected :
      (run : Run World) (digest : String)
      → (evidence_pack c identity "failed" run digest).closure_matrix.status ≡ status_rejected
  unfolding evidence_pack evaluate
  evidence-rejected run digest = ground (arith, eq_iff "failed" "success")

-- What a report promises.
abbrev pub Agrees : Report → Type 0
Agrees (ended ending) = InTime ending
Agrees (obligation_unsatisfied id) = Unit
Agrees (unfinished e) = Unit
Agrees (failed evidence ending) =
    (evidence.run_status ≡ "failed") × (evidence.closure_matrix.status ≡ status_rejected)
Agrees (succeeded evidence) =
    (evidence.run_status ≡ "success") × (evidence.closure_matrix.status ≡ status_accepted)

module _ {World : Type 0} (host : Host) (hash : EventHashPayload → String)
    (event_schema : Event → Bool) (write : Event → Bool) (services : Services World)
    (files : RunFiles) (c : Contract) (revoked : Dict Bool) (identity : Identity) where
  write_evidence-ok :
      (evidence written : EvidencePack)
      → write_evidence host hash event_schema write services files c revoked identity evidence
        ≡ ok written
      → evidence ≡ written
  unfolding write_evidence
  write_evidence-ok evidence written h =
      let checks = fail_if (not (files.evidence_schema evidence)) evidence_schema_invalid in
      let (_, same) = >>-ok (checks >> of_file (files.write_json evidence)) (ok evidence) h in
      cc same

  -- The evidence that is returned is that of the run, with the digest of its ledger.
  finish_run-pack :
      (status message : String) (run : Run World) (evidence : EvidencePack)
      → finish_run host hash event_schema write services files c revoked identity status message run
        ≡ ok evidence
      → (digest : String) × (evidence_pack c identity status run digest ≡ evidence)
  unfolding finish_run with_digest
  finish_run-pack status message run evidence h =
      let out = emit hash event_schema write run.recorder "run_finished" "" status message [] in
      let rest =
        with_digest host hash event_schema write services files c revoked identity status run in
      let digested = of_file (files.ledger_digest out.0.ledger) in
      let (_, after) =
        >>-ok (of_recorder out.1 >> of_file (files.flush out.0.ledger)) (digested >>= rest) h in
      let (digest, _, written) = >>=-ok digested rest after in
      (digest, write_evidence-ok (evidence_pack c identity status run digest) evidence written)

  succeeding-Agrees :
      (run : Run World) (out : Outcome FinishError EvidencePack)
      → finish_run host hash event_schema write services files c revoked identity "success"
          "run completed" run
        ≡ out
      → Tracked c.tasks run.states
      → verify_required_obligations c run.states ≡ ok tt
      → Agrees (succeeding host hash event_schema write services files c revoked identity out)
  unfolding evidence_pack
  succeeding-Agrees run (err e) h tracked verified = tt
  succeeding-Agrees run (ok evidence) h tracked verified =
      let (digest, same) = finish_run-pack "success" "run completed" run evidence h in
      subst
        (λ (e : EvidencePack).
          (e.run_status ≡ "success") × (e.closure_matrix.status ≡ status_accepted))
        same (refl, evidence-accepted c identity run digest tracked verified)

  failing-Agrees :
      (run : Run World) (ending : Ending) (out : Outcome FinishError EvidencePack)
      → finish_run host hash event_schema write services files c revoked identity "failed"
          "run failed" run
        ≡ out
      → Agrees (failing host hash event_schema write services files c revoked identity ending out)
  unfolding evidence_pack
  failing-Agrees run ending (err e) h = tt
  failing-Agrees run ending (ok evidence) h =
      let (digest, same) = finish_run-pack "failed" "run failed" run evidence h in
      subst
        (λ (e : EvidencePack).
          (e.run_status ≡ "failed") × (e.closure_matrix.status ≡ status_rejected))
        same (refl, evidence-rejected c identity run digest)

  satisfied-Agrees :
      (run : Run World) (verified : Outcome String (Unit {0}))
      → verify_required_obligations c run.states ≡ verified
      → Tracked c.tasks run.states
      → Agrees
          (satisfied host hash event_schema write services files c revoked identity run verified)
  satisfied-Agrees run (err id) h tracked = tt
  satisfied-Agrees run (ok tt) h tracked = succeeding-Agrees run _ refl tracked h

  execution-Agrees :
      (P : Run World → Type 0) (step : Step World)
      → Tracked c.tasks (run_of step).states
      → Goes P step
      → Agrees
          (finish_execution host hash event_schema write services files c revoked identity step)
  unfolding finish_execution
  execution-Agrees P (going run) tracked goes = satisfied-Agrees run _ refl tracked
  execution-Agrees P (stopped run (denied task d)) tracked goes =
      failing-Agrees run (denied task d) _ refl
  execution-Agrees P (stopped run (task_failed task e)) tracked goes =
      failing-Agrees run (task_failed task e) _ refl
  execution-Agrees P (stopped run (ledger_error e)) tracked goes = goes
  execution-Agrees P (stopped run (context_error e)) tracked goes = goes
  execution-Agrees P (stopped run no_progress) tracked goes = goes
  execution-Agrees P (stopped run out_of_fuel) tracked goes = goes

  -- Whatever the adapter and the files do, a run that returns the evidence of success has a closure
  -- matrix that is accepted, one that returns evidence with its error has failed and has a matrix that
  -- is rejected, and no run ends because the loop was given too few rounds.
  pub execute_run-Agrees :
      (world : World)
      → Agrees (execute_run host hash event_schema write services files c revoked identity world)
  unfolding execute_run
  execute_run-Agrees world =
      let step =
        execute_tasks host hash event_schema write services c revoked identity.run_id world in
      let kept =
        execute_tasks-Kept host hash event_schema write services c revoked identity.run_id
          (λ w. Unit) (λ w t a i now allowed h. tt) world tt in
      execution-Agrees (AllDone host hash event_schema write services c revoked) step kept.2
        (execute_tasks-Goes host hash event_schema write services c revoked identity.run_id world)
