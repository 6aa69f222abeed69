-- ===== src/Publish/Policy/Record.antt =====
-- What `publish_from_policy` (publish/src/lib.rs) records, and when its record cannot be made.
use janitor.Base.{
  ◌≡◌, refl, some, List, [], ◌∷◌, ◌++◌, Outcome, ok, err, panic, arith, inl, inr, eq_iff,
}
use janitor.Publish.Mode.{Mode}
use janitor.Publish.Failure.{PublishError, failure, branch_busy, handle_publish_failure}
use janitor.Publish.Database.{Publish}
use janitor.Publish.Store.Attempts.{publishes-store_publish}
use janitor.Publish.Policy.Types.{Campaign, Environment, World, PolicyArgs, PublishOneResult}
use janitor.Publish.Policy.Gates.{Target}
use janitor.Publish.Policy.Worker.{announce, Folded, publish_row}
use janitor.Publish.Policy.{record_outcome, after_worker, run_worker, publish_from_policy}
use janitor.Publish.Policy.Frame.{announce_frame, record_outcome_cases, run_worker_cases}
use janitor.Publish.Policy.Guards.{publish_from_policy_cases}

-- The attempt that is recorded for a run and role when a publish of mode `m` succeeds.
pub record IsRecorded (a : PolicyArgs) (m : Mode) (before after : List Publish) : Type 0 where
  pub row : Publish
  pub added : after ≡ before ++ row ∷ []
  pub success : row.result_code ≡ "success"
  pub mode : row.mode ≡ m
  pub run_id : row.run_id ≡ some a.run.id
  pub role : row.role ≡ a.role

module _ (env : Environment) (campaign : Campaign) (a : PolicyArgs) where
  announce-some :
      (p : Publish) (w : World) (m : Mode)
      → (announce env a p w).0 ≡ ok (some m)
      → (p.result_code ≡ "success") × (p.mode ≡ m)
  unfolding announce
  announce-some p w m h = ground (arith, eq_iff p.result_code "success")

  record_outcome-IsRecorded :
      (mode : Mode) (t : Target) (f : Folded) (w : World) (m : Mode)
      → (record_outcome env campaign a mode t f w).0 ≡ ok (some m)
      → IsRecorded a m w.db.publishes (record_outcome env campaign a mode t f w).1.db.publishes
  unfolding publish_row
  record_outcome-IsRecorded mode t f w m h = elim (record_outcome_cases env a campaign mode t f w) [
    | inl (e, same) ↦ absurd (cc same)
    | inr (db', e, same) ↦
        let said = announce-some (publish_row env campaign a mode t f) _ m (rw same at h) in
        record {
          row = publish_row env campaign a mode t f;
          added =
              rw same (rw ((announce_frame env a _ _).1) (publishes-store_publish _ w.db db' e));
          success = said.0;
          mode = said.1;
          run_id = refl;
          role = refl;
        }
  ]

  after_worker-IsRecorded :
      (mode : Mode) (t : Target) (o : Outcome PublishError PublishOneResult) (w : World) (m : Mode)
      → (after_worker env campaign a mode t o w).0 ≡ ok (some m)
      → IsRecorded a m w.db.publishes (after_worker env campaign a mode t o w).1.db.publishes
  unfolding after_worker
  after_worker-IsRecorded mode t (ok r) w m h = record_outcome-IsRecorded mode t _ w m h
  after_worker-IsRecorded mode t (err (failure c d)) w m h =
      record_outcome-IsRecorded mode t _
        (record w {
          scheduled =
              w.scheduled
              ++ (handle_publish_failure (failure c d) w.db.last_runs a.run "update-new-mp").1;
        })
        m h
  after_worker-IsRecorded mode t (err (branch_busy url)) w m h = absurd (cc)
  after_worker-IsRecorded mode t (err _) w m h = absurd (cc)
  after_worker-IsRecorded mode t panic w m h = absurd (cc)

  run_worker-IsRecorded :
      (mode : Mode) (t : Target) (w : World) (m : Mode)
      → (run_worker env campaign a mode t w).0 ≡ ok (some m)
      → IsRecorded a m w.db.publishes (run_worker env campaign a mode t w).1.db.publishes
  run_worker-IsRecorded mode t w m h = elim (run_worker_cases env a campaign mode t w) [
    | inl same ↦ absurd (cc same)
    | inr same ↦ rw same (after_worker-IsRecorded mode t _ _ m (rw same at h))
  ]

  -- Whenever `publish_from_policy` says that it published with mode `m`, it has added exactly one
  -- row to the `publish` table: a success of mode `m` for this run and role.
  pub publish_from_policy-IsRecorded :
      (w : World) (m : Mode)
      → (publish_from_policy env campaign a w).0 ≡ ok (some m)
      → IsRecorded a m w.db.publishes (publish_from_policy env campaign a w).1.db.publishes
  publish_from_policy-IsRecorded w m h = elim (publish_from_policy_cases env campaign a w) [
    | inl (w', same, k, d, l) ↦ absurd (cc same)
    | inr (t, ht, hd, same) ↦ rw same (run_worker-IsRecorded a.mode t w m (rw same at h))
  ]
