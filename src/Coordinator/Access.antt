-- ===== src/Coordinator/Access.antt =====
-- Reading and writing the case store, internal/recovery/coordinator: the first functions of
-- commit_analysis.go, and load_case.go.
use effexor_win_doctor.Prelude.{
  String, ◌==◌, if◌then◌else◌, not, Result, ok, err, guard, ◌>>=◌, ◌>>◌,
}
use effexor_win_doctor.CaseStore.Snapshot.{Snapshot}
use effexor_win_doctor.CaseStore.Types.{
  StoreError, case_exists, revision_conflict, case_locked, integrity, ParentExpectation, CommitInfo,
  IntegrityStatus, intact, degraded, corrupt, legacy_import, case_snapshot,
}
use effexor_win_doctor.Coordinator.{
  CommandError, invalid_argument, revision_conflict_error, case_already_exists, case_busy,
  case_corrupt, store_error, Store, CaseView, view_from,
}

-- The commit of the latest revision, if it can be read.
actual_commit : Result StoreError (Snapshot × CommitInfo) → String
actual_commit (err e) = ""
actual_commit (ok (s, info)) = info.commit_id

-- The lock is held: a conflict if the head has moved since, else busy.
when_locked : String → String → Result StoreError (Snapshot × CommitInfo) → CommandError
when_locked case_id expected (err e) = case_busy
when_locked case_id expected (ok (s, info)) =
    if expected == ""
    then case_busy
    else if info.commit_id == expected
    then case_busy
    else revision_conflict_error case_id expected info.commit_id

-- `mapStoreWriteError`; the latest revision is read after the failed commit.
unfoldable pub map_store_write_error :
    String → String → Result StoreError (Snapshot × CommitInfo) → StoreError → CommandError
unfolding actual_commit when_locked
map_store_write_error case_id expected latest case_exists =
    case_already_exists case_id (actual_commit latest)
map_store_write_error case_id expected latest revision_conflict =
    revision_conflict_error case_id expected (actual_commit latest)
map_store_write_error case_id expected latest case_locked = when_locked case_id expected latest
map_store_write_error case_id expected latest integrity = case_corrupt
map_store_write_error case_id expected latest e = store_error e

-- `isIntegrityFailure` of a failed read.
unfoldable pub read_error : StoreError → CommandError
read_error integrity = case_corrupt
read_error e = store_error e

unfoldable pub read {ℓ} : {A : Type ℓ} → Result StoreError A → Result CommandError A
unfolding read_error
read (ok a) = ok a
read (err e) = err (read_error e)

unfoldable pub is_sound : IntegrityStatus → Result CommandError (Unit {0})
is_sound corrupt = err case_corrupt
is_sound intact = ok tt
is_sound degraded = ok tt

module _ {S : Type 0} (store : Store S) where
  unfoldable pub load_latest_verified : S → String → Result CommandError (Snapshot × CommitInfo)
  unfolding read is_sound
  load_latest_verified s case_id =
      guard (not (case_id == "")) (invalid_argument "case_id is required")
      >> (read (store.verify s case_id) >>= λ status.
          is_sound status >> read (store.load_latest s case_id))

  unfoldable pub load_expected : S → String → String → Result CommandError (Snapshot × CommitInfo)
  load_expected s case_id expected =
      guard (not (expected == "")) (invalid_argument "expected_commit_id is required")
      >> (load_latest_verified s case_id >>= λ loaded.
          guard (loaded.1.commit_id == expected)
            (revision_conflict_error case_id expected loaded.1.commit_id)
          >> ok loaded)

  -- `LoadCase` has the same checks in the same order, and gives a view.
  unfoldable pub load_case : S → String → Result CommandError CaseView
  load_case s case_id =
      load_latest_verified s case_id >>= λ loaded. ok (view_from loaded.0 loaded.1)

  unfoldable pub viewed :
      Snapshot → String → S × Result StoreError CommitInfo → S × Result CommandError CaseView
  unfolding map_store_write_error
  viewed snap expected (s, ok info) = (s, ok (view_from snap info))
  viewed snap expected (s, err e) = (
    s,
    err (
        map_store_write_error snap.manifest.case_id expected
          (store.load_latest s snap.manifest.case_id) e),
  )

  -- The view is that of the revision that was written, without another read.
  unfoldable pub commit_snapshot : S → Snapshot → String → S × Result CommandError CaseView
  unfolding viewed
  commit_snapshot s snap expected = viewed snap expected (
      store.commit s (record {
        snapshot = snap;
        reason = case_snapshot;
        parent_expectation = ParentExpectation.commit expected;
      }))

  -- The commit of `CreateCase`.
  unfoldable pub commit_first : S → Snapshot → S × Result CommandError CaseView
  unfolding viewed
  commit_first s snap = viewed snap "" (
      store.commit s (record {
        snapshot = snap;
        reason = legacy_import;
        parent_expectation = ParentExpectation.absent;
      }))
