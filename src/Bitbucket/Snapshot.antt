-- ===== src/Bitbucket/Snapshot.antt =====
-- `SwitchPRSnapshot` of pkg/bitbucket/pull_requests.go, given what `LoadPRSnapshot` answers.
use revchat.Base.{Option, none, some, if◌then◌else◌, nat_eq}
use revchat.Bitbucket.Payload.{PullRequest}
use revchat.Result.{Result, ok, err}

-- The counts that Bitbucket does not send are kept from the previous snapshot.
unfoldable pub persisted : PullRequest → PullRequest → PullRequest
persisted prev snapshot = record snapshot {
  commit_count =
      if nat_eq snapshot.commit_count 0 then prev.commit_count else snapshot.commit_count;
  change_request_count =
      if nat_eq snapshot.change_request_count 0
      then prev.change_request_count
      else snapshot.change_request_count;
}

-- `SwitchPRSnapshot`: what it returns, and the snapshot that it stores.
unfoldable pub switch_pr_snapshot :
    Result (Option PullRequest) → PullRequest → Result (Option PullRequest) × PullRequest
unfolding persisted
switch_pr_snapshot (err e) snapshot = (err e, snapshot)
switch_pr_snapshot (ok none) snapshot = (ok none, snapshot)
switch_pr_snapshot (ok (some prev)) snapshot = (ok (some prev), persisted prev snapshot)
