-- ===== src/Bitbucket/Counts.antt =====
-- The counts of a pull request that the handlers keep: its change requests, and the commits that are
-- announced.
use revchat.Base.{
  ℕ, zero, suc, ◌+◌, ◌-◌, ◌≤◌, ◌<◌, List, [], ◌∷◌, ◌++◌, some, if◌then◌else◌, length, length-append,
  take, subst, ltb, ◌≡◌, refl, sym, ap, ◌∙◌, arith,
}
use mathlib.Core.List.{append_assoc, append-nil}
use revchat.Base.Text.{Text, codes, text_eq, text_beq, has_prefix}
use revchat.Bitbucket.Effects.{Effect, store_snapshot, Answers}
use revchat.Bitbucket.Payload.{Commit, PullRequest, Event}
use revchat.Bitbucket.Reviewed.{
  review_case, request_removed_case, finished, pull_request_reviewed_workflow,
}
use revchat.Bitbucket.Snapshot.{persisted, switch_pr_snapshot}
use revchat.Bitbucket.Updated.{reversed_commits, slice_from, previous_count, new_commits}
use revchat.Result.{ok}

length-reversed_commits : (l : List Commit) → length (reversed_commits l) ≡ length l
unfolding reversed_commits
length-reversed_commits [] = refl
length-reversed_commits (c ∷ l) =
    length-append (reversed_commits l) (c ∷ []) ∙ omega (arith, length-reversed_commits l)

reversed_commits-append :
    (l k : List Commit) → reversed_commits (l ++ k) ≡ reversed_commits k ++ reversed_commits l
unfolding reversed_commits
reversed_commits-append [] k = sym (append-nil (reversed_commits k))
reversed_commits-append (c ∷ l) k =
    ap (λ x. x ++ c ∷ []) (reversed_commits-append l k)
    ∙ append_assoc (reversed_commits k) (reversed_commits l) (c ∷ [])

slice_from-append :
    {A : Type 0} (l k : List A) (n : ℕ) → n ≡ length l → slice_from n (l ++ k) ≡ some k
unfolding slice_from
slice_from-append [] k zero e = refl
slice_from-append [] k (suc n) e = absurd (omega (arith, e))
slice_from-append (x ∷ l) k zero e = absurd (omega (arith, e))
slice_from-append (x ∷ l) k (suc n) e = slice_from-append l k n (omega (arith, e))

-- The commits that `newer` and `older` hold together, of which as many as in `older` are left out.
new_commits-append :
    (newer older : List Commit) (prev : ℕ)
    → previous_count prev (length (newer ++ older)) ≡ length older
    → new_commits (newer ++ older) prev (length (newer ++ older)) ≡ some (reversed_commits newer)
unfolding new_commits
new_commits-append newer older prev e =
    ap (slice_from (previous_count prev (length (newer ++ older))))
      (reversed_commits-append newer older)
    ∙ slice_from-append (reversed_commits older) (reversed_commits newer)
        (previous_count prev (length (newer ++ older))) (e ∙ sym (length-reversed_commits older))

take-rest :
    (k : ℕ) (l : List Commit)
    → k ≤ length l
    → (older : List Commit) × (take k l ++ older ≡ l) × (k + length older ≡ length l)
unfolding take
take-rest zero l le = (l, refl, omega arith)
take-rest (suc k) [] le = absurd (omega (arith, le))
take-rest (suc k) (c ∷ l) le =
    let (older, e, n) = take-rest k l (omega (arith, le)) in
    (older, ap (λ x. c ∷ x) e, omega (arith, n))

-- Bitbucket lists the commits from the newest to the oldest. Of a pull request that has some, as many
-- as were added since the previous snapshot are announced, the newest ones, from the oldest of them to
-- the newest; and the newest one alone if the number has not grown. The slice is always in range.
pub new_commits-announced :
    (commits : List Commit) (prev : ℕ)
    → 0 < length commits
    → new_commits commits prev (length commits)
      ≡ some (
          reversed_commits
            (take (if ltb prev (length commits) then length commits - prev else 1) commits))
unfolding previous_count
new_commits-announced commits prev some_there =
    let k = if ltb prev (length commits) then length commits - prev else 1 in
    let (older, e, n) = take-rest k commits (ground (arith, some_there)) in
    let known : previous_count prev (length commits) ≡ length older = ground (arith, n) in
    subst (λ l. new_commits l prev (length l) ≡ some (reversed_commits (take k commits))) e
      (new_commits-append (take k commits) older prev
        (ap (λ l. previous_count prev (length l)) e ∙ known))

-- The counts of change requests in the snapshots that are stored.
unfoldable pub stored_counts : List Effect → List ℕ
stored_counts [] = []
stored_counts (store_snapshot pr ∷ rest) = pr.change_request_count ∷ stored_counts rest
stored_counts (_ ∷ rest) = stored_counts rest

-- Where Bitbucket does not send the count, taking back a change request leaves the count of the
-- previous snapshot as it was, whatever it was.
pub pull_request_reviewed_workflow_keeps :
    (q : Answers) (event : Event) (channel_id : Text) (prev : PullRequest)
    → q.channel ≡ some channel_id
    → event.kind ≡ codes "changes_request_removed"
    → event.pull_request.change_request_count ≡ 0
    → q.previous ≡ ok (some prev)
    → stored_counts (pull_request_reviewed_workflow q event).effects
      ≡ prev.change_request_count ∷ []
unfolding pull_request_reviewed_workflow review_case request_removed_case finished
    switch_pr_snapshot persisted stored_counts text_beq has_prefix
pull_request_reviewed_workflow_keeps q event channel_id prev there kind unsent before =
    rw (there, kind, unsent, before) refl
