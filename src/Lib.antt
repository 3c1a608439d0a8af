-- ===== src/Lib.antt =====
-- RevChat keeps a Slack channel for each pull request and tracks whose turn it is to act on it. This
-- library models its state-keeping core, the names of its channels, the owners of files and the required
-- approvals, and the handlers of most events of pull requests.
--
-- The parts and how they interact. Each pull request has data files; one of them is the turns file
-- with the author, the reviewers and their flags, the times of activity, the approvers and the user
-- who froze the turns. Every operation on the turns reads the file, repairs it from the stored
-- snapshot of the pull request when it is broken, changes the state and writes it back. The cache
-- keeps mutexes and users in memory; the mapping leads from a pull request or comment to its Slack
-- channel or thread and back. Channels are created in Slack under a name made of the number
-- and the normalized title of the pull request. The files of a change have owners by the CODEOWNERS file
-- of the target branch. A handler of an event posts on the channel and calls the operations on the turns.
--
-- Which file models what.
--   Base         lists, Go maps (Base/Dict: lookup, put, delete), strings as lists of code points
--                (Base/Text), sorting and compacting (Base/Sorting), signed integers (Base/Integers)
--   Result       Go's pair of a value and an error; computations over a state
--   Json         the values that encoding/json decodes into `any`
--   DataFile     pkg/data/internal/files.go: dataPath, fixEmptyJSONFile, readGenericJSONFile,
--                writeGenericJSONFile and DeleteGenericPRFile on one file; Mutex has getDataFileMutex,
--                Laws and Exclusion the proofs
--   Turns        pkg/data/internal/turns.go: State has PRTurns and normalizeEmailAddresses, Snapshot
--                has resetTurns, File has readTurns and writeTurns, Ops has InitTurns,
--                SetReviewerTurn, SwitchTurn, RemoveReviewerFromTurns, UpdateActivityTime,
--                FreezeTurns and UnfreezeTurns, Queries has ReadCurrentTurnEmails,
--                readAllParticipantEmails, GetActivityTime and IsFrozen. The other files hold proofs:
--                Normal, Healthy, Invariant and Runs on the file and its form, Attention on who has
--                the turn, Switch, Freeze, Reviewers and Roster on the operations, Reset on repairs.
--                Calls has the functions of pkg/data/turns.go, Scan ReadPRsPerSlackUser and
--                ListPRsPerSlackUser; Caseless and Listed hold proofs on these
--   Activity     pkg/data/temporal.go: executeLocalActivity; Retry has a server for runs on concrete inputs
--   Stores       pkg/data/internal/bitbucket_builds.go, diffstat.go, pr_snapshots.go, reminders.go and
--                slack_bots.go, and the files of the same names in pkg/data: Builds, Diffstat,
--                Snapshots, and Entries for the last two; BuildLaws holds proofs
--   Reports      pkg/slack/time.go in Time, with proofs in Kitchen and Reading; pkg/slack/pr_data.go in
--                Details
--   Channel      pkg/slack/channels.go: Pattern has the regular expressions, Name has
--                NormalizeChannelName, Create has CreateChannel and RenameChannel and the activities
--                of the same names in pkg/slack/activities/channels.go. Proofs are in Shape and Fixed
--                (names), Attempts (the loops) and Unique (the names of different ones)
--   Users        pkg/data/internal/users.go: Db has User, Users, findUserIndex and the indexes that
--                readUsersFile builds, Ops has UpsertUser and SelectUser in memory, File has the file
--                around them; Follow has FollowUser, unfollowUserWithoutLock and the loop of
--                RemoveFollower in memory, FollowFile the first two with the file. Proofs are in
--                Steps, Update, RoundTrip, Load, Shared, File and Followers
--   Mapping      pkg/data/internal/urls_ids.go: Ops has GetURLAndIDMapping, SetURLAndIDMapping and
--                DelURLAndIDMapping, Calls the local activities of pkg/data/urls_ids.go; Laws and
--                Retried have the proofs
--   Files        pkg/files/code_owners.go, high_risk.go and source.go: Lines has the regular expressions
--                and what is used of package strings, Parse has parseCodeOwnersLine and
--                normalizePattern, Groups has expandMember, expandGroups and parseCodeOwnersFile,
--                Approvals has getOwners, ignorePath and allApproved, Source has
--                getBitbucketSourceFile and the high-risk files, Queries has CountOwnedFiles,
--                GotAllRequiredApprovals and OwnersPerPath. Proofs are in Owner, Expand, Expansion
--                and Paths (who belongs to a group), Returns (termination), Order (owners of a path), Safety
--                and Required (approvals, counts) and Kept (the cache of files)
--   Bitbucket    pkg/bitbucket: Payload has the parts of payloads.go, Reviewers reviewers.go and
--                accountIDs, Snapshot SwitchPRSnapshot; Reviewed, Updated and Closed have the handlers of
--                pkg/bitbucket/workflows/pullrequest.go as lists of the calls in Effects. Proofs are in
--                Reviewers and Counts
--   Handlers     the outcome of a handler of events: its calls, and whether it returns an error
--   Github       pkg/github: Payload has the parts of payloads.go, Members slack_members.go and
--                userLogins; Lifecycle, Requests and Workflow those of pkg/github/workflows/pr.go;
--                Untracked holds proofs
--   Cache        internal/cache/cache.go and internal/cache/extras.go: Store has the operations.
--                Proofs are in Visible, Refine and Runs, in Listing for Keys and its like, and in Ttl
--
-- State and time. An operation on a file takes the content of the file and returns a result with the
-- content that it leaves. What the operating system, the clock, the snapshot and the lookups of
-- users answer is an argument for each call, so that a statement for all calls covers every failure.
-- Operations on one file are sequential, as its mutex makes them; an operation of the cache is one
-- step, as its lock makes it, but Item is also given as the two steps between which its lock is free. Times are natural numbers,
-- 0 the zero time; durations are integers; overflow of the two is left out.
--
-- Bounds. The recursions over groups in CODEOWNERS files run on fuel, the depth of nested groups, where none
-- stands for a call that has not returned. Groups that hold each other in a circle make the program itself
-- endless, if they come first in each other. No other function runs on fuel that can run out: the loops
-- are recursions over lists, the loops over channel names count their 19 attempts, and the digits of a
-- number are taken at most as often as the number is large, and it has no more digits than that.
--
-- Parameters. The Unicode tables of strings.ToLower from the code point 128 on, with their
-- idempotence; Slack's methods conversations.create and conversations.rename; the disk; the snapshot
-- of a pull request; the lookups of addresses; the glob library, as the answer for a pattern and a path;
-- the files that Bitbucket answers with.
--
-- What Temporal does with a local activity is a parameter too, with two laws in Activity: a result without
-- an error is that of an attempt, and if the first attempt returns no error, the result is that of this one.
-- The options of the program, a timeout and at most five attempts, are left to Temporal.
--
-- Not modelled: the write of RemoveFollower, the cache of users, the listing of all URLs or channels,
-- the assembly of reports and PullRequestCreatedWorkflow of Bitbucket, for now; markdown, which is chains
-- of regular expressions; the handlers of comments and commits of Bitbucket and GitHub, and those of
-- Slack, which pass data on between services; start, configuration, logging and
-- metrics, which are input and output only.
pub mod Base
pub mod Result
pub mod Json
pub mod DataFile
pub mod Activity
pub mod Turns
pub mod Channel
pub mod Users
pub mod Mapping
pub mod Stores
pub mod Files
pub mod Reports
pub mod Handlers
pub mod Bitbucket
pub mod Github
pub mod Cache
