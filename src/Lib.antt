-- ===== src/Lib.antt =====
-- Carry: durable Works that members of a space write to and that machines carry out.
--
-- A Work has a goal, numbered inputs (the goal is input 1, later messages follow), and a current
-- understanding with a next step. A machine claims a run of a Work: a range of inputs that no run
-- has applied, and an attempt under a fence with a lease. The attempt renews its lease and then
-- commits a new understanding, or finishes unresolved. A lease that ran out lets another machine
-- claim the run under the next fence. A run that ended unresolved holds its Work until a member
-- asks for a retry. A commit may ask for a review, which the owner of the Work accepts. Members
-- also write private messages, which a machine answers from the newest of them. A machine is connected
-- to a space by a request that a member approves, and a member or the machine itself revokes it.
--
-- Files, and the code that they model (paths from the root of the repository):
--   Text, Text/Trim          strings.TrimSpace, utf8.ValidString and validText of
--                            internal/work/work.go and internal/run/run.go
--   Result                   the error values, and `(value, error)` as a result
--   Digest, Digest/Injective digestFields and writeDigestField of internal/work/work.go
--   Work, Work/Normal        NormalizeGoal, NormalizeIdempotencyKey, ValidateMessage of
--                            internal/work/work.go, ValidateUnderstandingUpdate of
--                            internal/run/run.go
--   Store/Tables             the rows of internal/postgres/migrations
--   Store/Claims, Attempts,  the statements of internal/postgres/dbsqlc/run.sql.go and
--     Retries, Works         work.sql.go, one function for each
--   Execution/Claim          ClaimRun of internal/postgres/run.go
--   Execution/Attempt        RenewRunAttempt, CommitWorkUnderstanding, FinishUnresolvedAttempt
--   Execution/Retry          RequestWorkRetry
--   Works/Create, Append,    CreateWork, AppendWorkMessage, AcceptWorkReview of
--     Accept                 internal/postgres/work.go
--   System/Step              the transactions as steps from one state of the tables to another
--   Conversation/Message,    NormalizeText, ValidateCursors, NormalizeReplyCandidate and
--     Context                FixedContextSuffix of internal/conversation/conversation.go
--   Conversation/Tables,     the rows of private conversations, and the statements of
--     Posts, Claims          internal/postgres/dbsqlc/conversation.sql.go
--   Conversation/Send        SendConversationMessage, ListConversationMessages of
--                            internal/postgres/conversation.go
--   Conversation/Reply,      ClaimConversationReply, RenewConversationReply,
--     Commit                 CommitConversationReply of internal/postgres/conversation_reply.go
--   Conversation/Talk        these transactions as steps from one state to another
--   Connection/Tables,       connection requests, machines and their agents, and the statements of
--     Requests, Machines     internal/postgres/dbsqlc/machine.sql.go
--   Connection/Begin, Poll,  the transactions of internal/postgres/machine.go
--     Revoke
--   Connection/Inventory     ListMachines of the same file
--   Connection/Steps         these transactions as steps from one state to another
--   Agent/Keys, Vocabulary   ValidAdapterKey, ValidOccurrenceKey, NormalizeName, NewVocabulary of
--                            internal/agent/agent.go; Agent/Sound is about the vocabulary
-- The other files below Execution, Works and System hold proofs: what a transaction keeps
-- (History, Evolution, Consistent, Preservation, Invariant), what it does and when it succeeds
-- (Claiming, Granting, Lease, Committing, Committed, Completion, Input, Replay, AcceptAgain,
-- Effects, Reviewing), and what holds of every history (Safety, Fencing). Below Conversation, Suffix
-- and Refix are about the context of a reply; Numbered, Alternates, Bumps, Asking and Turns about the
-- turns of a conversation, which Sending, Replying, Replied and Committing keep; Forward, Changes,
-- Progress, Moves and Histories about what a history keeps; Joins, Claiming, Entered, Answer, Once,
-- Fixed, Sent, Shown and Pages about what the transactions find and do. Below Connection, Later, Honest,
-- Changes, Beginning, Deciding, Polling and Revoking are about the order that the transactions keep,
-- Told, Enrollment, Again and Ended about a machine from its approval to its revocation, and
-- Walk about the list of machines. Examples applies the theorems to one Work, one
-- conversation, one machine and the native agents.
--
-- A transaction is a function from the tables to an error or a result and new tables; an error
-- rolls the transaction back. Rows are locked while a transaction runs, so transactions follow one
-- another; `SKIP LOCKED` may leave out any row, which an argument says. The clock is an argument
-- wherever `now()` or `clock_timestamp()` is read. A uuid is a number, a timestamp counts
-- microseconds, a bigint is a natural number without a bound. An identifier in a command is a text of
-- the request: blank, malformed, or a uuid in one of the spellings that uuid.Validate takes, of which
-- PostgreSQL reads all but the urn; digests are made of the text. Who sends a command is known by a
-- uuid that the server took from a session or a certificate, in its canonical spelling; the run
-- operations get their identifiers from the server, which parses them. The hash (SHA-256), the folding
-- of names (NFKC and case) and the spelling of uuids are parameters, and so is the issuer of
-- certificates. Loops are recursion over the rows, so that no fuel is needed; only Connection/Walk,
-- which asks for one page of machines after another, counts the pages, and one more than there are
-- machines is enough.
--
-- Not modelled: constraints other than uniqueness, foreign keys and the joins on display names,
-- failures of the connection, the listings of Works, and the components with tables of their own
-- (logins, invitations, agents), of which only the writes to machines, memberships and Works appear,
-- as steps of the system. The HTTP server, the command line, the native agents and the web
-- application are input and output around these operations.
pub mod Prelude
pub mod Text
pub mod Result
pub mod Digest
pub mod Work
pub mod Agent
pub mod Connection
pub mod Conversation
pub mod Store
pub mod Execution
pub mod Works
pub mod System
pub mod Examples
