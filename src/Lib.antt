-- ===== src/Lib.antt =====
-- Forthway Command Center: a control panel for web servers, with panel failover among its
-- servers. This library models the parts of it that decide: who may lead the panel, what is
-- derived from the failover setting, which background job may run, what the database keeps, how
-- environment variables are read and written, when a sign-in is refused, which passkey is
-- accepted, and how far a database copy is behind.
--
-- Base is what all modules share: Boolean tests (Base/Tests), lists (Base/Lists), texts as lists
-- of UTF-16 codes (Base/Texts), JavaScript values and numbers (Base/Values) and maps with text
-- keys as association lists (Base/Maps). A Number is kept to the thousandth; a JSON text carries
-- the Number it converts to.
--
-- Ha/Timing is shared/ha-timing.mjs: checkFailoverSeconds, effectiveFailoverSeconds, haTimings,
-- timingSummary, advertised, cleanLeaseMs and cleanHeartbeatMs, with the constants in
-- Ha/Timing/Constants and the parts of haTimings in Ha/Timing/Derive. Ha/Version is cleanVersion
-- and compareVersion of shared/ha-voter.mjs, Ha/Wire the messages between voter and panel node,
-- and Ha/Panels is cleanPanels.
--
-- Ha/Voter is createVoter of shared/ha-voter.mjs: its state, the restart rule and refusal in
-- Ha/Voter/State; what a reply teaches in Ha/Voter/Learn; handleReply in Ha/Voter/Reply; and
-- syncNodes, voteBody and leader in Ha/Voter/Nodes. Each function returns the new state and the
-- effects in their order: a vote saved, panels told, a grant sent. Whether a save succeeds is an
-- input.
--
-- Ha/Panel is the election in createHa of panel/lib/ha.mjs: the state in Ha/Panel/State;
-- validIssued, recordIssued, grantUntil, validGrantCount and otherLease in Ha/Panel/Lease;
-- evaluate, maybeCandidate, becomeCandidate, promote and fence in Ha/Panel/Election;
-- buildVoteReply and handleVote in Ha/Panel/Ballot. A reply's list of panels is left out, and
-- promote is cut in two where it waits for the modules to start. Random delays and the outcome of
-- writing ha-local.json are inputs.
--
-- Jobs is panel/lib/jobs.mjs: the record of a job, the queue and its tables in Jobs/State; _pump
-- and _begin in Jobs/Admit; start, _finish, cancel, recover and shutdown in Jobs/Life; move and
-- forceStart in Jobs/Control. The queue names a record by its id, since both share one object. A
-- job's function runs after the call that starts it, so _pump is one round. Jobs/Run is
-- everything that can happen to the queue, in any order. New ids are inputs, and so are the
-- times.
--
-- Store is panel/lib/store.mjs: collections of records in memory, the file, and whether a write
-- is due. The file holds what JSON keeps of the records. The records that list and get return are
-- live, and a change by their holder is a step of its own, alter in Store/State. Whether a write
-- succeeds is an input. Env is shared/env.mjs: cleanEnvValue, needsQuoting and quote in
-- Env/Quote, with the replacements of quote one after the other as there; renderEnvBlock and
-- mergeEnvFile in Env/Merge; parseEnvText, formatEnvText and shadowedKeys in Env/Lines.
--
-- SignIn is panel/lib/auth.mjs: LoginThrottle, the limit on failed sign-ins of an address, in
-- SignIn/Throttle, and its calls in any order in SignIn/Window; sign and unsign in
-- SignIn/Sessions/Tokens; sessionInfo, gate, issue, currentPasskey, setSession and bumpSessions
-- in SignIn/Sessions. The HMAC, the hash, JSON and base64url are parameters.
--
-- Passkeys is panel/lib/webauthn.mjs: what a check gives or refuses in Passkeys/Outcome; b64url
-- and fromB64url in Passkeys/Base64; cborDecodeItem in Passkeys/Cbor, on the bytes that are left
-- and with as many levels as its depth allows; parseAuthData in Passkeys/AuthData; coseToJwk and
-- verifySignature in Passkeys/Key; readClientData, checkClientData and checkAuthFlags in
-- Passkeys/ClientData; verifyRegistration and verifyAssertion in Passkeys/Ceremony;
-- ChallengeStore in Passkeys/Challenges; passkeyCapable and relyingParty in Passkeys/Party.
-- SHA-256, the loading of keys, the verification of signatures, JSON.parse, UTF-8 and URL are
-- parameters.
--
-- Database/Gtid is the GTID sets of shared/mysql-ha.mjs: cleanGtid and the reading of a text in
-- Database/Gtid/Parse; the sorting and merging of parseGtidSet, gtidCount and gtidDiffCount in
-- Database/Gtid. Numbers are exact, where the code rounds from 2 ** 53 on.
--
-- Ha/Safety puts a voter and the panel nodes together as a step relation over these functions:
-- messages may be lost, late, repeated or out of order, and every process may restart.
-- performance.now() is a number of microseconds since the start of the process, and one reading
-- serves each synchronous call. A voter takes at least half a millisecond from its last vote to
-- the end of a restart, since a saved lease length is rounded to milliseconds. A panel node that
-- starts again asks only in terms that it has not asked in, since it saves a term before it asks;
-- ensureHaLeading asks after a failed write of the term too, so this supposes that its write
-- succeeds. All clocks run at one speed.
--
-- Lists and maps are handled by structural recursion, so no fuel is needed; the CBOR decoder goes
-- 17 levels deep, as the code does. Not modelled: an infinite number in a message of a voter
-- (1e999 in JSON), timers, HTTP, files, the replication of the panel's state, the rollout of
-- code, and the other parts of the panel, which work on files, services and remote interfaces.
pub mod Base
pub mod Database
pub mod Env
pub mod Ha
pub mod Jobs
pub mod Passkeys
pub mod SignIn
pub mod Store
