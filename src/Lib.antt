-- ===== src/Lib.antt =====
-- pinsync publishes a directory tree to an S3 bucket as content objects beside a manifest, keeps a
-- local directory in step with it, and deletes what the manifest no longer names.
--
-- Parts and files. A Go string is a list of bytes (Base/Text), a Go error a value, a call that
-- changes state a function from a state to a result and the next state (Base/Action).
-- pkg/manifest: Manifest/Path (validatePath and below), Manifest/Mode (FileMode, and the mode
-- string that hashFile writes), Manifest/Entry (File, Manifest), Manifest/Validate (Validate),
-- Manifest/Codec (Encode, Decode), Manifest/Walk (Build, VerifyTree). push writes a manifest, pull and
-- prune read one by Decode.
-- The S3 client: Store is the interface that the packages call, with an unknown state behind it.
-- Store/Fake is the in-memory store of pkg/s3test/fake.go as a value of that interface, without the
-- errors of BeforePut and of reading a body, and with SHA256 checksums and ranges bytes=n- alone.
-- pkg/prune: Prune/Classify (classify, fetchManifest), Prune/Delete (deleteBatched, Prune, DryRun).
-- pkg/pull/pull.go: Pull/Options (newSyncer), Pull/Fetch (fetchManifest, checkContentSize; sizes are
-- unbounded integers, and the check compares before it adds, so that no sum is larger than the cap),
-- Pull/Cycle (replace, syncOnce and the attempts of PullWithManifest). Pull/Cycle takes the steps that
-- replace runs (recovery, staging, verification, the hook, the swap, keepStaged) as a record over an
-- unknown state, for what it decides is their order and what follows a failure.
-- pkg/pull/hash.go, stage.go and dryrun.go: Pull/Classify (hashTree, byContent, classify and
-- resumeSlots), Pull/Jobs (the jobs that stage makes), Pull/DryRun (DryRun), Pull/Write (writeVerified,
-- checkStaged, copyFile, linkOrCopy, chmod), Pull/Stage (stageEntry and stageAll), Pull/Stage/Trees
-- (removal of trees, clearResumeDir), Pull/Stage/Phases (stage). Jobs are staged one after another, and
-- the first error is the result, with the jobs behind it staged all the same.
-- pkg/pull/resume.go: Pull/Resume/Prefix (the prefix files and their sidecar), Pull/Resume/Extend
-- (extend, and how fetchWhole keeps an object), Pull/Resume/Download (continuePrefix, fetchWhole,
-- resumeOrFetch, downloadResumable, download, and copyFromSource of stage.go).
-- Pull/Files is package os as staging uses it: names stand for inodes, so that two names may share
-- one, and each call may fail, a write after any number of bytes and a removal of a tree after any of
-- its names. The order of its calls is counted, and Calls says which of them fail.
-- pkg/pull/swap.go: Pull/Disk holds the four sibling trees and the calls of package os, any of
-- which may fail; its runs record every state that they pass through, so that a kill at any moment
-- is covered. os.Lstat is taken to find a tree exactly where there is one: what exists of recover.go
-- makes of a failing Lstat is not modelled. Pull/Swap is swap and renameRetry.
-- pkg/pull/recover.go: Pull/Recover is recoverInterrupted with keepStaged, dropShared, stashPrefixes
-- and unsharePartial, on the same disk. A file's inode tells which names are hard links of one file.
-- pkg/push/push.go: Push/Key (resolveManifestKey), Push/Verify (verifyObject), Push/Diff
-- (diffRemote), Push/Publish (Push, DryRun, uploadFiles, putFile, putManifest), from the manifest that
-- manifest.Build returned on, which prepare leaves sorted; the files under the root are a function that may change between the
-- build and an upload. HEADs and uploads run in the order of the files, as with one in flight.
-- pkg/rolesanywhere: Rolesanywhere/Match (match.go: the names of fields and stores, and matchCert) and
-- Rolesanywhere/Selector (FindIdentity, with a list of what it closes).
--
-- path.Join and path.Clean (Base/Slash), slices.Sort (Base/Sort), slices.Chunk (Base/Chunks) and the
-- number formats (Base/Decimal, Manifest/Mode) are written out. encoding/json, the Unicode case
-- tables and the digests are parameters, with what is relied on as named hypotheses (IsFaithful).
-- What the safety of a deletion needs of the S3 service is IsQuiet: nobody else writes meanwhile,
-- reads change nothing, and a request to delete spares the objects it does not name. IsDeleting is
-- what its effect needs: a request that names no failed key removes the keys it was given. Both speak
-- of what the service holds under a key; IsBucket joins them, with puts, for the in-memory store.
--
-- Bounds and fuel. strconv.ParseUint's 32 bits are tested digit by digit. The octal digits of a mode
-- take fuel 11, enough for 32 bits. The in-memory store's pages take one more than the number of its
-- objects as fuel, and every page that is cut off has an object. Counters of objects are unbounded
-- numbers: a bucket of 2^63 objects is out of scope. So are times: a minimum age of exactly -2^63
-- nanoseconds, which Go cannot negate, is not one that the model wraps.
--
-- Not modelled: the checks that ReplaceFromDirectory makes of its two trees (pkg/pull/directory.go),
-- the signing and the credentials of pkg/rolesanywhere, pkg/awsclient and cmd/pinsync.
-- Logging, cancellation, pauses between retries, locks and the call counters of the in-memory store
-- are left out where their part is modelled, for no result depends on them.
pub mod Base
pub mod Manifest
pub mod Store
pub mod Prune
pub mod Pull
pub mod Push
pub mod Tests
pub mod Rolesanywhere
