-- ===== src/FilesystemMutex/Files.antt =====
-- The two files of one mutex, and what a process reads from them. Between any two accesses of a call
-- other processes may change the files: `others` says how.
use opencode_alg.Base.{
  ℕ, suc, String, Bool, true, false, ◌&&◌, not, Option, none, some, ltb, nat_eq, ◌==◌, ◌<>◌,
  if◌then◌else◌,
}

-- `FilesystemMutexRecord`, with times in milliseconds.
pub record MutexRecord : Type 0 where
  pub owner : String
  pub token : String
  pub pid : ℕ
  pub host : String
  pub resource : String
  pub acquired_at : ℕ
  pub expires_at : ℕ

-- A file with its identity, zero where the filesystem has no stable ones. `none` is a content that
-- does not parse as a record.
pub record LockFile : Type 0 where
  pub identity : ℕ
  pub content : Option MutexRecord

pub record Disk : Type 0 where
  pub mutex : Option LockFile
  pub claim : Option LockFile

-- The files after the given number of accesses.
pub record World : Type 0 where
  pub step : ℕ
  pub disk : Disk

-- The process that makes the call: its name and process number, what it knows of other processes,
-- the clock at each access, the identity of a file it creates, and the other processes.
pub record Process : Type 0 where
  pub path : String
  pub host : String
  pub pid : ℕ
  pub alive : ℕ → Option Bool
  pub clock : ℕ → ℕ
  pub identity_at : ℕ → ℕ
  pub others : ℕ → Disk → Disk

unfoldable pub tick : Process → World → World
tick process w = record { step = suc w.step; disk = process.others w.step w.disk }

abbrev pub claim_path : Process → String
claim_path process = process.path <> ".takeover"

abbrev same_resource : String → Option MutexRecord → Option MutexRecord
same_resource path none = none
same_resource path (some r) = if r.resource == path then some r else none

-- `readVerified`; a file that is absent cannot be read either.
unfoldable pub read_verified : String → Option LockFile → Option MutexRecord
read_verified path none = none
read_verified path (some file) = same_resource path file.content

pub data MutexDisposition : Type 0 where
  held takeover unverifiable : MutexDisposition

abbrev by_life : Option Bool → MutexDisposition
by_life (some false) = takeover
by_life (some true) = held
by_life none = unverifiable

unfoldable pub mutex_disposition : Process → (now : ℕ) → MutexRecord → MutexDisposition
mutex_disposition process now r =
    if ltb now r.expires_at
    then held
    else if not (r.host == process.host)
    then unverifiable
    else by_life (process.alive r.pid)

abbrev pub is_takeover : MutexDisposition → Bool
is_takeover takeover = true
is_takeover _ = false

-- `canTakeOver`
unfoldable pub can_take_over : Process → (now : ℕ) → MutexRecord → Bool
unfolding mutex_disposition
can_take_over process now r = is_takeover (mutex_disposition process now r)

-- The second reading before a stale file is moved away.
unfoldable pub confirms : Process → String → (now : ℕ) → MutexRecord → Option LockFile → Bool
unfolding read_verified can_take_over
confirms process path now observed file = elim (read_verified path file) [
  | none ↦ false
  | some confirmed ↦ confirmed.token == observed.token && can_take_over process now confirmed
]

abbrev same_identity : ℕ → ℕ → Option Bool
same_identity created ℕ.zero = none
same_identity created (ℕ.suc n) = some (nat_eq created (suc n))

-- `stillCreatedFile`: whether the path names the file of the identity, if that can be told.
unfoldable pub still_created_file : (created : ℕ) → Option LockFile → Option Bool
still_created_file ℕ.zero file = none
still_created_file (ℕ.suc n) none = some false
still_created_file (ℕ.suc n) (some file) = same_identity (suc n) file.identity
