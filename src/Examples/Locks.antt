-- ===== src/Examples/Locks.antt =====
-- A free lease is taken, and one of a live process is not.
use opencode_alg.Base.{suc, true, ◌≡◌, refl, none, some, ◌⊎◌, inr, ltb}
use opencode_alg.FilesystemMutex.Files.{MutexRecord, LockFile, World, Process, read_verified}
use opencode_alg.FilesystemMutex.Acquire.{
  AcquireResult, acquired, refused, acquire_filesystem_mutex,
}
use opencode_alg.FilesystemMutex.Holder.{renew, own_record, assert_held, remove}
use opencode_alg.FilesystemMutex.Closed.{
  IsSteady, IsProtected, IsRefused, acquire_filesystem_mutex-IsRefused,
}
use opencode_alg.FilesystemMutex.Renewed.{IsRenewal, renew-IsRenewal}
use opencode_alg.FilesystemMutex.Held.{new_holder, acquire-assert_held, remove-own}

-- Nobody else acts, and the clock shows the number of accesses.
abbrev alone : Process
alone = record {
  path = "run.lock";
  host = "host";
  pid = 1;
  alive = λ pid. some true;
  clock = λ step. step;
  identity_at = λ step. suc step;
  others = λ step disk. disk;
}

alone-IsSteady : IsSteady alone
alone-IsSteady step disk = refl

-- The lease of another live process.
abbrev foreign : LockFile
foreign = record {
  identity = 90;
  content = some (record {
    owner = "other";
    token = "theirs";
    pid = 2;
    host = "host";
    resource = "run.lock";
    acquired_at = 0;
    expires_at = 1;
  });
}

abbrev taken_world : World
taken_world = record { step = 5; disk = record { mutex = some foreign; claim = none } }

abbrev free_world : World
free_world = record { step = 5; disk = record { mutex = none; claim = none } }

foreign-IsProtected : IsProtected alone alone-IsSteady foreign
unfolding read_verified
foreign-IsProtected = inr (
  record {
    owner = "other";
    token = "theirs";
    pid = 2;
    host = "host";
    resource = "run.lock";
    acquired_at = 0;
    expires_at = 1;
  },
  refl,
  inr refl,
)

acquire_filesystem_mutex-IsRefused_example :
    IsRefused alone alone-IsSteady foreign
      (acquire_filesystem_mutex alone "me" "mine" "claim" 30_000 10_000 2 taken_world)
acquire_filesystem_mutex-IsRefused_example =
    acquire_filesystem_mutex-IsRefused alone "me" "mine" "claim" 30_000 10_000 2 foreign taken_world
      alone-IsSteady foreign-IsProtected refl

unfoldable world_of : AcquireResult → World
world_of (acquired lease created w) = w
world_of (refused error w) = w

-- The world after an acquisition of the free lease.
unfoldable held_world : World
unfolding acquire_filesystem_mutex world_of
held_world =
    world_of (acquire_filesystem_mutex alone "me" "mine" "claim" 30_000 10_000 2 free_world)

abbrev mine : MutexRecord
mine = record {
  owner = "me";
  token = "mine";
  pid = 1;
  host = "host";
  resource = "run.lock";
  acquired_at = 9;
  expires_at = 30_009;
}

acquire-assert_held_example :
    assert_held alone (new_holder mine 10) held_world ≡ ltb (suc held_world.step) 30_009
unfolding acquire_filesystem_mutex held_world
acquire-assert_held_example =
    acquire-assert_held alone "me" "mine" "claim" 30_000 10_000 2 free_world held_world mine 10
      alone-IsSteady refl

remove-own_example :
    ((remove alone 2 "claim" (new_holder mine 10) taken_world).disk.mutex ≡ some foreign)
    ⊎ (((remove alone 2 "claim" (new_holder mine 10) taken_world).disk.mutex ≡ none)
        × (¬ (own_record "run.lock" (new_holder mine 10) (some foreign) ≡ none)))
remove-own_example = remove-own alone 2 "claim" (new_holder mine 10) taken_world alone-IsSteady

-- Another's lease stays.
remove_test : (remove alone 2 "claim" (new_holder mine 10) taken_world).disk.mutex ≡ some foreign
unfolding remove
remove_test = refl

renew-IsRenewal_example :
    IsRenewal alone
      (new_holder mine 10)
      (some foreign)
      (renew alone 30_000 2 "claim" (new_holder mine 10) taken_world)
renew-IsRenewal_example =
    renew-IsRenewal alone 30_000 2 "claim" (new_holder mine 10) taken_world alone-IsSteady
