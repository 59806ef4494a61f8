-- ===== src/PersistentDisk/Wait.antt =====
-- The polling of an image's state, of pkg/csi/opennebula/persistentdisk.go.
use storage_provider_openneb.Prelude.{
  Bool, true, false, List, [], ◌∷◌, Option, none, some, String, if◌then◌else◌,
}
use storage_provider_openneb.Golang.Answer.{Answer, failed, answered}

pub data WaitError : Type 0 where
  timeout : WaitError
  check_failed : String → WaitError

-- `waitForResourceStatus`: what the check returned at each tick before the timeout. `none` is no error.
unfoldable pub wait_for_resource_status : List (Answer Bool) → Option WaitError
wait_for_resource_status [] = some timeout
wait_for_resource_status (failed e ∷ checks) = some (check_failed e)
wait_for_resource_status (answered ready ∷ checks) =
    let rest = wait_for_resource_status checks in if ready then none else rest

-- The states of an image that the code compares with.
pub data ImageState : Type 0 where
  ready used other_state : ImageState

-- What `Image.Info` and its `State` returned.
abbrev pub Info : Type 0
Info = Answer (Answer ImageState)

abbrev pub is_ready : ImageState → Bool
is_ready ready = true
is_ready used = false
is_ready other_state = false

unfoldable pub volume_ready : Info → Answer Bool
volume_ready (failed e) = failed e
volume_ready (answered (failed e)) = failed e
volume_ready (answered (answered s)) = answered (is_ready s)

-- The volume is deleted once it cannot be inspected.
unfoldable pub volume_deleted : Info → Answer Bool
volume_deleted (failed e) = answered true
volume_deleted (answered s) = failed "still exists"
