-- ===== src/PersistentDisk/Hotplug.antt =====
-- The waits for an attached or a detached disk, of pkg/csi/opennebula/persistentdisk.go. A round is one
-- run of the loop before the deadline: what it observes, and what a retry in it would return.
pub mod Rounds
use storage_provider_openneb.Prelude.{
  ℕ, ◌+◌, ◌≡◌, String, Bool, true, false, not, ◌&&◌, List, [], ◌∷◌, Option, none, some,
  if◌then◌else◌,
}
use storage_provider_openneb.Golang.Answer.{Answer, failed, answered}
use storage_provider_openneb.Golang.Cases.{to_lower}
use storage_provider_openneb.Golang.Search.{contains}

unfoldable pub is_hotplug_state_error : String → Bool
is_hotplug_state_error e = contains (to_lower e) "wrong state hotplug"

-- `attached`, `ready` and the error of `observe`; the error of `retryAttach` or `retryDetach`.
pub record Round : Type 0 where
  pub observed : Answer (Bool × Bool)
  pub retry : Option String

pub data Waited : Type 0 where
  reached : Waited
  observe_failed retry_failed : String → Waited
  -- `HotplugTimeoutError`, with the last observation.
  timed_out : Bool → Bool → Waited

-- The end of the wait, and how many retries were accepted.
abbrev pub Result : Type 0
Result = Waited × ℕ

abbrev pub accepted : Result → Result
accepted (w, n) = (w, n + 1)

-- What a retry's result makes of the wait: `still` with the retry pending, `once` without.
abbrev pub after_retry : Option String → Result → Result → Result
after_retry none still once = accepted once
after_retry (some e) still once = if is_hotplug_state_error e then still else (retry_failed e, 0)

-- One round: `goal` is what ends the wait, and `wants` says when a retry is worth it.
abbrev pub judge_round :
    (Bool → Bool → Bool)
    → (Bool → Bool → Bool)
    → Bool
    → Round
    → (Bool → Bool → Result)
    → (Bool → Bool → Result)
    → Result
judge_round goal wants pending r still once = elim r.observed [
  | failed e ↦ (observe_failed e, 0)
  | answered (attached, ready) ↦
      if goal attached ready
      then (reached, 0)
      else (if pending && wants attached ready
          then after_retry r.retry (still attached ready) (once attached ready)
          else still attached ready)
]

-- The loop of both waits, which ends at the deadline after the last round.
unfoldable pub wait_rounds :
    (Bool → Bool → Bool) → (Bool → Bool → Bool) → Bool → Round → List Round → Result
wait_rounds goal wants pending r [] =
    judge_round goal wants pending r (λ attached ready. (timed_out attached ready, 0))
      (λ attached ready. (timed_out attached ready, 0))
wait_rounds goal wants pending r (next ∷ rest) =
    let still = wait_rounds goal wants pending next rest in
    let once = wait_rounds goal wants false next rest in
    judge_round goal wants pending r (λ attached ready. still) (λ attached ready. once)

-- `pending`: the first call was refused because of the machine's state.
unfoldable pub wait_for_attach_state : Bool → Round → List Round → Result
wait_for_attach_state =
    wait_rounds (λ attached ready. attached && ready) (λ attached ready. ready && not attached)

unfoldable pub wait_for_detach_state : Bool → Round → List Round → Result
wait_for_detach_state =
    wait_rounds (λ attached ready. not attached) (λ attached ready. ready && attached)

-- The first call of DiskAttach or Detach and the wait, as AttachVolume and DetachVolume make them.
pub data Hotplugged : Type 0 where
  refused : String → Hotplugged
  waited : Waited → Option String → Hotplugged

abbrev pub after_call :
    (Bool → Round → List Round → Result) → Option String → Round → List Round → Hotplugged
after_call wait none r rest = waited (wait false r rest).0 none
after_call wait (some e) r rest =
    if is_hotplug_state_error e then waited (wait true r rest).0 (some e) else refused e
