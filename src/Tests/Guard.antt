-- ===== src/Tests/Guard.antt =====
-- Runs of pkg/csi/driver/hotplug_guard.go.
use storage_provider_openneb.Prelude.{
  suc, ◌*◌, ◌≡◌, refl, true, false, List, [], ◌∷◌, some, length, leb, arith,
}
use storage_provider_openneb.Prelude.Int.{pos}
use storage_provider_openneb.Prelude.Keys.{lookup, string_key}
use storage_provider_openneb.Golang.Clock.{Time, second}
use storage_provider_openneb.HotplugGuard.{CooldownState, Guard, Failure, empty_state, new_guard}
use storage_provider_openneb.HotplugGuard.Series.{mark_all, mark_all_counts}

abbrev fresh_guard : Guard
fresh_guard = new_guard (pos (60 * second))

abbrev cooling : CooldownState
cooling = record empty_state { node = "node-1"; operation = "attach"; expires_at = 70 * second }

abbrev paused : CooldownState
paused = record cooling { failure_count = pos 3; pause_until_ready = true }

abbrev guard_of : CooldownState → Guard
guard_of state = record { cooldown = pos (60 * second); states = ("node-1", state) ∷ [] }

abbrev failure : Failure
failure = record {
  operation = "attach";
  volume = "vol-a";
  timeout = pos (30 * second);
  attached = false;
  open_nebula_ready = false;
  kubernetes_ready = true;
  unschedulable = false;
  reason = "timeout";
}

abbrev two_more : List (Failure × Time)
two_more = (failure, 50 * second) ∷ (failure, 100 * second) ∷ []

mark_all_counts_example :
    (state : CooldownState) × (lookup "node-1"
        (mark_all fresh_guard "node-1" (pos 3) ((failure, 10 * second) ∷ two_more)).states
      ≡ some state)
    × (state.failure_count ≡ pos 3)
    × (state.pause_until_ready ≡ leb 3 (suc (length two_more)))
unfolding new_guard lookup
mark_all_counts_example =
    mark_all_counts fresh_guard "node-1" 3 failure (10 * second) two_more (λ e. cc) (omega arith)
      refl (omega arith) (omega arith, (omega arith, tt))
