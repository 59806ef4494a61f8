-- ===== src/HotplugGuard/Series.antt =====
-- Runs of failures counted by `MarkUnhealthyFailure` of pkg/csi/driver/hotplug_guard.go.
use native.Mathlib.Nat.{add-zero}
use storage_provider_openneb.Prelude.{
  ℕ, suc, ◌+◌, ◌≤◌, ◌<◌, ◌≡◌, ◌≢◌, refl, ap, ◌∙◌, String, false, List, [], ◌∷◌, none, some, arith,
  leb, length, subst, eq_iff,
}
use storage_provider_openneb.Prelude.Int.{ℤ, pos, wrap64, max_int64, ◌+ℤ◌}
use storage_provider_openneb.Prelude.Keys.{lookup, lookup-insert_self, string_key}
use storage_provider_openneb.Golang.Clock.{Time, Duration, add}
use storage_provider_openneb.HotplugGuard.{
  Guard, CooldownState, Failure, mark_unhealthy_failure, series_state, failed_state, is_over,
  empty_state,
}

-- Failures of one node, one after the other.
abbrev pub mark_all : Guard → String → ℤ → List (Failure × Time) → Guard
mark_all g node threshold [] = g
mark_all g node threshold ((f, now) ∷ rest) =
    mark_all (mark_unhealthy_failure g node f threshold now).0 node threshold rest

-- Each failure comes before the cooldown of the one before it is over.
abbrev pub Prompt : Duration → Time → List (Failure × Time) → Type 0
Prompt cooldown last [] = Unit
Prompt cooldown last ((f, now) ∷ rest) = (now ≤ add last cooldown) × Prompt cooldown now rest

-- What the guard holds of the node after `n` failures in a row, the last at `last`.
record Counted (g : Guard) (node : String) (threshold n : ℕ) (last : Time) : Type 0 where
  state : CooldownState
  stored : lookup node g.states ≡ some state
  named : state.node ≡ node
  count : state.failure_count ≡ pos n
  paused : state.pause_until_ready ≡ leb threshold n
  until : state.pause_until_ready ≡ false → state.expires_at ≡ add last g.cooldown

pos-suc : (n : ℕ) → n < max_int64 → wrap64 (pos n +ℤ pos 1) ≡ pos (suc n)
unfolding ◌+ℤ◌ wrap64
pos-suc n h = ground arith

failed_count :
    (state : CooldownState) (cooldown : Duration) (f : Failure) (threshold n : ℕ) (now : Time)
    → state.failure_count ≡ pos n
    → n < max_int64
    → 0 < threshold
    → let s = failed_state state cooldown f (pos threshold) now in
      (s.failure_count ≡ pos (suc n))
      × (s.pause_until_ready ≡ leb threshold (suc n))
      × (s.pause_until_ready ≡ false → s.expires_at ≡ add now cooldown)
unfolding failed_state
failed_count state cooldown f threshold n now e h t =
    (ground (arith, pos-suc n h), ground (arith, pos-suc n h), λ open'. ground arith)

-- A failure in a series that is not over is added to the stored state.
series_state-stored :
    (g : Guard) (node : String) (threshold n : ℕ) (last now : Time)
    → node ≢ ""
    → now ≤ add last g.cooldown
    → (c : Counted g node threshold n last) → series_state g node now ≡ c.state
unfolding series_state is_over
series_state-stored g node threshold n last now named prompt c =
    rw c.stored (ground (arith, c.named, c.until, eq_iff c.state.node "", eq_iff node ""))

series_state-fresh :
    (g : Guard) (node : String) (now : Time)
    → lookup node g.states ≡ none
    → series_state g node now ≡ record empty_state { node = node; first_failure_at = now }
unfolding series_state is_over
series_state-fresh g node now absent = rw absent refl

failed_node :
    (state : CooldownState) (cooldown : Duration) (f : Failure) (threshold : ℤ) (now : Time)
    → (failed_state state cooldown f threshold now).node ≡ state.node
unfolding failed_state
failed_node state cooldown f threshold now = refl

cooldown-kept :
    (g : Guard) (node : String) (f : Failure) (threshold : ℤ) (now : Time)
    → (mark_unhealthy_failure g node f threshold now).0.cooldown ≡ g.cooldown
unfolding mark_unhealthy_failure
cooldown-kept g node f threshold now = refl

next-Counted :
    (g : Guard) (node : String) (threshold n : ℕ) (last now : Time) (f : Failure)
    → node ≢ ""
    → 0 < threshold
    → n < max_int64
    → now ≤ add last g.cooldown
    → Counted g node threshold n last
    → Counted (mark_unhealthy_failure g node f (pos threshold) now).0 node threshold (suc n) now
unfolding mark_unhealthy_failure
next-Counted g node threshold n last now f named t h prompt c =
    let old = series_state-stored g node threshold n last now named prompt c in
    let (count, paused, until) =
      failed_count (series_state g node now) g.cooldown f threshold n now
        (ap (λ s. s.failure_count) old ∙ c.count) h t in
    record {
      state = failed_state (series_state g node now) g.cooldown f (pos threshold) now;
      stored = lookup-insert_self node _ g.states;
      named = failed_node _ g.cooldown f (pos threshold) now ∙ ap (λ s. s.node) old ∙ c.named;
      count = count;
      paused = paused;
      until = until;
    }

-- The first failure of a node that the guard does not know.
first-Counted :
    (g : Guard) (node : String) (threshold : ℕ) (now : Time) (f : Failure)
    → 0 < threshold
    → lookup node g.states ≡ none
    → Counted (mark_unhealthy_failure g node f (pos threshold) now).0 node threshold 1 now
unfolding mark_unhealthy_failure
first-Counted g node threshold now f t absent =
    let fresh = series_state-fresh g node now absent in
    let (count, paused, until) =
      failed_count (series_state g node now) g.cooldown f threshold 0 now
        (ap (λ s. s.failure_count) fresh) (omega arith) t in
    record {
      state = failed_state (series_state g node now) g.cooldown f (pos threshold) now;
      stored = lookup-insert_self node _ g.states;
      named = failed_node _ g.cooldown f (pos threshold) now ∙ ap (λ s. s.node) fresh;
      count = count;
      paused = paused;
      until = until;
    }

all-Counted :
    (g : Guard) (node : String) (threshold n : ℕ) (last : Time) (rest : List (Failure × Time))
    → node ≢ ""
    → 0 < threshold
    → n + length rest ≤ max_int64
    → Prompt g.cooldown last rest
    → Counted g node threshold n last
    → (end : Time) × Counted
        (mark_all g node (pos threshold) rest)
        node
        threshold
        (n + length rest)
        end
all-Counted g node threshold n last [] named t h p c = (last, rw add-zero c)
all-Counted g node threshold n last ((f, now) ∷ rest) named t h p c =
    let (end, done) =
      all-Counted (mark_unhealthy_failure g node f (pos threshold) now).0 node threshold (suc n) now
        rest named t (omega arith) (rw (cooldown-kept g node f (pos threshold) now) p.1)
        (next-Counted g node threshold n last now f named t (omega arith) p.0 c) in
    (
      end,
      subst (λ k. Counted (mark_all g node (pos threshold) ((f, now) ∷ rest)) node threshold k end)
          (omega arith) done,
    )

-- Failures of a named node that the guard did not know, each before the cooldown of the last is
-- over, and as many as an int64 counts, are counted one by one; with a threshold above 0 the node
-- is paused after the last one exactly if they are as many as the threshold.
pub mark_all_counts :
    (g : Guard) (node : String) (threshold : ℕ) (f : Failure) (now : Time)
    (rest : List (Failure × Time))
    → node ≢ ""
    → 0 < threshold
    → lookup node g.states ≡ none
    → suc (length rest) ≤ max_int64
    → Prompt g.cooldown now rest
    → (state : CooldownState) × (lookup node
          (mark_all g node (pos threshold) ((f, now) ∷ rest)).states
        ≡ some state)
      × (state.failure_count ≡ pos (suc (length rest)))
      × (state.pause_until_ready ≡ leb threshold (suc (length rest)))
mark_all_counts g node threshold f now rest named t absent h p =
    let (end, c) =
      all-Counted (mark_unhealthy_failure g node f (pos threshold) now).0 node threshold 1 now rest
        named t (omega arith) (rw (cooldown-kept g node f (pos threshold) now) p)
        (first-Counted g node threshold now f t absent) in
    let one : 1 + length rest ≡ suc (length rest) = omega arith in
    (c.state, c.stored, c.count ∙ ap pos one, c.paused ∙ ap (leb threshold) one)
