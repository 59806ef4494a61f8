-- ===== src/PersistentDisk/Hotplug/Rounds.antt =====
-- How the waits of pkg/csi/opennebula/persistentdisk.go end.
use storage_provider_openneb.Prelude.{
  ℕ, ◌≤◌, ◌≡◌, refl, String, Bool, true, false, not, ◌&&◌, List, [], ◌∷◌, Option, none, some,
  if◌then◌else◌, arith, inl, inr, ◌⊎◌, Bool-cases,
}
use storage_provider_openneb.Golang.Answer.{Answer, failed, answered}
use storage_provider_openneb.PersistentDisk.Hotplug.{
  Round, Waited, reached, observe_failed, retry_failed, timed_out, Result, after_retry, judge_round,
  wait_rounds, wait_for_attach_state, wait_for_detach_state, is_hotplug_state_error,
}

-- The round observes a disk and a node that are not at the goal.
abbrev pub Passed : (Bool → Bool → Bool) → Round → Type 0
Passed goal r = (a : Bool) × (b : Bool) × (r.observed ≡ answered (a, b)) × (goal a b ≡ false)

-- The round observes the goal.
abbrev pub Sees : (Bool → Bool → Bool) → Round → Type 0
Sees goal r = (a : Bool) × (b : Bool) × (r.observed ≡ answered (a, b)) × (goal a b ≡ true)

-- The round is not at the goal, a retry is worth it, and it fails for another reason than the state of
-- the machine.
abbrev pub FailsRetry : (Bool → Bool → Bool) → (Bool → Bool → Bool) → String → Round → Type 0
FailsRetry goal wants e r =
    (a : Bool) × (b : Bool) × (r.observed ≡ answered (a, b))
    × (goal a b ≡ false)
    × (wants a b ≡ true)
    × (r.retry ≡ some e)
    × (is_hotplug_state_error e ≡ false)

-- One of the rounds is so, and those before it are not at the goal.
abbrev pub At : (Bool → Bool → Bool) → (Round → Type 0) → Round → List Round → Type 0
At goal P r [] = P r
At goal P r (next ∷ rest) = P r ⊎ (Passed goal r × At goal P next rest)

-- No round is at the goal, and the last one observes this.
abbrev pub Late : (Bool → Bool → Bool) → Bool → Bool → Round → List Round → Type 0
Late goal a b r [] = (r.observed ≡ answered (a, b)) × (goal a b ≡ false)
Late goal a b r (next ∷ rest) = Passed goal r × Late goal a b next rest

-- How the loop ends: at the goal, with the error of an observation or of a retry, which is made only if
-- one is pending, or with what the last round observed.
abbrev pub Ends :
    (Bool → Bool → Bool) → (Bool → Bool → Bool) → Bool → Round → List Round → Waited → Type 0
Ends goal wants pending r rest reached = At goal (Sees goal) r rest
Ends goal wants pending r rest (observe_failed e) =
    At goal (λ (k : Round). k.observed ≡ failed e) r rest
Ends goal wants pending r rest (retry_failed e) =
    (pending ≡ true) × At goal (FailsRetry goal wants e) r rest
Ends goal wants pending r rest (timed_out a b) = Late goal a b r rest

-- One retry is accepted at most, and none unless one is pending.
abbrev pub most_retries : Bool → ℕ
most_retries true = 1
most_retries false = 0

Ends-later :
    (goal wants : Bool → Bool → Bool) (pending : Bool) (r next : Round) (rest : List Round)
    (w : Waited)
    → Passed goal r
    → Ends goal wants pending next rest w
    → Ends goal wants pending r (next ∷ rest) w
Ends-later goal wants pending r next rest reached p h = inr (p, h)
Ends-later goal wants pending r next rest (observe_failed f) p h = inr (p, h)
Ends-later goal wants pending r next rest (retry_failed f) p h = (h.0, inr (p, h.1))
Ends-later goal wants pending r next rest (timed_out c d) p h = (p, h)

-- What a loop with no retry pending may do, one with a retry pending may do too.
Ends-pending :
    (goal wants : Bool → Bool → Bool) (pending : Bool) (r : Round) (rest : List Round) (w : Waited)
    → Ends goal wants false r rest w
    → Ends goal wants pending r rest w
Ends-pending goal wants pending r rest reached h = h
Ends-pending goal wants pending r rest (observe_failed f) h = h
Ends-pending goal wants pending r rest (retry_failed f) h = absurd cc
Ends-pending goal wants pending r rest (timed_out c d) h = h

At-first :
    (goal : Bool → Bool → Bool) (P : Round → Type 0) (r : Round) (rest : List Round)
    → P r
    → At goal P r rest
At-first goal P r [] h = h
At-first goal P r (next ∷ rest) h = inl h

module _ (goal wants : Bool → Bool → Bool) where
  Sound : Bool → Round → List Round → Result → Type 0
  Sound pending r rest (w, n) = Ends goal wants pending r rest w × (n ≤ most_retries pending)

  Sound-judge :
      (pending : Bool) (r : Round) (rest : List Round) (still once : Bool → Bool → Result)
      → ((a b : Bool)
          → r.observed ≡ answered (a, b)
          → goal a b ≡ false
          → Sound pending r rest (still a b))
      → ((a b : Bool)
          → r.observed ≡ answered (a, b)
          → goal a b ≡ false
          → Sound false r rest (once a b))
      → Sound pending r rest (judge_round goal wants pending r still once)
  unfolding Sound
  Sound-judge pending r rest still once go_on go_once = cases r.observed refl
    where
      retried :
          (a b : Bool) (o : Option String)
          → r.observed ≡ answered (a, b)
          → goal a b ≡ false
          → pending ≡ true
          → wants a b ≡ true
          → r.retry ≡ o
          → Sound pending r rest (after_retry o (still a b) (once a b))
      retried a b none e g p want o =
          let (ends, bound) = go_once a b e g in
          (Ends-pending goal wants pending r rest _ ends, rw p (omega (arith, bound)))
      retried a b (some f) e g p want o = elim (Bool-cases (is_hotplug_state_error f)) [
        | inl state ↦ rw state (go_on a b e g)
        | inr other ↦ rw other (
          (p, At-first goal (FailsRetry goal wants f) r rest (a, b, e, g, want, o, other)),
          omega arith,
        )
      ]

      seen :
          (a b : Bool)
          → r.observed ≡ answered (a, b)
          → Sound pending r rest (
              if goal a b
              then (reached, 0)
              else (if pending && wants a b
                  then after_retry r.retry (still a b) (once a b)
                  else still a b))
      seen a b e = elim (Bool-cases (goal a b)) [
        | inl g ↦ rw g (At-first goal (Sees goal) r rest (a, b, e, g), omega arith)
        | inr g ↦ elim (Bool-cases (pending && wants a b)) [
          | inl try ↦ rw (g, try) (retried a b r.retry e g (ground arith) (ground arith) refl)
          | inr keep ↦ rw (g, keep) (go_on a b e g)
        ]
      ]

      cases :
          (o : Answer (Bool × Bool))
          → r.observed ≡ o
          → Sound pending r rest (elim o [
            | failed e ↦ (observe_failed e, 0)
            | answered (a, b) ↦
                if goal a b
                then (reached, 0)
                else (if pending && wants a b
                    then after_retry r.retry (still a b) (once a b)
                    else still a b)
          ])
      cases (failed f) e =
          (At-first goal (λ (k : Round). k.observed ≡ failed f) r rest e, omega arith)
      cases (answered (a, b)) e = seen a b e

  timed_out-Sound :
      (p : Bool) (r : Round) (a b : Bool)
      → r.observed ≡ answered (a, b)
      → goal a b ≡ false
      → Sound p r [] (timed_out a b, 0)
  unfolding Sound
  timed_out-Sound p r a b e g = ((e, g), omega arith)

  Sound-later :
      (p : Bool) (r next : Round) (rest : List Round) (res : Result) (a b : Bool)
      → r.observed ≡ answered (a, b)
      → goal a b ≡ false
      → Sound p next rest res
      → Sound p r (next ∷ rest) res
  unfolding Sound
  Sound-later p r next rest (w, n) a b e g (ends, bound) =
      (Ends-later goal wants p r next rest w (a, b, e, g) ends, bound)

  Sound-wait_rounds :
      (pending : Bool) (r : Round) (rest : List Round)
      → Sound pending r rest (wait_rounds goal wants pending r rest)
  unfolding wait_rounds
  Sound-wait_rounds pending r [] =
      Sound-judge pending r [] _ _ (λ a b e g. timed_out-Sound pending r a b e g)
        (λ a b e g. timed_out-Sound false r a b e g)
  Sound-wait_rounds pending r (next ∷ rest) =
      let same = Sound-wait_rounds pending next rest in
      let fewer = Sound-wait_rounds false next rest in
      Sound-judge pending r (next ∷ rest) _ _
        (λ a b e g. Sound-later pending r next rest _ a b e g same)
        (λ a b e g. Sound-later false r next rest _ a b e g fewer)

-- The waits of an attachment and of a detachment end, within their rounds, in one of these ways: a
-- round observes a disk that is attached to a ready node, or one that is not attached; a round's
-- observation fails, with the error of the wait; or a round's retry, which is made only if the first
-- call was refused, on a ready node that lacks the disk or still has it, fails for another reason than
-- the state of the machine, with the error of the wait; and the rounds before were not at the goal. Or
-- no round is at the goal, and the timeout reports what the last one observed. At most one retry is
-- accepted, and none unless the first call was refused.
pub wait_state-Ends :
    (pending : Bool) (r : Round) (rest : List Round)
    → (Ends
          (λ attached ready. attached && ready)
          (λ attached ready. ready && not attached)
          pending
          r
          rest
          (wait_for_attach_state pending r rest).0
        × ((wait_for_attach_state pending r rest).1 ≤ most_retries pending))
      × (Ends
            (λ attached ready. not attached)
            (λ attached ready. ready && attached)
            pending
            r
            rest
            (wait_for_detach_state pending r rest).0
          × ((wait_for_detach_state pending r rest).1 ≤ most_retries pending))
unfolding wait_for_attach_state wait_for_detach_state Sound
wait_state-Ends pending r rest = (
  Sound-wait_rounds (λ attached ready. attached && ready) (λ attached ready. ready && not attached)
      pending r rest,
  Sound-wait_rounds (λ attached ready. not attached) (λ attached ready. ready && attached) pending r
      rest,
)
