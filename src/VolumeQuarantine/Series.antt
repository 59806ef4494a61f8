-- ===== src/VolumeQuarantine/Series.antt =====
-- Runs of equal failures in pkg/csi/driver/volume_quarantine.go.
use native.Mathlib.Nat.{add-zero}
use storage_provider_openneb.Prelude.{
  ℕ, suc, ◌+◌, ◌≤◌, ◌<◌, ◌≡◌, ◌≢◌, refl, sym, subst, ◌∙◌, String, false, List, [], ◌∷◌, Option,
  none, some, arith, leb, length, if◌then◌else◌, inl, inr, ◌&&◌, ltb, is_some, Bool-cases,
}
use storage_provider_openneb.Prelude.Int.{ℤ, pos, max_int64}
use storage_provider_openneb.Prelude.Keys.{lookup, lookup-insert_ne, lookup-delete_self, string_key}
use storage_provider_openneb.Golang.Clock.{Time, Duration}
use storage_provider_openneb.Golang.Text.{trim_space, trim_space_idem}
use storage_provider_openneb.VolumeQuarantine.{
  QuarantineState, Entries, is_blank, normalized, counted, marked, mark_failure, get_active, clear,
}
use storage_provider_openneb.VolumeQuarantine.Counted.{
  mark_times, Counted, next-Counted, first-Counted,
}

-- The time of the last failure.
abbrev pub last_time : Time → List (Time × Option String) → Time
last_time now [] = now
last_time now ((next, write) ∷ rest) = last_time next rest

all-Counted :
    (entries : Entries) (f : QuarantineState) (threshold ttl n first last : ℕ)
    (rest : List (Time × Option String))
    → is_blank f.volume_id ≡ false
    → 0 < threshold
    → 0 < ttl
    → n + length rest ≤ max_int64
    → Counted entries f threshold ttl n first last
    → Counted
        (mark_times entries f (pos threshold) (pos ttl) rest)
        f
        threshold
        ttl
        (n + length rest)
        first
        (last_time last rest)
all-Counted entries f threshold ttl n first last [] named ht hl h c = rw add-zero c
all-Counted entries f threshold ttl n first last ((now, write) ∷ rest) named ht hl h c =
    subst
      (λ k.
        Counted (mark_times entries f (pos threshold) (pos ttl) ((now, write) ∷ rest)) f threshold
          ttl k first (last_time now rest))
      (omega arith)
      (all-Counted (mark_failure entries f (pos threshold) (pos ttl) now write).entries f threshold
        ttl (suc n) first now rest named ht hl (omega arith)
        (next-Counted entries f threshold ttl n first last now write named ht hl (omega arith) c))

get_of-Counted :
    (entries : Entries) (f : QuarantineState) (threshold ttl n first last : ℕ) (later clock : Time)
    → is_blank f.volume_id ≡ false
    → 0 < later
    → (c : Counted entries f threshold ttl n first last)
    → get_active entries (trim_space f.volume_id) later clock
      ≡ (if leb threshold n && ltb later (last + ttl) then some c.state else none)
unfolding get_active
get_of-Counted entries f threshold ttl n first last later clock named hl c =
    rw (trim_space_idem f.volume_id, named, c.stored) (ground (arith, c.until))

-- The same failure of a named volume without an entry, observed again and again, whatever its
-- writes return, for a threshold and a `ttl` above 0 and as many times as an int64 counts: at any
-- time but the zero time, the volume is in quarantine under its trimmed name exactly if the
-- threshold is reached and the time is before `ttl` after the last observation.
pub mark_times-get_active :
    (entries : Entries) (f : QuarantineState) (threshold ttl : ℕ) (now : Time)
    (write : Option String) (rest : List (Time × Option String)) (later clock : Time)
    → is_blank f.volume_id ≡ false
    → 0 < threshold
    → 0 < ttl
    → suc (length rest) ≤ max_int64
    → 0 < later
    → lookup (trim_space f.volume_id) entries ≡ none
    → let after_all = mark_times entries f (pos threshold) (pos ttl) ((now, write) ∷ rest) in
      is_some (get_active after_all (trim_space f.volume_id) later clock)
      ≡ (leb threshold (suc (length rest)) && ltb later (last_time now rest + ttl))
mark_times-get_active entries f threshold ttl now write rest later clock named ht hl h hn absent =
    let c =
      all-Counted (mark_failure entries f (pos threshold) (pos ttl) now write).entries f threshold
        ttl 1 now now rest named ht hl (omega arith)
        (first-Counted entries f threshold ttl now write named ht hl absent) in
    ground (
      arith,
      get_of-Counted _ f threshold ttl (1 + length rest) now (last_time now rest) later clock named
          hn c,
    )

-- After `Clear` a volume is not in quarantine under its trimmed name.
pub clear-get_active :
    (entries : Entries) (volume_id : String) (now clock : Time)
    → get_active (clear entries volume_id) (trim_space volume_id) now clock ≡ none
unfolding clear get_active
clear-get_active entries volume_id now clock = elim (Bool-cases (is_blank volume_id)) [
  | inl blank ↦ rw (trim_space_idem volume_id, blank) refl
  | inr named ↦
      rw (trim_space_idem volume_id, named, lookup-delete_self (trim_space volume_id) entries) refl
]

counted-volume_id :
    (o : Option QuarantineState) (s : QuarantineState) (now : Time)
    → (counted o s now).volume_id ≡ s.volume_id
unfolding counted
counted-volume_id none s now = refl
counted-volume_id (some p) s now = ground arith

marked-volume_id :
    (entries : Entries) (f : QuarantineState) (threshold : ℤ) (ttl : Duration) (now : Time)
    → (marked entries f threshold ttl now).volume_id ≡ trim_space f.volume_id
unfolding marked normalized
marked-volume_id entries f threshold ttl now = counted-volume_id _ (normalized f now) now

mark_failure-untrimmed :
    (entries : Entries) (f : QuarantineState) (threshold : ℤ) (ttl : Duration)
    (now later clock : Time) (write : Option String)
    → trim_space f.volume_id ≢ f.volume_id
    → get_active (mark_failure entries f threshold ttl now write).entries f.volume_id later clock
      ≡ get_active entries f.volume_id later clock
unfolding mark_failure get_active
mark_failure-untrimmed entries f threshold ttl now later clock write untrimmed =
    elim (Bool-cases (is_blank f.volume_id)) [
      | inl blank ↦ rw blank refl
      | inr named ↦
          rw
            (
              named,
              lookup-insert_ne (marked entries f threshold ttl now).volume_id f.volume_id
                  (marked entries f threshold ttl now) entries
                  (λ e. untrimmed (sym (marked-volume_id entries f threshold ttl now) ∙ e)),
            )
            refl
    ]

times-untrimmed :
    (entries : Entries) (f : QuarantineState) (threshold : ℤ) (ttl : Duration)
    (rest : List (Time × Option String)) (later clock : Time)
    → trim_space f.volume_id ≢ f.volume_id
    → get_active (mark_times entries f threshold ttl rest) f.volume_id later clock
      ≡ get_active entries f.volume_id later clock
times-untrimmed entries f threshold ttl [] later clock untrimmed = refl
times-untrimmed entries f threshold ttl ((now, write) ∷ rest) later clock untrimmed =
    times-untrimmed (mark_failure entries f threshold ttl now write).entries f threshold ttl rest
      later clock untrimmed
    ∙ mark_failure-untrimmed entries f threshold ttl now later clock write untrimmed

-- The same failure of a named volume without an entry, observed again and again under a name that is
-- not trimmed, for a threshold and a `ttl` above 0 and as many times as an int64 counts: at any time
-- but the zero time, the volume is in quarantine under its trimmed name exactly if the threshold is
-- reached and the time is before `ttl` after the last observation, but what `GetActive` reports under
-- the name as it was observed is what it was before all of them.
pub mark_times-untrimmed :
    (entries : Entries) (f : QuarantineState) (threshold ttl : ℕ) (now : Time)
    (write : Option String) (rest : List (Time × Option String)) (later clock : Time)
    → is_blank f.volume_id ≡ false
    → trim_space f.volume_id ≢ f.volume_id
    → 0 < threshold
    → 0 < ttl
    → suc (length rest) ≤ max_int64
    → 0 < later
    → lookup (trim_space f.volume_id) entries ≡ none
    → let after_all = mark_times entries f (pos threshold) (pos ttl) ((now, write) ∷ rest) in
      (is_some (get_active after_all (trim_space f.volume_id) later clock)
        ≡ (leb threshold (suc (length rest)) && ltb later (last_time now rest + ttl)))
      × (get_active after_all f.volume_id later clock ≡ get_active entries f.volume_id later clock)
mark_times-untrimmed entries f threshold ttl now write rest later clock named untrimmed ht hl h hn
      absent =
    (
      mark_times-get_active entries f threshold ttl now write rest later clock named ht hl h hn
          absent,
      times-untrimmed entries f (pos threshold) (pos ttl) ((now, write) ∷ rest) later clock
          untrimmed,
    )
