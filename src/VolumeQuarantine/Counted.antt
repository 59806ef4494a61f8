-- ===== src/VolumeQuarantine/Counted.antt =====
-- What pkg/csi/driver/volume_quarantine.go stores of a series of failures.
use storage_provider_openneb.Prelude.{
  ℕ, suc, ◌+◌, ◌<◌, ◌≡◌, refl, ap, subst, ◌∙◌, String, true, false, List, [], ◌∷◌, Option, none,
  some, arith, leb, eq_iff, if◌then◌else◌,
}
use storage_provider_openneb.Prelude.Int.{ℤ, pos, wrap64, max_int64, ◌+ℤ◌}
use storage_provider_openneb.Prelude.Keys.{lookup, insert, lookup-insert_self, string_key}
use storage_provider_openneb.Golang.Clock.{Time, Duration, zero_time}
use storage_provider_openneb.Golang.Text.{trim_space}
use storage_provider_openneb.VolumeQuarantine.{
  QuarantineState, Entries, is_blank, same_quarantine_series, normalized, counted, is_active,
  marked, mark_failure,
}

-- The same failure, observed at these times.
abbrev pub mark_times :
    Entries → QuarantineState → ℤ → Duration → List (Time × Option String) → Entries
mark_times entries f threshold ttl [] = entries
mark_times entries f threshold ttl ((now, write) ∷ rest) =
    mark_times (mark_failure entries f threshold ttl now write).entries f threshold ttl rest

-- What is stored after `n` failures, of which the first was at `first` and the last at `last`.
pub record Counted (entries : Entries) (f : QuarantineState) (threshold ttl n : ℕ)
    (first last : Time) : Type 0 where
  pub state : QuarantineState
  pub stored : lookup (trim_space f.volume_id) entries ≡ some state
  pub same_reason : state.reason ≡ trim_space f.reason
  pub same_class : state.classification ≡ trim_space f.classification
  pub same_node : state.requested_node ≡ trim_space f.requested_node
  pub count : state.failure_count ≡ pos n
  pub since : state.first_observed_at ≡ first
  pub until : state.expires_at ≡ (if leb threshold n then last + ttl else zero_time)

same_series :
    (p n : QuarantineState)
    → p.reason ≡ n.reason
    → p.classification ≡ n.classification
    → p.requested_node ≡ n.requested_node
    → same_quarantine_series p n ≡ true
unfolding same_quarantine_series
same_series p n hr hc hn = ground (
  arith,
  eq_iff (trim_space p.reason) (trim_space n.reason),
  eq_iff (trim_space p.classification) (trim_space n.classification),
  eq_iff (trim_space p.requested_node) (trim_space n.requested_node),
)

pos-suc : (n : ℕ) → n < max_int64 → wrap64 (pos n +ℤ pos 1) ≡ pos (suc n)
unfolding ◌+ℤ◌ wrap64
pos-suc n h = ground arith

-- The entry of a failure that continues the stored series, or begins one.
counted_entry :
    (entries : Entries) (f s : QuarantineState) (threshold ttl n first : ℕ) (now : Time)
    (write : Option String)
    → is_blank f.volume_id ≡ false
    → 0 < threshold
    → 0 < ttl
    → counted (lookup (trim_space f.volume_id) entries) (normalized f now) now ≡ s
    → s.failure_count ≡ pos n
    → s.first_observed_at ≡ first
    → s.volume_id ≡ trim_space f.volume_id
    → s.reason ≡ trim_space f.reason
    → s.classification ≡ trim_space f.classification
    → s.requested_node ≡ trim_space f.requested_node
    → Counted
        (mark_failure entries f (pos threshold) (pos ttl) now write).entries
        f
        threshold
        ttl
        n
        first
        now
unfolding mark_failure marked is_active normalized
counted_entry entries f s threshold ttl n first now write named ht hl e count since id same_r same_c
      same_n =
    rw named (record {
      state = state;
      stored =
          subst (λ k. lookup k (insert state.volume_id state entries) ≡ some state) (named_id ∙ id)
            (lookup-insert_self state.volume_id state entries);
      same_reason = ap (λ t. t.reason) e ∙ same_r;
      same_class = ap (λ t. t.classification) e ∙ same_c;
      same_node = ap (λ t. t.requested_node) e ∙ same_n;
      count = ap (λ t. t.failure_count) e ∙ count;
      since = ap (λ t. t.first_observed_at) e ∙ since;
      until = ground (arith, ap (λ t. t.failure_count) e ∙ count);
    })
  where
    state : QuarantineState
    state = marked entries f (pos threshold) (pos ttl) now

    named_id : state.volume_id ≡ s.volume_id
    named_id = ap (λ t. t.volume_id) e

counted_again :
    (f : QuarantineState) (p : QuarantineState) (n : ℕ) (now : Time)
    → n < max_int64
    → p.reason ≡ trim_space f.reason
    → p.classification ≡ trim_space f.classification
    → p.requested_node ≡ trim_space f.requested_node
    → p.failure_count ≡ pos n
    → counted (some p) (normalized f now) now ≡ record (normalized f now) {
      first_observed_at = p.first_observed_at;
      failure_count = pos (suc n);
    }
unfolding counted normalized
counted_again f p n now h hr hc hn count =
    ground (arith, same_series p (normalized f now) hr hc hn, pos-suc n h, count)

pub next-Counted :
    (entries : Entries) (f : QuarantineState) (threshold ttl n first last : ℕ) (now : Time)
    (write : Option String)
    → is_blank f.volume_id ≡ false
    → 0 < threshold
    → 0 < ttl
    → n < max_int64
    → Counted entries f threshold ttl n first last
    → Counted
        (mark_failure entries f (pos threshold) (pos ttl) now write).entries
        f
        threshold
        ttl
        (suc n)
        first
        now
unfolding normalized
next-Counted entries f threshold ttl n first last now write named ht hl h c =
    counted_entry entries f again threshold ttl (suc n) first now write named ht hl
      (ap (λ o. counted o (normalized f now) now) c.stored
        ∙ counted_again f c.state n now h c.same_reason c.same_class c.same_node c.count)
      refl c.since refl refl refl refl
  where
    again : QuarantineState
    again = record (normalized f now) {
      first_observed_at = c.state.first_observed_at;
      failure_count = pos (suc n);
    }

pub first-Counted :
    (entries : Entries) (f : QuarantineState) (threshold ttl : ℕ) (now : Time)
    (write : Option String)
    → is_blank f.volume_id ≡ false
    → 0 < threshold
    → 0 < ttl
    → lookup (trim_space f.volume_id) entries ≡ none
    → Counted
        (mark_failure entries f (pos threshold) (pos ttl) now write).entries
        f
        threshold
        ttl
        1
        now
        now
unfolding normalized counted
first-Counted entries f threshold ttl now write named ht hl absent =
    counted_entry entries f begun threshold ttl 1 now now write named ht hl
      (ap (λ o. counted o (normalized f now) now) absent) refl refl refl refl refl refl
  where
    begun : QuarantineState
    begun = record (normalized f now) { first_observed_at = now; failure_count = pos 1 }
