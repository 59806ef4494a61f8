-- ===== src/HostArtifact/Spelling.antt =====
-- Reports of pkg/csi/driver/host_artifact_quarantine.go under any spelling of a key.
use storage_provider_openneb.Prelude.{
  ℕ, ◌+◌, ◌≡◌, ◌<◌, refl, String, false, ◌&&◌, Option, none, some, if◌then◌else◌, arith, ltb,
  is_some,
}
use storage_provider_openneb.Prelude.Int.{ℤ, pos}
use storage_provider_openneb.Prelude.Keys.{insert, string_key, lookup-insert_eq, lookup-delete_self}
use storage_provider_openneb.Golang.Clock.{Time, Duration}
use storage_provider_openneb.Golang.Text.{trim_space}
use storage_provider_openneb.HostArtifact.{
  ArtifactState, Entries, is_blank, filled, counted_artifact, reached, marked_artifact,
  mark_artifact_failure, get_active_artifact, clear_artifact,
}

counted_artifact-key :
    (o : Option ArtifactState) (s : ArtifactState) (now : Time)
    → (counted_artifact o s now).key ≡ s.key
unfolding counted_artifact
counted_artifact-key none s now = refl
counted_artifact-key (some p) s now = ground arith

marked_artifact-key :
    (entries : Entries) (f : ArtifactState) (threshold : ℤ) (ttl : Duration) (now : Time)
    → (marked_artifact entries f threshold ttl now).key ≡ trim_space f.key
unfolding marked_artifact filled
marked_artifact-key entries f threshold ttl now = counted_artifact-key _ _ now

marked_artifact-expires :
    (entries : Entries) (f : ArtifactState) (threshold : ℤ) (ttl : ℕ) (now : Time)
    → 0 < ttl
    → (marked_artifact entries f threshold (pos ttl) now).expires_at ≡ (
        if reached (marked_artifact entries f threshold (pos ttl) now) threshold
        then now + ttl
        else 0)
unfolding marked_artifact reached
marked_artifact-expires entries f threshold ttl now h = ground arith

-- A failure just marked under a key that is not blank, with a `ttl` above 0, is reported under
-- every spelling of the key with other spaces around it, at a time but the zero time, exactly if it
-- reached the threshold and the time is before `ttl` later; after `Clear` under any such spelling
-- it is reported under none.
pub mark-get_active_artifact :
    (entries : Entries) (f : ArtifactState) (threshold : ℤ) (ttl : ℕ) (now : Time)
    (write : Option String) (spelling other : String) (later clock : Time)
    → is_blank f.key ≡ false
    → trim_space spelling ≡ trim_space f.key
    → trim_space other ≡ trim_space f.key
    → 0 < ttl
    → 0 < later
    → let after_it = mark_artifact_failure entries f threshold (pos ttl) now write in
      (is_some (get_active_artifact after_it.entries spelling later clock)
        ≡ (after_it.active && ltb later (now + ttl)))
      × (get_active_artifact (clear_artifact after_it.entries other) spelling later clock ≡ none)
unfolding mark_artifact_failure get_active_artifact clear_artifact
mark-get_active_artifact entries f threshold ttl now write spelling other later clock named same
      same' ht hl =
    let k = marked_artifact-key entries f threshold (pos ttl) now in
    let e = marked_artifact-expires entries f threshold ttl now ht in
    let state = marked_artifact entries f threshold (pos ttl) now in
    rw (same, same', named)
      (
        rw (lookup-insert_eq state.key (trim_space f.key) state entries k) (ground (arith, e)),
        rw (lookup-delete_self (trim_space f.key) (insert state.key state entries)) refl,
      )
