-- ===== src/Controller/Expiry/Spared.antt =====
-- When the queued function of `expireStickyDetach` spares an entry's volume, and what it does otherwise.
use storage_provider_openneb.Prelude.{
  ◌≡◌, refl, String, str_eq, Bool, true, false, not, ◌&&◌, ◌||◌, [], Bool-cases, inl, inr, arith,
  some-eq, ◌∷◌, Option, none, some, eq_refl, ap, ◌∙◌,
}
use storage_provider_openneb.Prelude.Int.{ℤ, negsuc, eq_ℤ}
use storage_provider_openneb.Golang.Answer.{Answer, failed, answered}
use storage_provider_openneb.StickyAttachment.{StickyState, StickyError}
use storage_provider_openneb.Controller.{
  Server, History, attach_called, detach_called, located, node_looked_up, volume_looked_up,
  desire_checked, logged, CallError,
}
use storage_provider_openneb.Controller.Health.{clear_hotplug_guard_state}
use storage_provider_openneb.Controller.Drift.{clear_quarantine}
use storage_provider_openneb.Controller.Sticky.{clear_sticky, found_id}
use storage_provider_openneb.Controller.Unpublish.Explained.{eq_self}
use storage_provider_openneb.Controller.Calls.{notable}
use storage_provider_openneb.Controller.Calls.Nodes.{view-clear_hotplug_guard_state}
use storage_provider_openneb.Controller.Calls.Volumes.{
  view-clear_quarantine, view-detach_metadata_drift_error, notable-clear_sticky,
}
use storage_provider_openneb.Controller.Expiry.{
  locate, locate_ids, after_expiry, detach_expired, drop_absent, unless_gone, expire_undesired,
}

notable-after_expiry :
    (state : StickyState) (e : Option CallError) (s : Server)
    → notable (after_expiry state e s).1.history ≡ notable s.history
notable-after_expiry state (some e) s =
    ap (λ v. v.0) (view-detach_metadata_drift_error state.volume_id state.node_id e.text s)
notable-after_expiry state none s =
    let s1 = (clear_hotplug_guard_state state.node_id s).1 in
    let s2 = (clear_quarantine state.volume_id s1).1 in
    notable-clear_sticky state.volume_id _
    ∙ ap (λ v. v.0) (view-clear_quarantine state.volume_id s1)
    ∙ ap (λ v. v.0) (view-clear_hotplug_guard_state state.node_id s)

notable-drop_absent :
    (state : StickyState) (e : Option StickyError) (s : Server)
    → notable (drop_absent state e s).1.history ≡ notable s.history
notable-drop_absent state (some e) s = refl
notable-drop_absent state none s = ap (λ v. v.0) (view-clear_quarantine state.volume_id s)

found_id-answered : (a : Answer ℤ) (w : ℤ) → found_id a ≡ some w → a ≡ answered w
found_id-answered (failed e) w h = absurd cc
found_id-answered (answered id) w h = elim (Bool-cases (eq_ℤ id (negsuc 0))) [
  | inl none_there ↦ absurd (ground (arith, none_there, h))
  | inr there ↦ ap answered (some-eq (rw there at h))
]

or_true : (b : Bool) → (b || true) ≡ true
or_true true = refl
or_true false = refl

abbrev pub is_none : Option ℤ → Bool
is_none none = true
is_none (some n) = false

module _ (state : StickyState) where
  -- Kubernetes just said that it wants the volume on its node.
  abbrev pub wanted : History → Bool
  wanted (desire_checked v n (answered true) ∷ h) =
      str_eq v state.volume_id && str_eq n state.node_id
  wanted h = false

  -- The volume and the node were just looked up by the names of the entry, as these identifiers.
  abbrev pub of_entry : ℤ → ℤ → History → Bool
  of_entry w n (node_looked_up m (answered k) ∷ volume_looked_up v (answered j) ∷ h) =
      (str_eq m state.node_id && eq_ℤ n k) && (str_eq v state.volume_id && eq_ℤ w j)
  of_entry w n h = false

  -- The volume was just found not to be on its node; or found there, and it is wanted there.
  abbrev pub spared : History → Bool
  spared (located w n (failed e) ∷ h) = of_entry w n h
  spared (located w n (answered d) ∷ node_looked_up m k ∷ volume_looked_up v j ∷ h) =
      of_entry w n (node_looked_up m k ∷ volume_looked_up v j ∷ h) && wanted h
  spared h = false

  -- The volume was just found on its node, and is not wanted there; or one of the two look-ups by the
  -- names of the entry did not find it.
  abbrev pub due : History → Bool
  due (located w n (answered d) ∷ node_looked_up m k ∷ volume_looked_up v j ∷ h) =
      of_entry w n (node_looked_up m k ∷ volume_looked_up v j ∷ h) && not (wanted h)
  due (node_looked_up m k ∷ volume_looked_up v j ∷ h) =
      (str_eq m state.node_id && str_eq v state.volume_id)
      && (is_none (found_id k) || is_none (found_id j))
  due h = false

  -- No volume was moved so far, nor found where it is wanted.
  abbrev pub untouched : History → Bool
  untouched [] = true
  untouched (attach_called v n i r ∷ h) = false
  untouched (detach_called v n r ∷ h) = false
  untouched (located w n (answered d) ∷ node_looked_up m k ∷ volume_looked_up v j ∷ h) =
      not (wanted h) && untouched h
  untouched (e ∷ h) = untouched h

  -- What was done, with `waits` for whether there is a reason to wait: nothing, if there is; else the
  -- volume was spared, or a DetachVolume was called on it and its node.
  abbrev pub settled : Bool → History → Bool
  settled waits [] = waits
  settled waits (detach_called v n r ∷ h) =
      not waits && ((str_eq v state.volume_id && str_eq n state.node_id) && (due h && untouched h))
  settled waits (e ∷ h) = not waits && (spared (e ∷ h) && untouched h)

  settled-detach_expired :
      (s : Server)
      → due (notable s.history) ≡ true
      → untouched (notable s.history) ≡ true
      → settled false (notable (detach_expired state s).1.history) ≡ true
  settled-detach_expired s is_due kept =
      let e = s.outside.detach s.history state.volume_id state.node_id in
      ap (settled false)
        (notable-after_expiry state e (logged (detach_called state.volume_id state.node_id e) s))
      ∙ rw (eq_refl state.volume_id, eq_refl state.node_id, is_due, kept) refl

  pub of_entry-found :
      (a b : Answer ℤ) (w n : ℤ) (h : History)
      → found_id a ≡ some w
      → found_id b ≡ some n
      → of_entry w n (node_looked_up state.node_id b ∷ volume_looked_up state.volume_id a ∷ h)
        ≡ true
  of_entry-found a b w n h ea eb =
      rw
        (
          found_id-answered a w ea,
          found_id-answered b n eb,
          eq_refl state.node_id,
          eq_refl state.volume_id,
          eq_self n,
          eq_self w,
        )
        refl

  due-unfound :
      (a b : Answer ℤ) (h : History)
      → (is_none (found_id b) || is_none (found_id a)) ≡ true
      → due (node_looked_up state.node_id b ∷ volume_looked_up state.volume_id a ∷ h) ≡ true
  due-unfound a b h unfound = rw (eq_refl state.node_id, eq_refl state.volume_id, unfound) refl

  -- The volume was located on its node, or was not, after these two look-ups.
  settled-unless_gone :
      (there : Answer String) (w n : ℤ) (a b : Answer ℤ) (h : History) (s : Server)
      → notable s.history
        ≡ located w n there
          ∷ node_looked_up state.node_id b
          ∷ volume_looked_up state.volume_id a
          ∷ h
      → of_entry w n (node_looked_up state.node_id b ∷ volume_looked_up state.volume_id a ∷ h)
        ≡ true
      → untouched h ≡ true
      → wanted h ≡ false
      → settled false (notable (unless_gone state (some there) s).1.history) ≡ true
  settled-unless_gone (answered d) w n a b h s eq entry kept unwanted =
      settled-detach_expired s (ap due eq ∙ ap (λ c. c && not (wanted h)) entry ∙ rw unwanted refl)
        (ap untouched eq ∙ rw (unwanted, kept) refl)
  settled-unless_gone (failed e) w n a b h s eq entry kept unwanted =
      let r = clear_sticky state.volume_id s in
      ap (settled false)
        (notable-drop_absent state r.0 r.1 ∙ notable-clear_sticky state.volume_id s ∙ eq)
      ∙ ap (λ c. c && untouched h) entry
      ∙ kept

  settled-located :
      (v m : Option ℤ) (a b : Answer ℤ) (h : History) (s : Server)
      → found_id a ≡ v
      → found_id b ≡ m
      → notable s.history ≡ node_looked_up state.node_id b ∷ volume_looked_up state.volume_id a ∷ h
      → untouched h ≡ true
      → wanted h ≡ false
      → let r = locate_ids v m s in
        settled false (notable (unless_gone state r.0 r.1).1.history) ≡ true
  settled-located none m a b h s ea eb eq kept unwanted =
      settled-detach_expired s
        (ap due eq ∙ due-unfound a b h (rw ea (or_true (is_none (found_id b)))))
        (ap untouched eq ∙ kept)
  settled-located (some w) none a b h s ea eb eq kept unwanted =
      settled-detach_expired s (ap due eq ∙ due-unfound a b h (rw eb refl)) (ap untouched eq ∙ kept)
  settled-located (some w) (some n) a b h s ea eb eq kept unwanted =
      let there = s.outside.volume_in_node s.history w n in
      settled-unless_gone there w n a b h (logged (located w n there) s)
        (ap (λ l. located w n there ∷ l) eq) (of_entry-found a b w n h ea eb) kept unwanted

  pub settled-expire_undesired :
      (s : Server)
      → untouched (notable s.history) ≡ true
      → wanted (notable s.history) ≡ false
      → settled false (notable (expire_undesired state s).1.history) ≡ true
  unfolding locate
  settled-expire_undesired s kept unwanted =
      let a = s.outside.volume_exists s.history state.volume_id in
      let s1 = logged (volume_looked_up state.volume_id a) s in
      let b = s1.outside.node_exists s1.history state.node_id in
      settled-located (found_id a) (found_id b) a b (notable s.history)
        (logged (node_looked_up state.node_id b) s1) refl refl refl kept unwanted
