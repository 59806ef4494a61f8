-- ===== src/HotplugQueue/Select.antt =====
-- The selection in `next` of pkg/csi/driver/hotplug_queue.go: the least score, the first of equals.
use mathlib.Core.List.{append_assoc, append-nil}
use storage_provider_openneb.Prelude.{
  ℕ, zero, suc, ◌+◌, ◌≡◌, refl, sym, ap, subst, ◌∙◌, true, false, List, [], ◌∷◌, ◌++◌, arith, inl,
  inr, Bool-cases, if◌then◌else◌, length, length-append, All, ltb→lt, Option, none, some,
}
use storage_provider_openneb.Prelude.Int.{ℤ, ltb_ℤ, ◌≤ℤ◌, ◌<ℤ◌}

ltb_ℤ→lt : (a b : ℤ) → ltb_ℤ a b ≡ true → a <ℤ b
ltb_ℤ→lt a b h = omega (arith, ltb→lt)

ltb_ℤ→le : (a b : ℤ) → ltb_ℤ a b ≡ false → b ≤ℤ a
ltb_ℤ→le a b h = ground arith

module _ {A : Type 0} (score : A → ℤ) where
  -- `for idx := 1; ...`: one element is left of the loop's `idx`, `sel` and `selected`.
  unfoldable pub select_loop : List A → ℕ → ℕ → ℤ → ℕ
  select_loop [] idx sel best = sel
  select_loop (r ∷ rs) idx sel best =
      let better = ltb_ℤ (score r) best in
      select_loop rs (suc idx) (if better then idx else sel) (if better then score r else best)

  -- `selectedIdx`, for a queue that is not empty.
  unfoldable pub select_index : A → List A → ℕ
  select_index r rs = select_loop rs 1 0 (score r)

  -- Position `i` holds an element that no other one beats, and that beats all before it.
  pub record Picks (xs : List A) (i : ℕ) : Type 0 where
    pub before : List A
    pub chosen : A
    pub after : List A
    pub splits : xs ≡ before ++ (chosen ∷ after)
    pub at_index : i ≡ length before
    pub beats : All (λ r. score chosen <ℤ score r) before
    pub least : All (λ r. score chosen ≤ℤ score r) after

  All-lt_trans :
      (a b : A) (xs : List A)
      → score a <ℤ score b
      → All (λ r. score b <ℤ score r) xs
      → All (λ r. score a <ℤ score r) xs
  All-lt_trans a b [] h hs = tt
  All-lt_trans a b (x ∷ xs) h hs = (omega arith, All-lt_trans a b xs h hs.1)

  All-lt_of_le :
      (a b : A) (xs : List A)
      → score a <ℤ score b
      → All (λ r. score b ≤ℤ score r) xs
      → All (λ r. score a <ℤ score r) xs
  All-lt_of_le a b [] h hs = tt
  All-lt_of_le a b (x ∷ xs) h hs = (omega arith, All-lt_of_le a b xs h hs.1)

  All-append {κ} : (P : A → Type κ) (xs ys : List A) → All P xs → All P ys → All P (xs ++ ys)
  All-append P [] ys hx hy = hy
  All-append P (x ∷ xs) ys hx hy = (hx.0, All-append P xs ys hx.1 hy)

  select_loop-Picks :
      (before : List A) (best : A) (mid rs : List A)
      → All (λ r. score best <ℤ score r) before
      → All (λ r. score best ≤ℤ score r) mid
      → (xs : List A) (idx sel : ℕ) (s : ℤ) → xs ≡ before ++ (best ∷ (mid ++ rs))
      → idx ≡ length before + suc (length mid)
      → sel ≡ length before
      → s ≡ score best
      → Picks xs (select_loop rs idx sel s)
  unfolding select_loop
  select_loop-Picks before best mid [] hb hm xs idx sel s ex ei es eb = record {
    before = before;
    chosen = best;
    after = mid;
    splits = rw append-nil at ex;
    at_index = es;
    beats = hb;
    least = hm;
  }
  select_loop-Picks before best mid (r ∷ rs) hb hm xs idx sel s ex ei es eb =
      elim (Bool-cases (ltb_ℤ (score r) s)) [
        | inl wins ↦ rw wins (
            select_loop-Picks (before ++ (best ∷ mid)) r [] rs
              (All-append (λ x. score r <ℤ score x) before (best ∷ mid)
                (All-lt_trans r best before (ltb_score wins) hb)
                (ltb_score wins, All-lt_of_le r best mid (ltb_score wins) hm))
              tt xs (suc idx) idx (score r) (ex ∙ sym (append_assoc before (best ∷ mid) (r ∷ rs)))
              (omega (arith, length-append before (best ∷ mid)))
              (omega (arith, length-append before (best ∷ mid))) refl)
        | inr loses ↦ rw loses (
            select_loop-Picks before best (mid ++ (r ∷ [])) rs hb
              (All-append (λ x. score best ≤ℤ score x) mid (r ∷ []) hm (ltb_not_score loses, tt)) xs
              (suc idx) sel s
              (ex ∙ ap (λ l. before ++ (best ∷ l)) (sym (append_assoc mid (r ∷ []) rs)))
              (omega (arith, length-append mid (r ∷ []))) es eb)
      ]
    where
      ltb_score : ltb_ℤ (score r) s ≡ true → score r <ℤ score best
      ltb_score h = subst (λ t. score r <ℤ t) eb (ltb_ℤ→lt (score r) s h)

      ltb_not_score : ltb_ℤ (score r) s ≡ false → score best ≤ℤ score r
      ltb_not_score h = subst (λ t. t ≤ℤ score r) eb (ltb_ℤ→le (score r) s h)

  -- The selection takes the element of least score, and of equals the one enqueued first.
  pub select_index-Picks : (r : A) (rs : List A) → Picks (r ∷ rs) (select_index r rs)
  unfolding select_index
  select_index-Picks r rs =
      select_loop-Picks [] r [] rs tt tt (r ∷ rs) 1 0 (score r) refl (omega arith) (omega arith)
        refl

module _ {A : Type 0} where
  -- `slices.Delete(pending, i, i+1)`, with the element that it drops.
  unfoldable pub take_at : ℕ → List A → Option (A × List A)
  take_at i [] = none
  take_at zero (x ∷ xs) = some (x, xs)
  take_at (suc i) (x ∷ xs) = elim (take_at i xs) [ none ↦ none | some (y, ys) ↦ some (y, x ∷ ys) ]

  pub take_at-append :
      (before : List A) (x : A) (after : List A)
      → take_at (length before) (before ++ (x ∷ after)) ≡ some (x, before ++ after)
  unfolding take_at
  take_at-append [] x after = refl
  take_at-append (y ∷ before) x after = rw (take_at-append before x after) refl
