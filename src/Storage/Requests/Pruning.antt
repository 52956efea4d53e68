-- ===== src/Storage/Requests/Pruning.antt =====
-- The loop that removes expired request records ends (internal/app/retention.go).
use clan.Prelude.{
  ℕ, zero, suc, ◌+◌, ◌-◌, ◌*◌, ◌≤◌, min, ◌≡◌, refl, sym, ap, ◌∙◌, subst, Bool, true, false, not,
  Option, none, some, List, [], ◌∷◌, arith, ◌==◌, if◌then◌else◌, if_elim, length, count, filter,
}
use clan.Retry.{Time}
use clan.Errors.{Error}
use clan.Storage.Requests.{
  RequestRow, delete_up_to, is_expired, batch, delete_requests_before, prune_requests,
}

delete_up_to-zero :
    (p : RequestRow → Bool) (rows : List RequestRow) → delete_up_to zero p rows ≡ rows
unfolding delete_up_to
delete_up_to-zero p [] = refl
delete_up_to-zero p (r ∷ rs) = refl

-- What a batch takes away and leaves.
record IsPruned (n : ℕ) (p : RequestRow → Bool) (rows rest : List RequestRow) : Type 0 where
  kept : filter (λ r. not (p r)) rest ≡ filter (λ r. not (p r)) rows
  counted : count p rest ≡ count p rows - n
  removed : length rows ≡ length rest + min n (count p rows)

kept_row :
    (n : ℕ) (p : RequestRow → Bool) (r : RequestRow) (rs rest : List RequestRow)
    → p r ≡ false
    → IsPruned (suc n) p rs rest
    → IsPruned (suc n) p (r ∷ rs) (r ∷ rest)
kept_row n p r rs rest h i = record {
  kept = ground (arith, h, i.kept);
  counted = ground (arith, h, i.counted);
  removed = ground (arith, h, i.removed);
}

gone_row :
    (n : ℕ) (p : RequestRow → Bool) (r : RequestRow) (rs rest : List RequestRow)
    → p r ≡ true
    → IsPruned n p rs rest
    → IsPruned (suc n) p (r ∷ rs) rest
gone_row n p r rs rest h i = record {
  kept = ground (arith, h, i.kept);
  counted = ground (arith, h, i.counted);
  removed = ground (arith, h, i.removed);
}

row_IsPruned :
    (n : ℕ) (p : RequestRow → Bool) (r : RequestRow) (rs : List RequestRow)
    → IsPruned n p rs (delete_up_to n p rs)
    → IsPruned (suc n) p rs (delete_up_to (suc n) p rs)
    → (b : Bool) → p r ≡ b
    → IsPruned
        (suc n)
        p
        (r ∷ rs)
        (elim b [ true ↦ delete_up_to n p rs | false ↦ r ∷ delete_up_to (suc n) p rs ])
row_IsPruned n p r rs g k true h = gone_row n p r rs _ h g
row_IsPruned n p r rs g k false h = kept_row n p r rs _ h k

delete_up_to-IsPruned :
    (n : ℕ) (p : RequestRow → Bool) (rows : List RequestRow)
    → IsPruned n p rows (delete_up_to n p rows)
unfolding delete_up_to
delete_up_to-IsPruned zero p rows =
    subst (IsPruned zero p rows) (sym (delete_up_to-zero p rows))
      (record { kept = refl; counted = omega arith; removed = ground arith })
delete_up_to-IsPruned (suc n) p [] = record {
  kept = refl;
  counted = omega arith;
  removed = ground arith;
}
delete_up_to-IsPruned (suc n) p (r ∷ rs) =
    row_IsPruned n p r rs (delete_up_to-IsPruned n p rs) (delete_up_to-IsPruned (suc n) p rs) (p r)
      refl

filter-none :
    (p : RequestRow → Bool) (rows : List RequestRow)
    → count p rows ≡ 0
    → filter (λ r. not (p r)) rows ≡ rows
filter-none p [] h = refl
filter-none p (r ∷ rs) h = ground (arith, h, filter-none p rs)

-- One round that nothing interrupts.
prune_round :
    (n : ℕ) (interrupts : ℕ → Option Error) (rows : List RequestRow) (t : Time)
    → interrupts n ≡ none
    → prune_requests (suc n) interrupts rows t ≡ (
        let rest = delete_up_to batch (is_expired t) rows in
        if length rows - length rest == 0
        then (rest, some none)
        else prune_requests n interrupts rest t)
unfolding prune_requests delete_requests_before
prune_round n interrupts rows t h = ground (arith, h)

-- Whether it was the last one.
last_round :
    (n : ℕ) (p : RequestRow → Bool) (rows rest : List RequestRow)
    (next : List RequestRow × Option (Option Error))
    → IsPruned 1000 p rows rest
    → count p rows ≤ 1000 * n
    → ((m : ℕ)
        → n ≡ suc m
        → count p rest ≤ 1000 * m
        → next ≡ (filter (λ r. not (p r)) rest, some none))
    → (if length rows - length rest == 0 then (rest, some none) else next)
      ≡ (filter (λ r. not (p r)) rows, some none)
last_round n p rows rest next i h k =
    if_elim (λ x. x ≡ (filter (λ r. not (p r)) rows, some none)) (length rows - length rest == 0) _
      _
      (λ e.
        ap (λ l. (l, some none))
          (sym (filter-none p rest (ground (arith, e, i.removed, i.counted))) ∙ i.kept))
      (λ e. more n h e k)
  where
    more :
        (n : ℕ)
        → count p rows ≤ 1000 * n
        → (length rows - length rest == 0) ≡ false
        → ((m : ℕ)
            → n ≡ suc m
            → count p rest ≤ 1000 * m
            → next ≡ (filter (λ r. not (p r)) rest, some none))
        → next ≡ (filter (λ r. not (p r)) rows, some none)
    more zero h e k = absurd (ground (arith, h, e, i.removed))
    more (suc m) h e k = k m refl (omega (arith, h, i.counted)) ∙ ap (λ l. (l, some none)) i.kept

-- The loop ends after as many rounds as it takes to remove the expired records in batches of a thousand, and one
-- more; if nothing interrupts it, it returns without an error, and exactly the records that have not expired are left.
pub prune_requests-filter :
    (n : ℕ) (interrupts : ℕ → Option Error) (rows : List RequestRow) (t : Time)
    → ((i : ℕ) → interrupts i ≡ none)
    → count (is_expired t) rows ≤ 1000 * n
    → prune_requests (suc n) interrupts rows t
      ≡ (filter (λ r. not (is_expired t r)) rows, some none)
prune_requests-filter zero interrupts rows t u h =
    prune_round zero interrupts rows t (u zero)
    ∙ last_round zero (is_expired t) rows _ _ (delete_up_to-IsPruned batch (is_expired t) rows) h
        (λ m e. absurd (ground (arith, e)))
prune_requests-filter (suc n) interrupts rows t u h =
    prune_round (suc n) interrupts rows t (u (suc n))
    ∙ last_round (suc n) (is_expired t) rows _ _ (delete_up_to-IsPruned batch (is_expired t) rows) h
        (λ m e g.
          prune_requests-filter n interrupts (delete_up_to batch (is_expired t) rows) t u
            (omega (arith, e, g)))
