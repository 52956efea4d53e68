-- ===== src/Codex/Catalog/Gaps.antt =====
-- The waits between failed discoveries (catalog.go, retryGap).
use clan.Prelude.{
  ℕ, zero, suc, ◌*◌, ◌^◌, ◌≤◌, min, ◌≡◌, refl, subst, inl, inr, arith, ltb, ◌==◌, Bool-cases,
}
use clan.Codex.Catalog.{retry_gap, catalog_ttl, catalog_initial_retry}

power_grows : (n : ℕ) → 9 ≤ n → 512 ≤ 2 ^ n
power_grows zero h = omega arith
power_grows (suc n) h = elim (Bool-cases (n == 8)) [
  | inl e ↦ let l : 8 ≡ n = ground arith in subst (λ k. 512 ≤ 2 ^ suc k) l (omega arith)
  | inr e ↦
      let d : 9 ≤ n = ground (arith, h) in
      let p : 2 ^ suc n ≡ 2 * 2 ^ n = omega arith in omega (arith, p, power_grows n d)
]

-- After the failure number n + 1 in a row the wait is one second doubled n times, and five minutes
-- at most.
pub retry_gap_lem : (n : ℕ) → retry_gap (suc n) ≡ min (catalog_initial_retry * 2 ^ n) catalog_ttl
unfolding retry_gap
retry_gap_lem zero = refl
retry_gap_lem (suc n) = elim (Bool-cases (ltb 9 (suc (suc n)))) [
  | inl e ↦ let l : 9 ≤ suc n = ground arith in ground (arith, power_grows (suc n) l)
  | inr e ↦ ground arith
]
