-- ===== src/Stats/Window.antt =====
-- Proofs about the sample window (`TelemetryWindow::record`, src/serving/stats.rs).
use muna_server.Base.{
  ℕ, zero, suc, ◌+◌, ◌-◌, ◌≤◌, ◌<◌, ◌≡◌, refl, ap, List, [], ◌∷◌, ◌++◌, length, drop, length-append,
  length-drop, drop-drop, arith, ◌==◌, ==_iff, Bool-cases, inl, inr,
}
use muna_server.Stats.{record_capped, record_sample, window_cap, PredictionSample}

-- The last `cap` entries of a list.
abbrev pub last {ℓ} : {A : Type ℓ} → ℕ → List A → List A
last cap xs = drop (length xs - cap) xs

drop-append_le {ℓ} :
    {A : Type ℓ} (n : ℕ) (xs ys : List A) → n ≤ length xs → drop n (xs ++ ys) ≡ drop n xs ++ ys
drop-append_le zero xs ys h = refl
drop-append_le (suc n) [] ys h = absurd (omega arith)
drop-append_le (suc n) (x ∷ xs) ys h = drop-append_le n xs ys (omega arith)

record_capped-last {ℓ} :
    {A : Type ℓ} (cap : ℕ) (xs : List A) (s : A)
    → 0 < cap
    → record_capped cap (last cap xs) s ≡ last cap (xs ++ s ∷ [])
unfolding record_capped
record_capped-last cap xs s pos = elim (Bool-cases (length (last cap xs) == cap)) [
  | inl full ↦
      let long : cap ≤ length xs =
        let n = (==_iff (length (last cap xs)) cap).0 full in
        omega (arith, length-drop (length xs - cap) xs) in
      rw
        (
          full,
          drop-drop (length xs - cap) 1 xs,
          ← drop-append_le (length xs - cap + 1) xs (s ∷ []) (omega arith),
        )
        (ap (λ n. drop n (xs ++ s ∷ [])) (omega (arith, length-append xs (s ∷ []))))
  | inr room ↦
      let short : length xs < cap = ground (arith, length-drop (length xs - cap) xs) in
      let before : length xs - cap ≡ 0 = omega arith in
      let after : length (xs ++ s ∷ []) - cap ≡ 0 = omega (arith, length-append xs (s ∷ [])) in
      rw (room, before, after) refl
]

-- Whatever is recorded, the window holds the last 512 samples, oldest first, and never more.
pub record_sample-last :
    (history : List PredictionSample) (s : PredictionSample)
    → (record_sample (last window_cap history) s ≡ last window_cap (history ++ s ∷ []))
      × (length (record_sample (last window_cap history) s) ≤ window_cap)
unfolding record_sample
record_sample-last history s = (
  record_capped-last window_cap history s (omega arith),
  rw (record_capped-last window_cap history s (omega arith))
      (omega (arith, length-drop (length (history ++ s ∷ []) - window_cap) (history ++ s ∷ []))),
)
