-- ===== src/Stats/Percentile.antt =====
-- Proofs about `percentile` and `summarize` (src/serving/stats.rs).
use mathlib.Core.Option.{some-injective}
use muna_server.Base.{
  subst, ℕ, zero, suc, ◌+◌, ◌-◌, ◌*◌, ◌≤◌, ◌<◌, ◌≡◌, refl, Bool, none, some, List, [], ◌∷◌, length,
  get_elem?, All, All-mono, arith, leb, leb→le, if◌then◌else◌, Bool-cases, inl, inr,
}
use muna_server.Stats.{insert_value, sort_values, rank, percentile, min_samples}

abbrev IsSorted : List ℕ → Type 0
IsSorted [] = Unit
IsSorted (v ∷ vs) = All (λ w. v ≤ w) vs × IsSorted vs

All-insert_value :
    (P : ℕ → Type 0) (v : ℕ) (ws : List ℕ) → P v → All P ws → All P (insert_value v ws)
unfolding insert_value
All-insert_value P v [] p h = (p, tt)
All-insert_value P v (w ∷ ws) p h = elim (Bool-cases (leb v w)) [
  | inl le ↦ rw le (p, h)
  | inr gt ↦ rw gt (h.0, All-insert_value P v ws p h.1)
]

insert_value-IsSorted : (v : ℕ) (ws : List ℕ) → IsSorted ws → IsSorted (insert_value v ws)
unfolding insert_value
insert_value-IsSorted v [] h = (tt, tt)
insert_value-IsSorted v (w ∷ ws) h = elim (Bool-cases (leb v w)) [
  | inl le ↦ rw le (
    (
      leb→le v w le,
      All-mono (λ u. w ≤ u) (λ u. v ≤ u) (λ u k. omega (arith, leb→le v w le)) ws h.0,
    ),
    h,
  )
  | inr gt ↦
      rw gt (All-insert_value (λ u. w ≤ u) v ws (ground arith) h.0, insert_value-IsSorted v ws h.1)
]

sort_values-IsSorted : (vs : List ℕ) → IsSorted (sort_values vs)
unfolding sort_values
sort_values-IsSorted [] = tt
sort_values-IsSorted (v ∷ vs) = insert_value-IsSorted v (sort_values vs) (sort_values-IsSorted vs)

-- How many values pass a test.
abbrev pub count_if : (ℕ → Bool) → List ℕ → ℕ
count_if p [] = 0
count_if p (v ∷ vs) = (if p v then 1 else 0) + count_if p vs

count_if-insert_value :
    (p : ℕ → Bool) (v : ℕ) (ws : List ℕ) → count_if p (insert_value v ws) ≡ count_if p (v ∷ ws)
unfolding insert_value
count_if-insert_value p v [] = refl
count_if-insert_value p v (w ∷ ws) = ground (arith, count_if-insert_value p v ws)

count_if-sort_values : (p : ℕ → Bool) (vs : List ℕ) → count_if p (sort_values vs) ≡ count_if p vs
unfolding sort_values
count_if-sort_values p [] = refl
count_if-sort_values p (v ∷ vs) =
    omega (arith, count_if-insert_value p v (sort_values vs), count_if-sort_values p vs)

length-insert_value : (v : ℕ) (ws : List ℕ) → length (insert_value v ws) ≡ suc (length ws)
unfolding insert_value
length-insert_value v [] = refl
length-insert_value v (w ∷ ws) = ground (arith, length-insert_value v ws)

length-sort_values : (vs : List ℕ) → length (sort_values vs) ≡ length vs
unfolding sort_values
length-sort_values [] = refl
length-sort_values (v ∷ vs) =
    omega (arith, length-insert_value v (sort_values vs), length-sort_values vs)

count_if-All : (v : ℕ) (vs : List ℕ) → All (λ w. v ≤ w) vs → count_if (λ w. leb v w) vs ≡ length vs
count_if-All v [] h = refl
count_if-All v (w ∷ ws) h = ground (arith, count_if-All v ws h.1)

All-get_elem? : (P : ℕ → Type 0) (vs : List ℕ) (i v : ℕ) → All P vs → get_elem? vs i ≡ some v → P v
All-get_elem? P [] i v h e = cc
All-get_elem? P (w ∷ ws) zero v h e = subst P (some-injective w v e) h.0
All-get_elem? P (w ∷ ws) (suc i) v h e = All-get_elem? P ws i v h.1 e

-- The value at index `i` of a sorted list: more than `i` values are at most it, and all but `i` are
-- at least it.
get_elem?-sorted :
    (vs : List ℕ) (i v : ℕ)
    → IsSorted vs
    → get_elem? vs i ≡ some v
    → (i < count_if (λ w. leb w v) vs) × (length vs ≤ i + count_if (λ w. leb v w) vs)
get_elem?-sorted [] i v h e = cc
get_elem?-sorted (w ∷ ws) zero v h e = (
  ground arith,
  ground (arith, count_if-All v ws (subst (λ u. All (λ x. u ≤ x) ws) (some-injective w v e) h.0)),
)
get_elem?-sorted (w ∷ ws) (suc i) v h e =
    let (below, above) = get_elem?-sorted ws i v h.1 e in
    let least = All-get_elem? (λ u. w ≤ u) ws i v h.0 e in ground arith

get_elem?-some {ℓ} :
    {A : Type ℓ} (xs : List A) (i : ℕ) → i < length xs → (x : A) × (get_elem? xs i ≡ some x)
get_elem?-some [] i h = absurd (omega arith)
get_elem?-some (x ∷ xs) zero h = (x, refl)
get_elem?-some (x ∷ xs) (suc i) h = get_elem?-some xs i (omega arith)

rank-le : (n num : ℕ) → num ≤ 100 → rank n num ≤ n
unfolding rank
rank-le n num h = omega (arith, scaled)
  where
    scaled : n * num ≤ n * 100
    scaled = grind arith

-- A rank is the number nearest to `n * num / 100`, the higher one of two.
abbrev pub IsNearest : ℕ → ℕ → ℕ → Type 0
IsNearest n num r = (2 * (n * num) < 200 * r + 100) × (200 * r ≤ 2 * (n * num) + 100)

rank-IsNearest : (n num : ℕ) → IsNearest n num (rank n num)
unfolding rank
rank-IsNearest n num =
    let scaled : 2 * n * num ≡ 2 * (n * num) = grind arith in (omega arith, omega arith)

-- From five values on there is a percentile, the one of nearest rank: there is a number `r` nearest to
-- `num` per cent of the number of the values less one, half a step rounded up, such that more than
-- `r` of the values are at most the percentile and all but `r` of them are at least it. With fewer
-- than five values there is none.
pub percentile-rank :
    (values : List ℕ) (num : ℕ)
    → num ≤ 100
    → (length values < min_samples → percentile values num ≡ none)
      × (min_samples ≤ length values
          → (v : ℕ) × (r : ℕ) × (percentile values num ≡ some v)
            × IsNearest (length values - 1) num r
            × (r < count_if (λ w. leb w v) values)
            × (length values ≤ r + count_if (λ w. leb v w) values))
unfolding percentile
percentile-rank values num h = (
  λ few. ground arith,
  λ enough.
      let i = rank (length values - 1) num in
      let (v, at) =
        get_elem?-some (sort_values values) i
          (omega (arith, rank-le (length values - 1) num h, length-sort_values values)) in
      let (below, above) =
        get_elem?-sorted (sort_values values) i v (sort_values-IsSorted values) at in
      (
        v,
        i,
        ground arith,
        rank-IsNearest (length values - 1) num,
        omega (arith, count_if-sort_values (λ w. leb w v) values),
        omega (arith, count_if-sort_values (λ w. leb v w) values, length-sort_values values),
      ),
)
