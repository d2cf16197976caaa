-- ===== src/Status/Shares.antt =====
-- Proofs about the lease statistics that a node reports by label (src/control/protocol.rs).
use muna_server.Base.{
  ◌%◌, ◌^◌, ◌≤◌, min, ◌≡◌, refl, sym, ap, ◌∙◌, subst, inl, inr, true, false, Option, none, some,
  List, [], ◌∷◌, ◌++◌, append-nil, append_assoc, Text, text_eq, text_eq_iff, Map, get, insert,
  get-insert, filterb, sum_by, sum_by-append, All, Any, All-append, All-mono, leb, Bool-cases,
  arith,
}
use muna_server.Lease.{RegistrantStats}
use muna_server.Status.{add_rank, entry_of, collect_from, collect_lease_stats}

-- The ranks of a label, in the order of the devices.
abbrev pub ranks_of : Text → List RegistrantStats → List RegistrantStats
ranks_of label all = filterb (λ s. text_eq s.label label) all

-- The least weight of the ranks, and the sums of their counters on 64 bits.
abbrev pub IsTotal : List RegistrantStats → RegistrantStats → Type 0
IsTotal ranks entry =
    Any (λ s. entry.weight ≡ s.weight) ranks
    × All (λ s. entry.weight ≤ s.weight) ranks
    × (entry.ns_held % 2 ^ 64 ≡ sum_by (λ s. s.ns_held) ranks % 2 ^ 64)
    × (entry.ns_waited % 2 ^ 64 ≡ sum_by (λ s. s.ns_waited) ranks % 2 ^ 64)
    × (entry.yields % 2 ^ 64 ≡ sum_by (λ s. s.yields) ranks % 2 ^ 64)

abbrev pub IsReported : List RegistrantStats → Option RegistrantStats → Type 0
IsReported ranks none = ranks ≡ []
IsReported ranks (some entry) = IsTotal ranks entry

Any-append_left :
    (P : RegistrantStats → Type 0) (xs ys : List RegistrantStats) → Any P xs → Any P (xs ++ ys)
Any-append_left P [] ys h = absurd h
Any-append_left P (x ∷ xs) ys (inl h) = inl h
Any-append_left P (x ∷ xs) ys (inr h) = inr (Any-append_left P xs ys h)

Any-append_right :
    (P : RegistrantStats → Type 0) (xs ys : List RegistrantStats) → Any P ys → Any P (xs ++ ys)
Any-append_right P [] ys h = h
Any-append_right P (x ∷ xs) ys h = inr (Any-append_right P xs ys h)

Any-map :
    (P Q : RegistrantStats → Type 0) (xs : List RegistrantStats)
    → ((s : RegistrantStats) → P s → Q s)
    → Any P xs
    → Any Q xs
Any-map P Q [] f h = absurd h
Any-map P Q (x ∷ xs) f (inl h) = inl (f x h)
Any-map P Q (x ∷ xs) f (inr h) = inr (Any-map P Q xs f h)

-- One more rank.
add_rank-IsTotal :
    (ranks : List RegistrantStats) (entry stats : RegistrantStats)
    → IsTotal ranks entry
    → IsTotal (ranks ++ stats ∷ []) (add_rank entry stats)
unfolding add_rank
add_rank-IsTotal ranks entry stats (least, below, held, waited, yielded) = (
  elim (Bool-cases (leb entry.weight stats.weight)) [
    | inl keeps ↦
        Any-append_left (λ s. min entry.weight stats.weight ≡ s.weight) ranks (stats ∷ [])
          (Any-map (λ s. entry.weight ≡ s.weight) (λ s. min entry.weight stats.weight ≡ s.weight)
            ranks (λ s e. ground arith) least)
    | inr drops ↦
        Any-append_right (λ s. min entry.weight stats.weight ≡ s.weight) ranks (stats ∷ [])
          (inl (ground arith))
  ],
  All-append (λ s. min entry.weight stats.weight ≤ s.weight) ranks (stats ∷ [])
      (All-mono (λ s. entry.weight ≤ s.weight) (λ s. min entry.weight stats.weight ≤ s.weight)
        (λ s e. omega arith) ranks below)
      (omega arith, tt),
  omega (arith, sum_by-append (λ s. s.ns_held) ranks (stats ∷ []), held),
  omega (arith, sum_by-append (λ s. s.ns_waited) ranks (stats ∷ []), waited),
  omega (arith, sum_by-append (λ s. s.yields) ranks (stats ∷ []), yielded),
)

entry_of-IsReported :
    (ranks : List RegistrantStats) (o : Option RegistrantStats) (stats : RegistrantStats)
    → IsReported ranks o
    → IsReported (ranks ++ stats ∷ []) (some (entry_of o stats))
entry_of-IsReported ranks none stats h =
    rw h (inl refl, (omega arith, tt), omega arith, omega arith, omega arith)
entry_of-IsReported ranks (some entry) stats h = add_rank-IsTotal ranks entry stats h

kept :
    (label : Text) (by_label : Map RegistrantStats) (stats : RegistrantStats)
    → text_eq stats.label label ≡ false
    → get (insert by_label stats.label (entry_of (get by_label stats.label) stats)) label
      ≡ get by_label label
kept label by_label stats other =
    get-insert by_label stats.label label (entry_of (get by_label stats.label) stats)
    ∙ rw other refl

entered :
    (label : Text) (by_label : Map RegistrantStats) (stats : RegistrantStats)
    → text_eq stats.label label ≡ true
    → get (insert by_label stats.label (entry_of (get by_label stats.label) stats)) label
      ≡ some (entry_of (get by_label label) stats)
entered label by_label stats same =
    get-insert by_label stats.label label (entry_of (get by_label stats.label) stats)
    ∙ rw same
        (ap (λ j. some (entry_of (get by_label j) stats)) ((text_eq_iff stats.label label).0 same))

collect_from-IsReported :
    (label : Text) (by_label : Map RegistrantStats) (before all : List RegistrantStats)
    → IsReported before (get by_label label)
    → IsReported (before ++ ranks_of label all) (get (collect_from by_label all) label)
unfolding collect_from
collect_from-IsReported label by_label before [] h =
    subst (λ l. IsReported l (get by_label label)) (sym (append-nil before)) h
collect_from-IsReported label by_label before (stats ∷ all) h =
    elim (Bool-cases (text_eq stats.label label)) [
      | inr other ↦ rw other (
          collect_from-IsReported label
            (insert by_label stats.label (entry_of (get by_label stats.label) stats)) before all
            (subst (λ o. IsReported before o) (sym (kept label by_label stats other)) h))
      | inl same ↦ rw same (
          subst
            (λ l. IsReported l (
              get
                (collect_from
                  (insert by_label stats.label (entry_of (get by_label stats.label) stats)) all)
                label))
            (append_assoc before (stats ∷ []) (ranks_of label all))
            (collect_from-IsReported label
              (insert by_label stats.label (entry_of (get by_label stats.label) stats))
              (before ++ stats ∷ []) all
              (subst (λ o. IsReported (before ++ stats ∷ []) o)
                (sym (entered label by_label stats same))
                (entry_of-IsReported before (get by_label label) stats h))))
    ]

-- The lease statistics of every label: none for a label that no device has, and else the smallest
-- weight among the devices of the label and the sums, on 64 bits, of the time held, the time waited
-- and the yields of all of them.
pub collect_lease_stats-IsReported :
    (label : Text) (all : List RegistrantStats)
    → IsReported (ranks_of label all) (get (collect_lease_stats all) label)
unfolding collect_lease_stats get
collect_lease_stats-IsReported label all = collect_from-IsReported label [] [] all refl
