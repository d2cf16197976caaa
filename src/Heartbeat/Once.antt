-- ===== src/Heartbeat/Once.antt =====
-- Proofs about the order in which a heartbeat's goals are applied (src/control/heartbeat.rs).
use muna_server.Base.{
  ◌≡◌, refl, ap, ◌∙◌, ◌⊎◌, inl, inr, Bool, true, false, not, List, [], ◌∷◌, ◌++◌, text_eq, filterb,
  All, All-append, Bool-cases,
}
use muna_server.Heartbeat.{ModelDescriptor, is_process, process_first}

-- The response names the model of `d` once, with `d`.
abbrev pub NamesOnce : ModelDescriptor → List ModelDescriptor → Type 0
NamesOnce d [] = ⊥
NamesOnce d (x ∷ xs) =
    ((x ≡ d) × All (λ y. text_eq y.tag d.tag ≡ false) xs)
    ⊎ ((text_eq x.tag d.tag ≡ false) × NamesOnce d xs)

abbrev Others : ModelDescriptor → List ModelDescriptor → Type 0
Others d ds = All (λ y. text_eq y.tag d.tag ≡ false) ds

Others-filterb :
    (d : ModelDescriptor) (p : ModelDescriptor → Bool) (ds : List ModelDescriptor)
    → Others d ds
    → Others d (filterb p ds)
Others-filterb d p [] h = tt
Others-filterb d p (x ∷ xs) h = elim (Bool-cases (p x)) [
  | inl kept ↦ rw kept (h.0, Others-filterb d p xs h.1)
  | inr dropped ↦ rw dropped (Others-filterb d p xs h.1)
]

NamesOnce-kept :
    (d : ModelDescriptor) (p : ModelDescriptor → Bool) (ds : List ModelDescriptor)
    → p d ≡ true
    → NamesOnce d ds
    → NamesOnce d (filterb p ds)
NamesOnce-kept d p [] k h = absurd h
NamesOnce-kept d p (x ∷ xs) k (inl (e, others)) =
    rw (ap p e ∙ k) (inl (e, Others-filterb d p xs others))
NamesOnce-kept d p (x ∷ xs) k (inr (other, later)) = elim (Bool-cases (p x)) [
  | inl kept ↦ rw kept (inr (other, NamesOnce-kept d p xs k later))
  | inr dropped ↦ rw dropped (NamesOnce-kept d p xs k later)
]

NamesOnce-dropped :
    (d : ModelDescriptor) (p : ModelDescriptor → Bool) (ds : List ModelDescriptor)
    → p d ≡ false
    → NamesOnce d ds
    → Others d (filterb p ds)
NamesOnce-dropped d p [] k h = absurd h
NamesOnce-dropped d p (x ∷ xs) k (inl (e, others)) = rw (ap p e ∙ k) (Others-filterb d p xs others)
NamesOnce-dropped d p (x ∷ xs) k (inr (other, later)) = elim (Bool-cases (p x)) [
  | inl kept ↦ rw kept (other, NamesOnce-dropped d p xs k later)
  | inr dropped ↦ rw dropped (NamesOnce-dropped d p xs k later)
]

NamesOnce-left :
    (d : ModelDescriptor) (xs ys : List ModelDescriptor)
    → NamesOnce d xs
    → Others d ys
    → NamesOnce d (xs ++ ys)
NamesOnce-left d [] ys h k = absurd h
NamesOnce-left d (x ∷ xs) ys (inl (e, others)) k =
    inl (e, All-append (λ y. text_eq y.tag d.tag ≡ false) xs ys others k)
NamesOnce-left d (x ∷ xs) ys (inr (other, later)) k = inr (other, NamesOnce-left d xs ys later k)

NamesOnce-right :
    (d : ModelDescriptor) (xs ys : List ModelDescriptor)
    → Others d xs
    → NamesOnce d ys
    → NamesOnce d (xs ++ ys)
NamesOnce-right d [] ys h k = k
NamesOnce-right d (x ∷ xs) ys (other, h) k = inr (other, NamesOnce-right d xs ys h k)

pub process_first-NamesOnce :
    (d : ModelDescriptor) (ds : List ModelDescriptor)
    → NamesOnce d ds
    → NamesOnce d (process_first ds)
unfolding process_first
process_first-NamesOnce d ds h =
    let rest = filterb (λ x. not (is_process x)) ds in
    elim (Bool-cases (is_process d)) [
      | inl first ↦
          NamesOnce-left d (filterb is_process ds) rest (NamesOnce-kept d is_process ds first h)
            (NamesOnce-dropped d (λ x. not (is_process x)) ds (rw first refl) h)
      | inr later ↦
          NamesOnce-right d (filterb is_process ds) rest (NamesOnce-dropped d is_process ds later h)
            (NamesOnce-kept d (λ x. not (is_process x)) ds (rw later refl) h)
    ]
