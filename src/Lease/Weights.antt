-- ===== src/Lease/Weights.antt =====
-- Proofs about the lease supervisor (src/serving/lease.rs).
use muna_server.Base.{
  ℕ, suc, ◌≡◌, refl, ap, ◌∙◌, inl, inr, Bool, true, not, Option, none, some, List, [], ◌∷◌, Text,
  text_eq, text_eq_iff, get, remove, get-insert_self, filterb, All, length, arith, Bool-cases,
}
use muna_server.Lease.{
  Registrant, LeaseSegment, RegistrantStats, AttachOutcome, attached_to, rejected_segment,
  absent_segment, Segments, is_live, any_live, record_outcome, attached_entry, attached,
  set_weights, stats_of, slot_stats,
}

abbrev pub other_label : Text → RegistrantStats → Bool
other_label label s = not (text_eq s.label label)

is_live-weight :
    (slot : Registrant) (weight : ℕ) → is_live (record slot { weight = weight }) ≡ is_live slot
unfolding is_live
is_live-weight slot weight = refl

-- After the weight of a label is set, every live slot of the label reports the weight, the slots of
-- other labels report what they did, and as many slots as before report.
pub set_weights-slot_stats :
    (device : ℕ) (label : Text) (weight : ℕ) (slots : List Registrant)
    → All
        (λ s. s.label ≡ label → s.weight ≡ weight)
        (slot_stats device (set_weights label weight slots))
      × (filterb (other_label label) (slot_stats device (set_weights label weight slots))
          ≡ filterb (other_label label) (slot_stats device slots))
      × (length (slot_stats device (set_weights label weight slots))
          ≡ length (slot_stats device slots))
unfolding slot_stats set_weights
set_weights-slot_stats device label weight [] = (tt, refl, refl)
set_weights-slot_stats device label weight (slot ∷ slots) =
    let (a, b, c) = set_weights-slot_stats device label weight slots in
    elim (Bool-cases (is_live slot)) [
      | inr free ↦ rw (free, free) (a, b, c)
      | inl live ↦ elim (Bool-cases (text_eq slot.label label)) [
        | inl same ↦
            rw (live, same, is_live-weight slot weight, live, same) ((λ e. refl, a), b, ap suc c)
        | inr other_ ↦
            rw (live, other_, live, other_)
              (
                (λ e. absurd (ground (arith, text_eq_iff slot.label label)), a),
                ap (λ r. stats_of device slot ∷ r) b,
                ap suc c,
              )
      ]
    ]

record_outcome-get :
    (segments : Segments) (device id : ℕ) (o : AttachOutcome)
    → (record_outcome segments device o).1 ≡ some id
    → get (record_outcome segments device o).0 (device ∷ []) ≡ some (some id)
record_outcome-get segments device id (attached_to i) h =
    get-insert_self segments (device ∷ []) (some i) ∙ ap some h
record_outcome-get segments device id rejected_segment h = cc
record_outcome-get segments device id absent_segment h = cc

attached_entry-get :
    (memory : ℕ → LeaseSegment) (attach : ℕ → AttachOutcome) (segments : Segments) (device id : ℕ)
    (o : Option (Option ℕ))
    → get segments (device ∷ []) ≡ o
    → (attached_entry memory attach segments device o).1 ≡ some id
    → get (attached_entry memory attach segments device o).0 (device ∷ []) ≡ some (some id)
attached_entry-get memory attach segments device id none e h =
    record_outcome-get segments device id (attach device) h
attached_entry-get memory attach segments device id (some none) e h = cc
attached_entry-get memory attach segments device id (some (some i)) e h =
    elim (Bool-cases (any_live (memory i).registrants)) [
      | inl live ↦ let h2 : some i ≡ some id = rw live at h in rw live (e ∙ ap some h2)
      | inr dead ↦ rw dead (
          record_outcome-get (remove segments (device ∷ [])) device id (attach device)
            (rw dead at h))
    ]

-- An attachment lasts while an engine holds a slot of it: when `attached` has returned a segment and
-- some slot of it is taken at the next call, that call returns the same segment and leaves the
-- attachments alone, whatever a new probe would find.
pub attached-twice :
    (memory later : ℕ → LeaseSegment) (attach again : ℕ → AttachOutcome) (segments : Segments)
    (device id : ℕ)
    → (attached memory attach segments device).1 ≡ some id
    → any_live (later id).registrants ≡ true
    → attached later again (attached memory attach segments device).0 device
      ≡ ((attached memory attach segments device).0, some id)
unfolding attached
attached-twice memory later attach again segments device id h live =
    rw
      (
        attached_entry-get memory attach segments device id (get segments (device ∷ [])) refl h,
        live,
      )
      refl
