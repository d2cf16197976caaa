-- ===== src/Lease.antt =====
-- src/serving/lease.rs: the supervisor of the device leases. A mapped segment is known by a number;
-- `memory` gives what each segment holds. What `attach` finds for a device, by calls of the operating
-- system, is a parameter. The key of a device in the map of attachments is the list of its number.
pub mod Weights
use muna_server.Base.{
  ℕ, zero, suc, ◌+◌, Bool, true, false, not, Option, none, some, List, [], ◌∷◌, ◌++◌, map, Text,
  text_eq, Map, get, insert, remove, ◌==◌, ◌||◌, ◌&&◌, if◌then◌else◌,
}

abbrev pub max_devices : ℕ
max_devices = 16

pub data LeaseMode : Type 0 where
  fair free_run : LeaseMode

-- One slot; a `pid` of 0 marks it free.
pub record Registrant : Type 0 where
  pub pid : ℕ
  pub weight : ℕ
  pub slots_held : ℕ
  pub ns_held : ℕ
  pub ns_waited : ℕ
  pub yields : ℕ
  pub label : Text

pub record LeaseSegment : Type 0 where
  pub mode : LeaseMode
  pub registrants : List Registrant

pub record RegistrantStats : Type 0 where
  pub device : ℕ
  pub label : Text
  pub weight : ℕ
  pub slots_held : ℕ
  pub ns_held : ℕ
  pub ns_waited : ℕ
  pub yields : ℕ

pub data AttachOutcome : Type 0 where
  attached_to : (segment : ℕ) → AttachOutcome
  rejected_segment absent_segment : AttachOutcome

abbrev pub Segments : Type 0
Segments = Map (Option ℕ)

unfoldable pub is_live : Registrant → Bool
is_live slot = not (slot.pid == 0)

unfoldable pub any_live : List Registrant → Bool
unfolding is_live
any_live [] = false
any_live (slot ∷ slots) = is_live slot || any_live slots

abbrev pub record_outcome : Segments → ℕ → AttachOutcome → Segments × Option ℕ
record_outcome segments device (attached_to id) = (insert segments (device ∷ []) (some id), some id)
record_outcome segments device rejected_segment = (insert segments (device ∷ []) none, none)
record_outcome segments device absent_segment = (segments, none)

abbrev pub attached_entry :
    (ℕ → LeaseSegment)
    → (ℕ → AttachOutcome)
    → Segments
    → ℕ
    → Option (Option ℕ)
    → Segments × Option ℕ
attached_entry memory attach segments device none = record_outcome segments device (attach device)
attached_entry memory attach segments device (some none) = (segments, none)
attached_entry memory attach segments device (some (some id)) =
    if any_live (memory id).registrants
    then (segments, some id)
    else record_outcome (remove segments (device ∷ [])) device (attach device)

-- `attached`
unfoldable pub attached :
    (ℕ → LeaseSegment) → (ℕ → AttachOutcome) → Segments → ℕ → Segments × Option ℕ
unfolding any_live
attached memory attach segments device =
    attached_entry memory attach segments device (get segments (device ∷ []))

-- The loop of `set_weight_on`. Storing a weight that is there already changes nothing.
unfoldable pub set_weights : Text → ℕ → List Registrant → List Registrant
unfolding is_live
set_weights label weight [] = []
set_weights label weight (slot ∷ slots) =
    (if is_live slot && text_eq slot.label label then record slot { weight = weight } else slot)
    ∷ set_weights label weight slots

abbrev pub write_segment : (ℕ → LeaseSegment) → ℕ → LeaseSegment → ℕ → LeaseSegment
write_segment memory id segment i = if i == id then segment else memory i

unfoldable pub set_weight_on :
    (ℕ → LeaseSegment)
    → (ℕ → AttachOutcome)
    → Segments
    → ℕ
    → Text
    → ℕ
    → Segments × (ℕ → LeaseSegment)
unfolding attached set_weights
set_weight_on memory attach segments device label weight =
    let (segments2, found) = attached memory attach segments device in
    (
      segments2,
      elim found [
        | none ↦ memory
        | some id ↦
            write_segment memory id (record (memory id) {
              registrants = set_weights label weight (memory id).registrants;
            })
      ],
    )

abbrev pub stats_of : ℕ → Registrant → RegistrantStats
stats_of device slot = record {
  device = device;
  label = slot.label;
  weight = slot.weight;
  slots_held = slot.slots_held;
  ns_held = slot.ns_held;
  ns_waited = slot.ns_waited;
  yields = slot.yields;
}

-- The loop of `stats` over the slots of one segment.
unfoldable pub slot_stats : ℕ → List Registrant → List RegistrantStats
unfolding is_live
slot_stats device [] = []
slot_stats device (slot ∷ slots) =
    let rest = slot_stats device slots in if is_live slot then stats_of device slot ∷ rest else rest

abbrev pub found_stats : (ℕ → LeaseSegment) → ℕ → Option ℕ → List RegistrantStats
found_stats memory device none = []
found_stats memory device (some id) = slot_stats device (memory id).registrants

-- The loop of `stats` over the devices `device`, `device + 1`, .., `left` of them.
unfoldable pub stats_from :
    (ℕ → LeaseSegment) → (ℕ → AttachOutcome) → Segments → ℕ → ℕ → Segments × List RegistrantStats
unfolding attached slot_stats
stats_from memory attach segments device zero = (segments, [])
stats_from memory attach segments device (suc left) =
    let (segments2, found) = attached memory attach segments device in
    let (segments3, rest) = stats_from memory attach segments2 (suc device) left in
    (segments3, found_stats memory device found ++ rest)

unfoldable pub stats :
    (ℕ → LeaseSegment) → (ℕ → AttachOutcome) → Segments → Segments × List RegistrantStats
unfolding stats_from
stats memory attach segments = stats_from memory attach segments 0 max_devices
