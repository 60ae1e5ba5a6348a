-- ===== src/Delivery/Windows/Tests.antt =====
-- Windows of a Monday (day 20416 is 24 November 2025).
use mathlib.Core.List.{Memᴰ}
use mathlib.Core.List.Memᴰ.{head}
use vikram_backend.Prelude.{
  ℕ, ◌+◌, ◌-◌, ◌%◌, ◌≤◌, ◌<◌, ◌≡◌, ◌⊎◌, ◌↔◌, refl, true, false, none, some, [], ◌∷◌, arith,
}
use vikram_backend.Delivery.Windows.{
  HubHours, Operating, GeneratedSlotWindow, default_operating, resolve_effective_hours,
  is_delivery_holiday, intersect_window_with_hours, build_from, build_duration_slots, offer,
  offer_all, generate_slot_windows_for_date, validate_slot_against_operating_rules,
  next_available_from, next_available_delivery_date,
}
use vikram_backend.Delivery.Windows.Grid.{window_at, build_duration_slots_iff}
use vikram_backend.Delivery.Windows.Offered.{generate-IsInTime, generate-validate_iff}

abbrev monday : ℕ
monday = 20416

-- Deliveries in the first quarter of an hour of a day, in slots of five minutes, and a hub that opens
-- three minutes after their start.
abbrev early : Operating
early = record default_operating { open_minutes = 0; close_minutes = 14; slot_duration_minutes = 5 }

abbrev hub : HubHours
hub = record { open_minutes = 3; close_minutes = 20 }

abbrev hours : HubHours
hours = record { open_minutes = 3; close_minutes = 14 }

abbrev first_window : GeneratedSlotWindow
first_window = record { date = monday; start_minutes = 3; end_minutes = 8; cutoff_minutes = 3 }

abbrev second_window : GeneratedSlotWindow
second_window = record { date = monday; start_minutes = 8; end_minutes = 13; cutoff_minutes = 6 }

next_is_tuesday :
    next_available_delivery_date monday (record default_operating { holiday_dates = monday ∷ [] }) 3
    ≡ some 20417
unfolding next_available_delivery_date next_available_from is_delivery_holiday
next_is_tuesday = refl

build_duration_slots_iff_example :
    Memᴰ
      (window_at 675 30 1)
      (build_duration_slots (record { open_minutes = 675; close_minutes = 750 }) 30)
    ↔ ((k : ℕ) × (window_at 675 30 1 ≡ window_at 675 30 k) × (735 ≤ 750))
build_duration_slots_iff_example =
    build_duration_slots_iff (record { open_minutes = 675; close_minutes = 750 }) 30
      (window_at 675 30 1)

generate-validate_iff_example :
    (validate_slot_against_operating_rules monday 3 8 early ≡ none)
    ↔ (((resolve_effective_hours hub early).open_minutes - 0) % 5 ≡ 0)
unfolding generate_slot_windows_for_date is_delivery_holiday resolve_effective_hours
    build_duration_slots build_from offer_all intersect_window_with_hours offer
generate-validate_iff_example =
    generate-validate_iff monday hub false 0 2 early first_window (omega arith) (head refl)

first_window_refused : validate_slot_against_operating_rules monday 3 8 early ≡ none → ⊥
unfolding validate_slot_against_operating_rules is_delivery_holiday
first_window_refused h = cc

generate-IsInTime_example :
    (is_delivery_holiday monday early ≡ false)
    × (monday ≡ monday)
    × (3 ≤ 8)
    × (13 ≤ 14)
    × (6 ≤ 8)
    × (true ≡ true → (4 + 2 < 13) × ((4 < 6) ⊎ (4 + 2 ≤ 8)))
unfolding generate_slot_windows_for_date is_delivery_holiday build_duration_slots build_from
    offer_all intersect_window_with_hours offer
generate-IsInTime_example =
    generate-IsInTime monday hours true 4 2 early second_window (omega arith) (head refl)
