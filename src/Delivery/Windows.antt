-- ===== src/Delivery/Windows.antt =====
-- The delivery windows that a checkout offers, and the rules that a chosen window is checked against
-- (src/modules/delivery/delivery-slot.logic.ts). Times of the day are minutes from midnight. A date is
-- the number of days since 1 January 1970 in place of its key YYYY-MM-DD, so that the days of the
-- calendar follow each other by + 1. Labels are left out.
mod Grid
pub mod Offered
pub mod Dates
mod Tests
use vikram_backend.Prelude.{
  ℕ, zero, suc, ◌+◌, ◌-◌, ◌%◌, min, max, Bool, true, false, not, ◌&&◌, ◌||◌, Option, none, some,
  List, [], ◌∷◌, ltb, leb, ◌==◌, if◌then◌else◌,
}

pub record HubHours : Type 0 where
  pub open_minutes : ℕ
  pub close_minutes : ℕ

-- DeliveryOperatingConfigValues.
pub record Operating : Type 0 where
  pub open_minutes : ℕ
  pub close_minutes : ℕ
  pub slot_duration_minutes : ℕ
  pub working_weekdays : List ℕ
  pub holiday_dates : List ℕ

pub record Window : Type 0 where
  pub start_minutes : ℕ
  pub end_minutes : ℕ

pub record GeneratedSlotWindow : Type 0 where
  pub date : ℕ
  pub start_minutes : ℕ
  pub end_minutes : ℕ
  pub cutoff_minutes : ℕ

-- DEFAULT_DELIVERY_OPERATING_CONFIG: Monday to Saturday, 11:00 to 16:30.
abbrev pub default_operating : Operating
default_operating = record {
  open_minutes = 660;
  close_minutes = 990;
  slot_duration_minutes = 30;
  working_weekdays = 1 ∷ 2 ∷ 3 ∷ 4 ∷ 5 ∷ 6 ∷ [];
  holiday_dates = [];
}

-- DEFAULT_SLOT_WINDOWS.
abbrev pub default_slot_windows : List Window
default_slot_windows = record { start_minutes = 660; end_minutes = 990 } ∷ []

-- `includes`.
abbrev pub includes : ℕ → List ℕ → Bool
includes n [] = false
includes n (m ∷ ms) = m == n || includes n ms

-- `addDateKeyDays`.
abbrev pub add_days : ℕ → ℕ → ℕ
add_days date days = date + days

-- `isoWeekdayFromDateKey`: 1 January 1970 was a Thursday, 4.
abbrev pub iso_weekday : ℕ → ℕ
iso_weekday date = (date + 3) % 7 + 1

-- `resolveHubHours`, of hours that may be missing.
unfoldable pub resolve_hub_hours : Option HubHours → HubHours
resolve_hub_hours none = record { open_minutes = 660; close_minutes = 990 }
resolve_hub_hours (some h) =
    if not (h.close_minutes == h.open_minutes)
    then h
    else record { open_minutes = 660; close_minutes = 990 }

-- `resolveEffectiveHours`.
unfoldable pub resolve_effective_hours : HubHours → Operating → HubHours
resolve_effective_hours h o =
    let open_minutes = max h.open_minutes o.open_minutes in
    let close_minutes = min h.close_minutes o.close_minutes in
    if leb close_minutes open_minutes
    then record { open_minutes = o.open_minutes; close_minutes = o.close_minutes }
    else record { open_minutes = open_minutes; close_minutes = close_minutes }

-- `isHubOpenAt`.
unfoldable pub is_hub_open_at : HubHours → ℕ → Bool
is_hub_open_at h now =
    if ltb h.close_minutes h.open_minutes
    then leb h.open_minutes now || leb now h.close_minutes
    else leb h.open_minutes now && leb now h.close_minutes

-- `remainingMinutesUntilClose`.
unfoldable pub remaining_minutes_until_close : HubHours → ℕ → ℕ
remaining_minutes_until_close h now =
    if ltb h.close_minutes h.open_minutes
    then (if leb now h.close_minutes then h.close_minutes - now else 1440 - now + h.close_minutes)
    else h.close_minutes - now

-- `resolveLeadMinutes`; RMC_MIN_LEAD_MINUTES is 90.
abbrev pub resolve_lead_minutes : Bool → ℕ → ℕ
resolve_lead_minutes true eta = max 90 eta
resolve_lead_minutes false eta = eta

-- `resolveSlotCapacity`; RMC_SLOT_CAPACITY is 2 and DEFAULT_SLOT_CAPACITY 8.
abbrev pub resolve_slot_capacity : Bool → Option ℕ → ℕ
resolve_slot_capacity is_rmc none = if is_rmc then 2 else 8
resolve_slot_capacity is_rmc (some zero) = if is_rmc then 2 else 8
resolve_slot_capacity is_rmc (some (suc n)) = suc n

-- `isDeliveryHoliday`.
unfoldable pub is_delivery_holiday : ℕ → Operating → Bool
is_delivery_holiday date o =
    if includes date o.holiday_dates
    then true
    else not (includes (iso_weekday date) o.working_weekdays)

-- The loop of `nextAvailableDeliveryDate`, n days more.
unfoldable pub next_available_from : ℕ → ℕ → Operating → Option ℕ
next_available_from zero date o = none
next_available_from (suc n) date o =
    let rest = next_available_from n (add_days date 1) o in
    if not (is_delivery_holiday date o) then some date else rest

-- `nextAvailableDeliveryDate`.
unfoldable pub next_available_delivery_date : ℕ → Operating → ℕ → Option ℕ
next_available_delivery_date date o max_lookahead = next_available_from (suc max_lookahead) date o

-- `intersectWindowWithHours`.
unfoldable pub intersect_window_with_hours : Window → HubHours → ℕ → Option Window
intersect_window_with_hours w h min_duration =
    let start = max w.start_minutes h.open_minutes in
    let stop = min w.end_minutes h.close_minutes in
    if ltb h.close_minutes h.open_minutes
    then some w
    else if ltb stop (start + min_duration)
    then none
    else some (record { start_minutes = start; end_minutes = stop })

-- The loop of `buildDurationSlots` from a start, on fuel.
unfoldable pub build_from : ℕ → ℕ → ℕ → ℕ → List Window
build_from zero start duration close = []
build_from (suc fuel) start duration close = elim (leb (start + duration) close) [
  | true ↦
      record { start_minutes = start; end_minutes = start + duration }
      ∷ build_from fuel (start + duration) duration close
  | false ↦ []
]

-- `buildDurationSlots`; each turn takes a minute at least off what is left until closing.
unfoldable pub build_duration_slots : HubHours → ℕ → List Window
build_duration_slots h slot_duration =
    build_from (suc h.close_minutes) h.open_minutes (max 5 slot_duration) h.close_minutes

abbrev pub append_if {ℓ} : {A : Type ℓ} → Option A → List A → List A
append_if none xs = xs
append_if (some x) xs = x ∷ xs

-- What `generateSlotWindowsForDate` offers of a clipped window: today only what can be reached.
unfoldable pub offer : ℕ → HubHours → Bool → ℕ → ℕ → Window → Option GeneratedSlotWindow
offer date h is_today now lead w =
    let cutoff = max h.open_minutes (w.start_minutes - lead) in
    if is_today
      && (leb w.end_minutes (now + lead) || (leb cutoff now && ltb w.start_minutes (now + lead)))
    then none
    else some (record {
      date = date;
      start_minutes = w.start_minutes;
      end_minutes = w.end_minutes;
      cutoff_minutes = cutoff;
    })

abbrev pub offer_clipped : ℕ → HubHours → Bool → ℕ → ℕ → Option Window → Option GeneratedSlotWindow
offer_clipped date h is_today now lead none = none
offer_clipped date h is_today now lead (some w) = offer date h is_today now lead w

-- The loop over the candidate windows.
unfoldable pub offer_all : ℕ → HubHours → Bool → ℕ → ℕ → ℕ → List Window → List GeneratedSlotWindow
offer_all date h is_today now lead duration [] = []
offer_all date h is_today now lead duration (w ∷ ws) =
    append_if (offer_clipped date h is_today now lead (intersect_window_with_hours w h duration))
      (offer_all date h is_today now lead duration ws)

-- `generateSlotWindowsForDate`, with the duration of the configuration.
unfoldable pub generate_slot_windows_for_date :
    ℕ → HubHours → Bool → ℕ → ℕ → Operating → List GeneratedSlotWindow
generate_slot_windows_for_date date h is_today now lead o =
    let duration = o.slot_duration_minutes in
    if is_delivery_holiday date o
    then []
    else offer_all date h is_today now lead duration
        (if ltb 0 duration then build_duration_slots h duration else default_slot_windows)

-- A day of the schedule, with its weekday of the calendar.
pub record ScheduledDay : Type 0 where
  pub date : ℕ
  pub slots : List GeneratedSlotWindow
  pub is_holiday : Bool
  pub weekday : ℕ

-- The loop of `generateScheduleWindows` over the days of the horizon.
unfoldable pub schedule_from : ℕ → ℕ → Bool → ℕ → HubHours → ℕ → Operating → List ScheduledDay
schedule_from zero date is_today now h lead o = []
schedule_from (suc days) date is_today now h lead o =
    record {
      date = date;
      slots = generate_slot_windows_for_date date h is_today now lead o;
      is_holiday = is_delivery_holiday date o;
      weekday = iso_weekday date;
    }
    ∷ schedule_from days (add_days date 1) false now h lead o

pub record ScheduleWindows : Type 0 where
  pub today : List GeneratedSlotWindow
  pub tomorrow : List GeneratedSlotWindow
  pub scheduled : List ScheduledDay

-- `generateScheduleWindows`; SCHEDULE_HORIZON_DAYS is 14.
unfoldable pub generate_schedule_windows : ℕ → ℕ → HubHours → ℕ → Operating → ScheduleWindows
generate_schedule_windows today now h lead o = record {
  today = generate_slot_windows_for_date today h true now lead o;
  tomorrow = generate_slot_windows_for_date (add_days today 1) h false now lead o;
  scheduled = schedule_from 14 today true now h lead o;
}

pub data RuleError : Type 0 where
  delivery_slot_unavailable : RuleError

-- `validateSlotAgainstOperatingRules`; `offset < 0` is excluded by the test before.
unfoldable pub validate_slot_against_operating_rules : ℕ → ℕ → ℕ → Operating → Option RuleError
validate_slot_against_operating_rules date start stop o =
    let duration = o.slot_duration_minutes in
    if is_delivery_holiday date o
    then some delivery_slot_unavailable
    else if ltb start o.open_minutes || ltb o.close_minutes stop || leb stop start
    then some delivery_slot_unavailable
    else if ltb 0 duration
        && (not (stop - start == duration) || not ((start - o.open_minutes) % duration == 0))
    then some delivery_slot_unavailable
    else none
