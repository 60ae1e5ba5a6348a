-- ===== src/Coverage/Reasons.antt =====
-- Why an order is assigned to a hub, or is not (src/modules/coverage/hub-routing.logic.ts).
use Prim.Native.Nat.{Ordering}
use Prim.Native.String.{String}
use mathlib.Core.List.{Memᴰ}
use vikram_backend.Prelude.{
  ℕ, ◌≡◌, ◌↔◌, refl, subst, Bool, true, false, none, some, List, [], ◌∷◌, arith, Bool-cases,
  Option-cases, inl, inr, find?, find?-holds, is_some,
}
use vikram_backend.Prelude.Int.{ℤ}
use vikram_backend.Prelude.Sorting.{mem-find?, mem-sort_by_of, find?-of_mem}
use vikram_backend.Coverage.Geo.{Coordinate, is_valid_coordinates}
use vikram_backend.Coverage.Routing.{
  assigned, inventory_unavailable, StockItem, Candidate, HubMatch, is_routable, is_covered,
  evaluate, compare_matches, routable_matches, reason_of, has_none, evaluate_hub_routing,
}
use vikram_backend.Coverage.Nearest.{
  Serves, served, served-Serves, Serves-served, mem-matches, matches-mem,
}

mem-has_none : {A : Type 0} (xs : List A) {x : A} → Memᴰ x xs → has_none xs ≡ false
mem-has_none [] m = elim m [ ]
mem-has_none (x ∷ xs) m = refl

abbrev covering : HubMatch → Bool
covering m = m.in_coverage

module _ (haversine : ℤ → ℤ → ℤ → ℤ → ℕ) (locale_compare : String → String → Ordering) where
  reason-assigned :
      (lat lng : Coordinate) (hubs : List Candidate) (ms : List HubMatch)
      → reason_of lat lng hubs ms ≡ assigned
      → is_some (find? served ms) ≡ true
  reason-assigned lat lng hubs ms e = ground arith

  reason-inventory :
      (lat lng : Coordinate) (hubs : List Candidate) (ms : List HubMatch)
      → reason_of lat lng hubs ms ≡ inventory_unavailable
      → (is_some (find? served ms) ≡ false) × (is_some (find? covering ms) ≡ true)
  reason-inventory lat lng hubs ms e = ground arith

  in_order :
      (lat lng : Coordinate) (items : List StockItem) (hubs : List Candidate) (h : Candidate)
      → Memᴰ h hubs
      → is_routable h ≡ true
      → Memᴰ
          (evaluate haversine locale_compare lat lng items h)
          (routable_matches haversine locale_compare lat lng hubs items)
  in_order lat lng items hubs h i r =
      mem-sort_by_of (compare_matches haversine locale_compare) _
        (matches-mem haversine locale_compare lat lng items hubs h i r)

  inventory-of :
      (lat lng : Coordinate) (hubs : List Candidate) (ms : List HubMatch)
      → is_some (find? served ms) ≡ false
      → is_valid_coordinates lat lng ≡ true
      → has_none hubs ≡ false
      → has_none ms ≡ false
      → is_some (find? covering ms) ≡ true
      → reason_of lat lng hubs ms ≡ inventory_unavailable
  inventory-of none lng hubs ms a b c d e = absurd (cc)
  inventory-of (some lat) lng hubs ms a b c d e = ground arith

  clash : {b : Bool} → b ≡ true → b ≡ false → ⊥
  clash h k = cc

  routable_of :
      (lat lng : Coordinate) (h : Candidate)
      → is_covered haversine locale_compare lat lng h ≡ true
      → is_routable h ≡ true
  routable_of lat lng h c = ground arith

  valid_of :
      (lat lng : Coordinate) (h : Candidate)
      → is_covered haversine locale_compare lat lng h ≡ true
      → is_valid_coordinates lat lng ≡ true
  valid_of lat lng h c = ground arith

  found_of :
      {A : Type 0} (p : A → Bool) (xs : List A)
      → is_some (find? p xs) ≡ true
      → (x : A) × (find? p xs ≡ some x)
  found_of p xs h = elim (Option-cases (find? p xs)) [ inl e ↦ absurd (ground arith) | inr e ↦ e ]

  -- The routing says ASSIGNED exactly when some hub serves the order, and says INVENTORY_UNAVAILABLE
  -- exactly when none does although the customer is within the radius of some hub.
  pub reason_iff :
      (lat lng : Coordinate) (items : List StockItem) (hubs : List Candidate)
      → let reason = (evaluate_hub_routing haversine locale_compare lat lng hubs items).reason in
        ((reason ≡ assigned)
          ↔ ((h : Candidate) × Memᴰ h hubs × Serves haversine locale_compare lat lng items h))
        × ((reason ≡ inventory_unavailable) ↔ (
            ¬ ((h : Candidate) × Memᴰ h hubs × Serves haversine locale_compare lat lng items h)
            × ((h : Candidate) × Memᴰ h hubs
                × (is_covered haversine locale_compare lat lng h ≡ true))))
  unfolding evaluate_hub_routing
  reason_iff lat lng items hubs =
      let ms = routable_matches haversine locale_compare lat lng hubs items in
      let server : is_some (find? served ms) ≡ true
          → (h : Candidate) × Memᴰ h hubs × Serves haversine locale_compare lat lng items h =
        λ e.
          let (m, found) = found_of served ms e in
          let (h, i, same) =
            mem-matches haversine locale_compare lat lng items hubs (mem-find? served ms found) in
          (
            h,
            i,
            served-Serves haversine locale_compare lat lng items h
                (subst (λ (x : HubMatch). served x ≡ true) same (find?-holds served ms found)),
          ) in
      let serving : ((h : Candidate) × Memᴰ h hubs
            × Serves haversine locale_compare lat lng items h)
          → is_some (find? served ms) ≡ true =
        λ (h, i, s).
          let (m, found) =
            find?-of_mem served ms (in_order lat lng items hubs h i s.routable)
              (Serves-served haversine locale_compare lat lng items h s) in
          rw found refl in
      let coverer : is_some (find? covering ms) ≡ true
          → (h : Candidate) × Memᴰ h hubs × (is_covered haversine locale_compare lat lng h ≡ true) =
        λ e.
          let (m, found) = found_of covering ms e in
          let (h, i, same) =
            mem-matches haversine locale_compare lat lng items hubs (mem-find? covering ms found) in
          (
            h,
            i,
            subst (λ (x : HubMatch). x.in_coverage ≡ true) same (find?-holds covering ms found),
          ) in
      let unserved : ¬ (
            (h : Candidate) × Memᴰ h hubs × Serves haversine locale_compare lat lng items h)
          → is_some (find? served ms) ≡ false =
        λ n. elim (Bool-cases (is_some (find? served ms))) [
          | inl e ↦ absurd (n (server e))
          | inr e ↦ e
        ] in
      (
        ((λ e. server (reason-assigned lat lng hubs ms e)), (λ s. rw (serving s) refl)),
        (
          (λ e.
              let (a, b) = reason-inventory lat lng hubs ms e in
              ((λ s. absurd (clash (serving s) a)), coverer b)),
          (λ (n, (h, i, c)).
              let m = in_order lat lng items hubs h i (routable_of lat lng h c) in
              inventory-of lat lng hubs ms (unserved n) (valid_of lat lng h c) (mem-has_none hubs i)
                (mem-has_none ms m) (rw ((find?-of_mem covering ms m c).1) refl)),
        ),
      )
