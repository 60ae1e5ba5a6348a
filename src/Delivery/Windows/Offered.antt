-- ===== src/Delivery/Windows/Offered.antt =====
-- What `generateSlotWindowsForDate` offers, against the rules of `validateSlotAgainstOperatingRules`
-- (src/modules/delivery/delivery-slot.logic.ts).
use mathlib.Core.List.{Memᴰ}
use mathlib.Core.List.Memᴰ.{head, tail}
use mathlib.Core.Option.{some-injective}
use native.Mathlib.Nat.{add-mul-mod_self_right}
use vikram_backend.Prelude.{
  ℕ, ◌+◌, ◌-◌, ◌*◌, ◌%◌, ◌≤◌, ◌<◌, ◌≡◌, ◌⊎◌, ◌↔◌, refl, sym, ap, subst, ◌∙◌, min, max, Bool, true,
  false, ◌&&◌, ◌||◌, Option, none, some, List, [], ◌∷◌, ltb, leb, arith, Bool-cases, inl, inr,
}
use vikram_backend.Delivery.Windows.{
  HubHours, Operating, Window, GeneratedSlotWindow, resolve_effective_hours, is_delivery_holiday,
  intersect_window_with_hours, build_duration_slots, append_if, offer, offer_clipped, offer_all,
  generate_slot_windows_for_date, validate_slot_against_operating_rules,
}
use vikram_backend.Delivery.Windows.Grid.{window_at, build_duration_slots_iff}

mem-append_if :
    {A : Type 0} (o : Option A) (xs : List A) {x : A}
    → Memᴰ x (append_if o xs)
    → (o ≡ some x) ⊎ Memᴰ x xs
mem-append_if none xs m = inr m
mem-append_if (some y) xs (head e) = inl (ap some (sym e))
mem-append_if (some y) xs (tail m) = inr m

offer_clipped-some :
    (date : ℕ) (h : HubHours) (b : Bool) (now lead : ℕ) (o : Option Window)
    (g : GeneratedSlotWindow)
    → offer_clipped date h b now lead o ≡ some g
    → (c : Window) × (o ≡ some c) × (offer date h b now lead c ≡ some g)
offer_clipped-some date h b now lead none g e = cc
offer_clipped-some date h b now lead (some c) g e = (c, refl, e)

mem-offer_all :
    (date : ℕ) (h : HubHours) (b : Bool) (now lead d : ℕ) (ws : List Window)
    {g : GeneratedSlotWindow}
    → Memᴰ g (offer_all date h b now lead d ws)
    → (w : Window) × Memᴰ w ws
      × ((c : Window) × (intersect_window_with_hours w h d ≡ some c)
          × (offer date h b now lead c ≡ some g))
unfolding offer_all
mem-offer_all date h b now lead d [] m = elim m [ ]
mem-offer_all date h b now lead d (w ∷ ws) {g} m =
    elim (mem-append_if (offer_clipped date h b now lead (intersect_window_with_hours w h d))
      (offer_all date h b now lead d ws) m) [
        | inl e ↦ (
          w,
          head refl,
          offer_clipped-some date h b now lead (intersect_window_with_hours w h d) g e,
        )
        | inr i ↦ let (v, j, c) = mem-offer_all date h b now lead d ws i in (v, tail j, c)
      ]

-- A window of the grid is offered as it is.
intersect-window_at :
    (start d dur k : ℕ) (h : HubHours) (c : Window)
    → h.open_minutes ≤ start
    → start + k * d + d ≤ h.close_minutes
    → dur ≤ d
    → intersect_window_with_hours (window_at start d k) h dur ≡ some c
    → c ≡ window_at start d k
unfolding intersect_window_with_hours
intersect-window_at start d dur k h c a b l e =
    let x : max (start + k * d) h.open_minutes ≡ start + k * d = omega arith in
    let y : min (start + k * d + d) h.close_minutes ≡ start + k * d + d = omega arith in
    let p : ltb h.close_minutes h.open_minutes ≡ false = ground arith in
    let q : ltb (start + k * d + d) (start + k * d + dur) ≡ false = ground arith in
    let r : some (window_at start d k) ≡ some c = rw (p, x, y, q) at e in
    sym (some-injective (window_at start d k) c r)

-- What an offered window has of its clipped window.
record IsOffered (date : ℕ) (h : HubHours) (b : Bool) (now lead : ℕ) (c : Window)
    (g : GeneratedSlotWindow) : Type 0 where
  pub same_date : g.date ≡ date
  pub same_start : g.start_minutes ≡ c.start_minutes
  pub same_end : g.end_minutes ≡ c.end_minutes
  pub cutoff : g.cutoff_minutes ≡ max h.open_minutes (c.start_minutes - lead)
  pub today :
      b ≡ true
      → (now + lead < c.end_minutes) × ((now < g.cutoff_minutes) ⊎ (now + lead ≤ c.start_minutes))

late :
    (x y z : ℕ) (p : Bool) → (leb x y || (p && ltb z y)) ≡ false → (y < x) × ((p ≡ false) ⊎ (y ≤ z))
late x y z true e = (ground arith, inr (ground arith))
late x y z false e = (ground arith, inl refl)

none_not_some : {A : Type 0} {x : A} → Path (Option A) none (some x) → ⊥
none_not_some h = cc

abbrev offered : ℕ → HubHours → ℕ → Window → GeneratedSlotWindow
offered date h lead c = record {
  date = date;
  start_minutes = c.start_minutes;
  end_minutes = c.end_minutes;
  cutoff_minutes = max h.open_minutes (c.start_minutes - lead);
}

offer-IsOffered :
    (date : ℕ) (h : HubHours) (b : Bool) (now lead : ℕ) (c : Window) (g : GeneratedSlotWindow)
    → offer date h b now lead c ≡ some g
    → IsOffered date h b now lead c g
unfolding offer
offer-IsOffered date h true now lead c g e =
    let cutoff = max h.open_minutes (c.start_minutes - lead) in
    let test =
      leb c.end_minutes (now + lead) || (leb cutoff now && ltb c.start_minutes (now + lead)) in
    elim (Bool-cases test) [
      | inl t ↦ absurd (none_not_some (rw t at e))
      | inr t ↦
          let r : some (offered date h lead c) ≡ some g = rw t at e in
          let (x, y) = late c.end_minutes (now + lead) c.start_minutes (leb cutoff now) t in
          subst (λ (z : GeneratedSlotWindow). IsOffered date h true now lead c z)
            (some-injective (offered date h lead c) g r)
            (record {
              same_date = refl;
              same_start = refl;
              same_end = refl;
              cutoff = refl;
              today = λ _. (x, elim y [ inl p ↦ inl (ground arith) | inr q ↦ inr q ]);
            })
    ]
offer-IsOffered date h false now lead c g e =
    subst (λ (z : GeneratedSlotWindow). IsOffered date h false now lead c z)
      (some-injective (offered date h lead c) g e)
      (record {
        same_date = refl;
        same_start = refl;
        same_end = refl;
        cutoff = refl;
        today = λ f. cc;
      })

-- An offered window is clipped from a window of the grid, which it does not change.
record IsOnGrid (date : ℕ) (h : HubHours) (b : Bool) (now lead : ℕ) (o : Operating)
    (g : GeneratedSlotWindow) : Type 0 where
  pub index : ℕ
  pub working : is_delivery_holiday date o ≡ false
  pub fits :
      h.open_minutes + index * max 5 o.slot_duration_minutes + max 5 o.slot_duration_minutes
      ≤ h.close_minutes
  pub offered :
      IsOffered date h b now lead (window_at h.open_minutes (max 5 o.slot_duration_minutes) index) g

generate-IsOnGrid :
    (date : ℕ) (h : HubHours) (b : Bool) (now lead : ℕ) (o : Operating) (g : GeneratedSlotWindow)
    → 0 < o.slot_duration_minutes
    → Memᴰ g (generate_slot_windows_for_date date h b now lead o)
    → IsOnGrid date h b now lead o g
unfolding generate_slot_windows_for_date
generate-IsOnGrid date h b now lead o g pos m = elim (Bool-cases (is_delivery_holiday date o)) [
  | inl closed ↦ elim (rw closed at m) [ ]
  | inr working ↦
      let d = max 5 o.slot_duration_minutes in
      let positive : ltb 0 o.slot_duration_minutes ≡ true = ground arith in
      let (w, i, (c, clipped, taken)) =
        mem-offer_all date h b now lead o.slot_duration_minutes
          (build_duration_slots h o.slot_duration_minutes) (rw (working, positive) at m) in
      let (k, at_k, le) = (build_duration_slots_iff h o.slot_duration_minutes w).0 i in
      let fits : h.open_minutes + k * d + d ≤ h.close_minutes =
        subst (λ (x : Window). x.end_minutes ≤ h.close_minutes) at_k le in
      let same : c ≡ window_at h.open_minutes d k =
        intersect-window_at h.open_minutes d o.slot_duration_minutes k h c (omega arith) fits
          (omega arith)
          (subst (λ (x : Window). intersect_window_with_hours x h o.slot_duration_minutes ≡ some c)
            at_k clipped) in
      record {
        index = k;
        working = working;
        fits = fits;
        offered =
            subst (λ (x : Window). IsOffered date h b now lead x g) same
              (offer-IsOffered date h b now lead c g taken);
      }
]

-- Where the slots have a duration above 0, every window that is offered lies on a working day and within the hours of the hub, and its orders
-- close when it starts, at the latest, or at opening time. Of today's windows, none ends before an
-- order placed now can be there, and one that has started by then is offered only until its cutoff.
pub generate-IsInTime :
    (date : ℕ) (h : HubHours) (b : Bool) (now lead : ℕ) (o : Operating) (g : GeneratedSlotWindow)
    → 0 < o.slot_duration_minutes
    → Memᴰ g (generate_slot_windows_for_date date h b now lead o)
    → (is_delivery_holiday date o ≡ false)
      × (g.date ≡ date)
      × (h.open_minutes ≤ g.start_minutes)
      × (g.end_minutes ≤ h.close_minutes)
      × (g.cutoff_minutes ≤ g.start_minutes)
      × (b ≡ true
          → (now + lead < g.end_minutes)
            × ((now < g.cutoff_minutes) ⊎ (now + lead ≤ g.start_minutes)))
generate-IsInTime date h b now lead o g pos m =
    let r = generate-IsOnGrid date h b now lead o g pos m in
    let s : g.start_minutes ≡ h.open_minutes + r.index * max 5 o.slot_duration_minutes =
      r.offered.same_start in
    let e : g.end_minutes
        ≡ h.open_minutes + r.index * max 5 o.slot_duration_minutes + max 5 o.slot_duration_minutes =
      r.offered.same_end in
    let f = r.fits in
    let c = r.offered.cutoff in
    (
      r.working,
      r.offered.same_date,
      omega arith,
      omega arith,
      ground arith,
      λ t. ((rw (sym e) at (r.offered.today t).0), (rw (sym s) at (r.offered.today t).1)),
    )

holiday-validate :
    (date start stop : ℕ) (o : Operating)
    → is_delivery_holiday date o ≡ false
    → o.open_minutes ≤ start
    → stop ≤ o.close_minutes
    → start < stop
    → stop - start ≡ o.slot_duration_minutes
    → 0 < o.slot_duration_minutes
    → (validate_slot_against_operating_rules date start stop o ≡ none)
      ↔ ((start - o.open_minutes) % o.slot_duration_minutes ≡ 0)
unfolding validate_slot_against_operating_rules
holiday-validate date start stop o w a b c d p = ground arith

effective-within :
    (h : HubHours) (o : Operating)
    → (o.open_minutes ≤ (resolve_effective_hours h o).open_minutes)
      × ((resolve_effective_hours h o).close_minutes ≤ o.close_minutes)
unfolding resolve_effective_hours
effective-within h o = ground arith

-- With slots of five minutes at least, a window that is offered on the hours of a hub within the
-- operating hours passes the rules that the placing of an order checks exactly when the hub's opening
-- time is on the grid of the operating hours: a whole number of slots after their opening time. So
-- a hub that opens off the grid has every one of its windows refused.
pub generate-validate_iff :
    (date : ℕ) (hub : HubHours) (b : Bool) (now lead : ℕ) (o : Operating) (g : GeneratedSlotWindow)
    → 5 ≤ o.slot_duration_minutes
    → Memᴰ g (generate_slot_windows_for_date date (resolve_effective_hours hub o) b now lead o)
    → (validate_slot_against_operating_rules g.date g.start_minutes g.end_minutes o ≡ none) ↔ (
        ((resolve_effective_hours hub o).open_minutes - o.open_minutes) % o.slot_duration_minutes
        ≡ 0)
generate-validate_iff date hub b now lead o g five m =
    let h = resolve_effective_hours hub o in
    let d = o.slot_duration_minutes in
    let r = generate-IsOnGrid date h b now lead o g (omega arith) m in
    let dur : max 5 d ≡ d = omega arith in
    let s : g.start_minutes ≡ h.open_minutes + r.index * d =
      subst (λ (x : ℕ). g.start_minutes ≡ h.open_minutes + r.index * x) dur r.offered.same_start in
    let e : g.end_minutes ≡ h.open_minutes + r.index * d + d =
      subst (λ (x : ℕ). g.end_minutes ≡ h.open_minutes + r.index * x + x) dur r.offered.same_end in
    let f : h.open_minutes + r.index * d + d ≤ h.close_minutes =
      subst (λ (x : ℕ). h.open_minutes + r.index * x + x ≤ h.close_minutes) dur r.fits in
    let (inside, before) = effective-within hub o in
    let working : is_delivery_holiday g.date o ≡ false =
      subst (λ (x : ℕ). is_delivery_holiday x o ≡ false) (sym r.offered.same_date) r.working in
    let moved : g.start_minutes - o.open_minutes ≡ h.open_minutes - o.open_minutes + r.index * d =
      omega arith in
    let offset : (g.start_minutes - o.open_minutes) % d ≡ (h.open_minutes - o.open_minutes) % d =
      ap (λ (x : ℕ). x % d) moved
      ∙ add-mul-mod_self_right (h.open_minutes - o.open_minutes) r.index d in
    subst
      (λ (x : ℕ).
        (validate_slot_against_operating_rules g.date g.start_minutes g.end_minutes o ≡ none)
        ↔ (x ≡ 0))
      offset
      (holiday-validate g.date g.start_minutes g.end_minutes o working (omega arith) (omega arith)
        (omega arith) (omega arith) (omega arith))
