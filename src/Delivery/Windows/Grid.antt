-- ===== src/Delivery/Windows/Grid.antt =====
-- The windows of `buildDurationSlots` (src/modules/delivery/delivery-slot.logic.ts).
use mathlib.Core.List.{Memᴰ}
use mathlib.Core.List.Memᴰ.{head, tail}
use native.Mathlib.Nat.{add-mul, zero-mul}
use vikram_backend.Prelude.{
  ℕ, zero, suc, ◌+◌, ◌*◌, ◌≤◌, ◌<◌, ◌≡◌, ◌↔◌, sym, ap, subst, ◌∙◌, max, true, leb, arith,
  Bool-cases, inl, inr,
}
use vikram_backend.Delivery.Windows.{HubHours, Window, build_from, build_duration_slots}

abbrev pub window_from : ℕ → ℕ → Window
window_from d start = record { start_minutes = start; end_minutes = start + d }

-- Window number k of the grid that starts at `start`.
abbrev pub window_at : ℕ → ℕ → ℕ → Window
window_at start d k = window_from d (start + k * d)

window_at-suc : (start d k : ℕ) → window_at (start + d) d k ≡ window_at start d (suc k)
window_at-suc start d k =
    let e : start + d + k * d ≡ start + suc k * d = omega (arith, add-mul k 1 d) in
    ap (window_from d) e

build_from-mem :
    (fuel start d close : ℕ) {w : Window}
    → Memᴰ w (build_from fuel start d close)
    → (k : ℕ) × (w ≡ window_at start d k) × (w.end_minutes ≤ close)
unfolding build_from
build_from-mem zero start d close m = elim m [ ]
build_from-mem (suc n) start d close {w} m = elim (Bool-cases (leb (start + d) close)) [
  | inr b ↦ elim (rw (b, build_from) at m) [ ]
  | inl b ↦
      let first : window_from d start ≡ window_at start d 0 =
        ap (window_from d) (omega (arith, zero-mul d)) in
      elim (rw (b, build_from) at m) [
        | head e ↦
            (0, e ∙ first, subst (λ (x : Window). x.end_minutes ≤ close) (sym e) (ground arith))
        | tail i ↦
            let (k, e, le) = build_from-mem n (start + d) d close i in
            (suc k, e ∙ window_at-suc start d k, le)
      ]
]

build_from-of :
    (fuel start d close k : ℕ)
    → 0 < d
    → start + k * d + d ≤ close
    → close < start + fuel
    → Memᴰ (window_at start d k) (build_from fuel start d close)
unfolding build_from
build_from-of zero start d close k p h f = absurd (omega arith)
build_from-of (suc n) start d close zero p h f =
    let first : start + 0 * d ≡ start = omega (arith, zero-mul d) in
    let fits : leb (start + d) close ≡ true = ground (arith, zero-mul d) in
    rw (fits, build_from) (head (ap (window_from d) first))
build_from-of (suc n) start d close (suc k) p h f =
    let step : suc k * d ≡ k * d + d = omega (arith, add-mul k 1 d) in
    let fits : leb (start + d) close ≡ true = ground arith in
    rw (fits, build_from)
      (tail (
        subst (λ (x : Window). Memᴰ x (build_from n (start + d) d close)) (window_at-suc start d k)
          (build_from-of n (start + d) d close k p (omega arith) (omega arith))))

-- The windows of a day are those of the grid from opening time on, of the duration asked for but of
-- five minutes at least, that end by closing time: all of them, and no others.
pub build_duration_slots_iff :
    (h : HubHours) (duration : ℕ) (w : Window)
    → Memᴰ w (build_duration_slots h duration) ↔ (
        (k : ℕ) × (w ≡ window_at h.open_minutes (max 5 duration) k)
        × (w.end_minutes ≤ h.close_minutes))
unfolding build_duration_slots
build_duration_slots_iff h duration w = (
  build_from-mem (suc h.close_minutes) h.open_minutes (max 5 duration) h.close_minutes,
  λ (k, e, le).
      subst
        (λ (x : Window).
          Memᴰ x (build_from (suc h.close_minutes) h.open_minutes (max 5 duration) h.close_minutes))
        (sym e)
        (build_from-of (suc h.close_minutes) h.open_minutes (max 5 duration) h.close_minutes k
          (ground arith) (subst (λ (x : Window). x.end_minutes ≤ h.close_minutes) e le)
          (omega arith)),
)
