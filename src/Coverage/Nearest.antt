-- ===== src/Coverage/Nearest.antt =====
-- Which hub is assigned (src/modules/coverage/hub-routing.logic.ts).
use Prim.Native.Nat.{Ordering}
use Prim.Native.String.{String}
use mathlib.Core.List.{Memᴰ}
use mathlib.Core.List.Memᴰ.{head, tail}
use vikram_backend.Prelude.{
  ℕ, ◌+◌, ◌≤◌, ◌≡◌, refl, sym, ap, subst, Bool, true, false, ◌&&◌, Option, none, some, List, [],
  ◌∷◌, map, arith, find?, filter_if, find?-holds, ◌==◌, if◌then◌else◌, opt_eq, not,
}
use vikram_backend.Prelude.Int.{ℤ}
use vikram_backend.Prelude.Sorting.{
  mem-find?, mem-sort_by, mem-filter_if, mem-filter_if_of, Decides, find?-sort_by,
}
use vikram_backend.Coverage.Geo.{
  Coordinate, is_valid_coordinates, is_valid_service_radius, is_within_service_radius,
}
use vikram_backend.Coverage.Routing.{
  StockItem, StockRow, Candidate, HubMatch, quantity_of, stock_covers_items, distance_to,
  is_routable, is_covered, evaluate, compare_matches, routable_matches, is_nearer, by_code,
  by_distance, evaluate_hub_routing,
}

-- The order of distances, where none is Infinity.
abbrev pub AtMost : Option ℕ → Option ℕ → Type 0
AtMost (some a) (some b) = a ≤ b
AtMost a none = Unit
AtMost none (some b) = ⊥

AtMost-refl : (a : Option ℕ) → AtMost a a
AtMost-refl none = tt
AtMost-refl (some a) = omega arith

AtMost-trans : (a b c : Option ℕ) → AtMost a b → AtMost b c → AtMost a c
AtMost-trans a b none h k = elim a [ none ↦ tt | some x ↦ tt ]
AtMost-trans none none (some c) h k = k
AtMost-trans none (some b) (some c) h k = absurd h
AtMost-trans (some a) none (some c) h k = absurd k
AtMost-trans (some a) (some b) (some c) h k = omega arith

pub mem-map :
    {A B : Type 0} (f : A → B) (xs : List A) {y : B}
    → Memᴰ y (map f xs)
    → (x : A) × Memᴰ x xs × (y ≡ f x)
mem-map f [] m = elim m [ ]
mem-map f (x ∷ xs) (head e) = (x, head refl, e)
mem-map f (x ∷ xs) (tail m) = let (z, k, e) = mem-map f xs m in (z, tail k, e)

pub mem-map_of :
    {A B : Type 0} (f : A → B) (xs : List A) {x : A} → Memᴰ x xs → Memᴰ (f x) (map f xs)
mem-map_of f [] m = elim m [ ]
mem-map_of f (x ∷ xs) (head e) = head (ap f e)
mem-map_of f (x ∷ xs) (tail m) = tail (mem-map_of f xs m)

-- What each item asks for is in the hub's stock.
abbrev pub HasStock : List StockRow → List StockItem → Type 0
HasStock rows items =
    (i : StockItem)
    → Memᴰ i items
    → i.quantity ≤ quantity_of (find? (λ (r : StockRow). r.product_id == i.product_id) rows)

stock_covers_items-HasStock :
    (rows : List StockRow) (items : List StockItem)
    → stock_covers_items rows items ≡ true
    → HasStock rows items
stock_covers_items-HasStock rows [] h i m = elim m [ ]
stock_covers_items-HasStock rows (j ∷ is) h i (head e) =
    subst
      (λ (k : StockItem).
        k.quantity ≤ quantity_of (find? (λ (r : StockRow). r.product_id == k.product_id) rows))
      (sym e) (ground arith)
stock_covers_items-HasStock rows (j ∷ is) h i (tail m) =
    stock_covers_items-HasStock rows is (ground arith) i m

HasStock-covers :
    (rows : List StockRow) (items : List StockItem)
    → HasStock rows items
    → stock_covers_items rows items ≡ true
HasStock-covers rows [] h = refl
HasStock-covers rows (j ∷ is) h =
    let one = h j (head refl) in
    let rest = HasStock-covers rows is (λ i m. h i (tail m)) in ground arith

abbrev pub served : HubMatch → Bool
served m = m.in_coverage && m.can_fulfill

module _ (haversine : ℤ → ℤ → ℤ → ℤ → ℕ) (locale_compare : String → String → Ordering) where
  -- A hub that serves the order: its place and its radius are set, the customer's place is valid, the
  -- rounded distance is within the radius and a metre, and the hub has the stock.
  pub record Serves (lat lng : Coordinate) (items : List StockItem) (h : Candidate) : Type 0 where
    pub place : is_valid_coordinates lat lng ≡ true
    pub routable : is_routable h ≡ true
    pub radius : ℕ
    pub distance : ℕ
    pub has_radius : h.service_radius ≡ some radius
    pub has_distance : distance_to haversine locale_compare lat lng h ≡ some distance
    pub within : distance ≤ radius + 1
    pub stock : HasStock h.inventory items

  within_of :
      (d r : Option ℕ)
      → is_within_service_radius d r ≡ true
      → (x : ℕ) × (y : ℕ) × (d ≡ some x) × (r ≡ some y) × (x ≤ y + 1)
  within_of none none h = cc
  within_of none (some r) h = cc
  within_of (some d) none h = cc
  within_of (some d) (some r) h = (d, r, refl, refl, ground arith)

  pub served-Serves :
      (lat lng : Coordinate) (items : List StockItem) (h : Candidate)
      → served (evaluate haversine locale_compare lat lng items h) ≡ true
      → Serves lat lng items h
  served-Serves lat lng items h e =
      let (d, r, a, b, le) =
        within_of (distance_to haversine locale_compare lat lng h) h.service_radius
          (ground arith) in
      record {
        place = ground arith;
        routable = ground arith;
        radius = r;
        distance = d;
        has_radius = b;
        has_distance = a;
        within = le;
        stock = stock_covers_items-HasStock h.inventory items (ground arith);
      }

  within_from :
      (d r : Option ℕ) (x y : ℕ)
      → d ≡ some x
      → r ≡ some y
      → is_valid_service_radius r ≡ true
      → x ≤ y + 1
      → is_within_service_radius d r ≡ true
  within_from none r x y a b v le = cc
  within_from (some d) none x y a b v le = cc
  within_from (some d) (some r) x y a b v le = ground arith

  is_covered_of :
      (lat lng : Coordinate) (h : Candidate)
      → is_valid_coordinates lat lng ≡ true
      → is_routable h ≡ true
      → is_within_service_radius (distance_to haversine locale_compare lat lng h) h.service_radius
        ≡ true
      → is_covered haversine locale_compare lat lng h ≡ true
  is_covered_of lat lng h a b c = ground arith

  pub Serves-served :
      (lat lng : Coordinate) (items : List StockItem) (h : Candidate)
      → Serves lat lng items h
      → served (evaluate haversine locale_compare lat lng items h) ≡ true
  Serves-served lat lng items h s =
      let stocked : stock_covers_items h.inventory items ≡ true =
        HasStock-covers h.inventory items s.stock in
      let routable : is_routable h ≡ true = s.routable in
      let covered : is_covered haversine locale_compare lat lng h ≡ true =
        is_covered_of lat lng h s.place routable (
          within_from (distance_to haversine locale_compare lat lng h) h.service_radius s.distance
            s.radius s.has_distance s.has_radius (ground arith) s.within) in
      ground arith

  -- The order of `compareMatches`, as far as hubs that serve are concerned.
  abbrev Before : HubMatch → HubMatch → Type 0
  Before a b = served b ≡ true → (served a ≡ true) × AtMost a.distance b.distance

  is_nearer-AtMost :
      (x y : Option ℕ) (b : Bool)
      → ((if not (opt_eq x y) then is_nearer x y else b) ≡ true → AtMost x y)
        × ((if not (opt_eq x y) then is_nearer x y else b) ≡ false → AtMost y x)
  is_nearer-AtMost none none b = ((λ e. tt), (λ e. tt))
  is_nearer-AtMost none (some y) b = ((λ e. absurd (cc)), (λ e. tt))
  is_nearer-AtMost (some x) none b = ((λ e. tt), (λ e. absurd (cc)))
  is_nearer-AtMost (some x) (some y) b = ((λ e. ground arith), (λ e. ground arith))

  served_before :
      (a b : HubMatch)
      → compare_matches haversine locale_compare a b ≡ true
      → served b ≡ true
      → (served a ≡ true) × (by_distance haversine locale_compare a b ≡ true)
  served_before a b e h = ground arith

  served_after :
      (a b : HubMatch)
      → compare_matches haversine locale_compare a b ≡ false
      → served a ≡ true
      → (served b ≡ true) × (by_distance haversine locale_compare a b ≡ false)
  served_after a b e h = ground arith

  compare_matches-Decides : Decides (compare_matches haversine locale_compare) Before
  compare_matches-Decides = record {
    reflexive = λ a h. (h, AtMost-refl a.distance);
    transitive = λ {x = a} {y = b} {z = c} x y h.
        ((x (y h).0).0, AtMost-trans a.distance b.distance c.distance (x (y h).0).1 (y h).1);
    of_true = λ a b e h.
        let (s, d) = served_before a b e h in
        (s, (is_nearer-AtMost a.distance b.distance (by_code haversine locale_compare a b)).0 d);
    of_false = λ a b e h.
        let (s, d) = served_after a b e h in
        (s, (is_nearer-AtMost a.distance b.distance (by_code haversine locale_compare a b)).1 d);
  }

  -- What a match of the sorted list says of a hub of the configuration.
  pub mem-matches :
      (lat lng : Coordinate) (items : List StockItem) (hubs : List Candidate) {m : HubMatch}
      → Memᴰ m (routable_matches haversine locale_compare lat lng hubs items)
      → (h : Candidate) × Memᴰ h hubs × (m ≡ evaluate haversine locale_compare lat lng items h)
  mem-matches lat lng items hubs i =
      mem-map (evaluate haversine locale_compare lat lng items) hubs
        (mem-filter_if (λ (m : HubMatch). m.routable)
          (map (evaluate haversine locale_compare lat lng items) hubs)
          (mem-sort_by (compare_matches haversine locale_compare) _ i)).0

  pub matches-mem :
      (lat lng : Coordinate) (items : List StockItem) (hubs : List Candidate) (h : Candidate)
      → Memᴰ h hubs
      → is_routable h ≡ true
      → Memᴰ (evaluate haversine locale_compare lat lng items h) (
          filter_if
            (λ (m : HubMatch). m.routable)
            (map (evaluate haversine locale_compare lat lng items) hubs))
  matches-mem lat lng items hubs h i r =
      mem-filter_if_of (λ (m : HubMatch). m.routable)
        (map (evaluate haversine locale_compare lat lng items) hubs)
        (mem-map_of (evaluate haversine locale_compare lat lng items) hubs i) r

  -- The hub that an order is assigned to is one of the hubs given: its place and its radius are set,
  -- the customer's rounded distance from it is within the radius and a metre, its stock has what every
  -- item asks for, and no other hub of which all that is true is nearer.
  pub assignable_hub-IsNearest :
      (lat lng : Coordinate) (items : List StockItem) (hubs : List Candidate) (m : HubMatch)
      → (evaluate_hub_routing haversine locale_compare lat lng hubs items).assignable_hub ≡ some m
      → (h : Candidate) × Memᴰ h hubs
        × (m ≡ evaluate haversine locale_compare lat lng items h)
        × Serves lat lng items h
        × ((k : Candidate)
            → Memᴰ k hubs
            → Serves lat lng items k
            → AtMost
                (distance_to haversine locale_compare lat lng h)
                (distance_to haversine locale_compare lat lng k))
  unfolding evaluate_hub_routing
  assignable_hub-IsNearest lat lng items hubs m found =
      let (h, i, e) =
        mem-matches lat lng items hubs
          (mem-find? served (routable_matches haversine locale_compare lat lng hubs items) found) in
      let ok : served m ≡ true =
        find?-holds served (routable_matches haversine locale_compare lat lng hubs items) found in
      let s = served-Serves lat lng items h (subst (λ (x : HubMatch). served x ≡ true) e ok) in
      (
        h,
        i,
        e,
        s,
        λ k j t.
            subst
              (λ (x : HubMatch). AtMost x.distance (distance_to haversine locale_compare lat lng k))
              e
              (find?-sort_by (compare_matches haversine locale_compare) Before
                compare_matches-Decides served
                (filter_if (λ (x : HubMatch). x.routable)
                  (map (evaluate haversine locale_compare lat lng items) hubs))
                found (evaluate haversine locale_compare lat lng items k)
                (matches-mem lat lng items hubs k j t.routable) (Serves-served lat lng items k t)
                (Serves-served lat lng items k t)).1,
      )
