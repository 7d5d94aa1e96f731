-- ===== src/Platform/Liquidity/Touched.antt =====
-- What the loop over a provider's active reservations does to the orders of the store.
use tok.Prelude.{
  ◌≡◌, ◌≢◌, ne-eq, refl, ◌∙◌, sym, ◌⊎◌, inl, inr, true, Bool-cases, Option-cases, some, none, [],
  ◌∷◌, String, ◌==◌, eq_refl, eq_iff, arith, if◌then◌else◌,
}
use tok.Prelude.Dict.{Dict, get-put}
use tok.Core.Types.{Order}
use tok.Platform.LiquidityTypes.{LiquidityReservation, ReservationStatus}
use tok.Platform.App.State.{App}
use tok.Platform.App.Repositories.{lookup_order, save_order}
use tok.Platform.Liquidity.Incidents.{change_orders, holds_order_of}

-- Each order is stored under its own id.
abbrev pub AreKeyed : App → Type 0
AreKeyed a = (id : String) (o : Order) → lookup_order id a ≡ some o → o.id ≡ id

-- An active reservation of the provider is for the order.
pub data HasActive (provider id : String) : Dict LiquidityReservation → Type 0 where
  at_head :
      {k : String} {r : LiquidityReservation} {rs : Dict LiquidityReservation}
      → r.provider_org_id ≡ provider
      → r.status ≡ ReservationStatus.active
      → r.order_id ≡ id
      → id ≢ ""
      → HasActive provider id ((k, r) ∷ rs)
  in_tail :
      {k : String} {r : LiquidityReservation} {rs : Dict LiquidityReservation}
      → HasActive provider id rs
      → HasActive provider id ((k, r) ∷ rs)

active_holds :
    (provider : String) (r : LiquidityReservation) (id : String)
    → r.provider_org_id ≡ provider
    → r.status ≡ ReservationStatus.active
    → r.order_id ≡ id
    → id ≢ ""
    → holds_order_of provider r ≡ true
active_holds provider r id party active mine named =
    rw (party, active, mine, eq_refl provider, ne-eq id "" named) refl

-- One round of the loop.
abbrev changed : String → (Order → Order) → LiquidityReservation → App → App
changed provider f r a =
    if holds_order_of provider r
    then (elim (lookup_order r.order_id a) [ none ↦ a | some o ↦ save_order (f o) a ])
    else a

save_order-AreKeyed : (o : Order) (a : App) → AreKeyed a → AreKeyed (save_order o a)
unfolding save_order
save_order-AreKeyed o a keyed id x h = elim (Bool-cases (o.id == id)) [
  | inl same ↦ ground (arith, get-put o.id id o a.orders.items, eq_iff o.id id)
  | inr other ↦ keyed id x (ground (arith, get-put o.id id o a.orders.items))
]

changed_cases :
    (provider : String) (f : Order → Order) (r : LiquidityReservation) (a : App)
    → (changed provider f r a ≡ a)
      ⊎ ((o : Order) × (lookup_order r.order_id a ≡ some o)
          × (changed provider f r a ≡ save_order (f o) a))
changed_cases provider f r a = elim (Bool-cases (holds_order_of provider r)) [
  | inr apart ↦ inl (rw apart refl)
  | inl holds ↦ elim (Option-cases (lookup_order r.order_id a)) [
    | inl missing ↦ inl (rw (holds, missing) refl)
    | inr (o, found) ↦ inr (o, found, rw (holds, found) refl)
  ]
]

module _ (provider : String) (f : Order → Order) (same_id : (o : Order) → (f o).id ≡ o.id) where
  changed-AreKeyed :
      (r : LiquidityReservation) (a : App) → AreKeyed a → AreKeyed (changed provider f r a)
  changed-AreKeyed r a keyed = elim (changed_cases provider f r a) [
    | inl unchanged ↦ rw unchanged keyed
    | inr (o, found, saved) ↦ rw saved (save_order-AreKeyed (f o) a keyed)
  ]

  -- A round finds the order as it was, or changed once.
  changed_lookup :
      (r : LiquidityReservation) (a : App) (id : String) (o : Order)
      → AreKeyed a
      → lookup_order id a ≡ some o
      → (lookup_order id (changed provider f r a) ≡ some o)
        ⊎ (lookup_order id (changed provider f r a) ≡ some (f o))
  unfolding save_order
  changed_lookup r a id o keyed found = elim (changed_cases provider f r a) [
    | inl unchanged ↦ inl (rw unchanged found)
    | inr (x, stored, saved) ↦
        let key : (f x).id ≡ r.order_id = same_id x ∙ keyed r.order_id x stored in
        elim (Bool-cases ((f x).id == id)) [
          | inr other ↦ inl (rw saved (ground (arith, get-put (f x).id id (f x) a.orders.items)))
          | inl same ↦
              let here : r.order_id ≡ id = sym key ∙ (eq_iff (f x).id id).0 same in
              let it : x ≡ o = ground (arith, rw here at stored) in
              inr (rw (saved, sym it) (ground (arith, get-put (f x).id id (f x) a.orders.items)))
        ]
  ]

  -- The round of an active reservation changes its order.
  changed_hit :
      (r : LiquidityReservation) (a : App) (id : String) (o : Order)
      → AreKeyed a
      → holds_order_of provider r ≡ true
      → r.order_id ≡ id
      → lookup_order id a ≡ some o
      → lookup_order id (changed provider f r a) ≡ some (f o)
  unfolding save_order
  changed_hit r a id o keyed holds mine found =
      let key : (f o).id ≡ id = same_id o ∙ keyed id o found in
      let same : (f o).id == id ≡ true = (eq_iff (f o).id id).1 key in
      rw (holds, mine, found) (get-put (f o).id id (f o) a.orders.items ∙ rw same refl)

  pub change_orders-AreKeyed :
      (rs : Dict LiquidityReservation) (a : App)
      → AreKeyed a
      → AreKeyed (change_orders provider f rs a)
  unfolding change_orders
  change_orders-AreKeyed [] a keyed = keyed
  change_orders-AreKeyed ((k, r) ∷ rs) a keyed =
      change_orders-AreKeyed rs (changed provider f r a) (changed-AreKeyed r a keyed)

  module _ (Touched : Order → Type 0) (again : (o : Order) → Touched o → Touched (f o)) where
    -- An order that is touched stays so.
    stays_touched :
        (rs : Dict LiquidityReservation) (a : App) (id : String) (o : Order)
        → AreKeyed a
        → lookup_order id a ≡ some o
        → Touched o
        → (o' : Order) × (lookup_order id (change_orders provider f rs a) ≡ some o') × Touched o'
    unfolding change_orders
    stays_touched [] a id o keyed found t = (o, found, t)
    stays_touched ((k, r) ∷ rs) a id o keyed found t =
        let keyed' = changed-AreKeyed r a keyed in
        elim (changed_lookup r a id o keyed found) [
          | inl unchanged ↦ stays_touched rs (changed provider f r a) id o keyed' unchanged t
          | inr once ↦ stays_touched rs (changed provider f r a) id (f o) keyed' once (again o t)
        ]

    -- An order of an active reservation is touched.
    pub becomes_touched :
        {id : String} {rs : Dict LiquidityReservation} (a : App) (o : Order)
        → HasActive provider id rs
        → AreKeyed a
        → lookup_order id a ≡ some o
        → Touched (f o)
        → (o' : Order) × (lookup_order id (change_orders provider f rs a) ≡ some o') × Touched o'
    unfolding change_orders
    becomes_touched {id} a o (at_head {k} {r} {rs} party active mine named) keyed found t =
        stays_touched rs (changed provider f r a) id (f o) (changed-AreKeyed r a keyed)
          (changed_hit r a id o keyed (active_holds provider r id party active mine named) mine
            found)
          t
    becomes_touched {id} a o (in_tail {k} {r} {rs} active) keyed found t =
        let keyed' = changed-AreKeyed r a keyed in
        elim (changed_lookup r a id o keyed found) [
          | inl unchanged ↦ becomes_touched (changed provider f r a) o active keyed' unchanged t
          | inr once ↦ stays_touched rs (changed provider f r a) id (f o) keyed' once t
        ]

-- The loop leaves the reservations.
pub change_orders-reservations :
    (provider : String) (f : Order → Order) (rs : Dict LiquidityReservation) (a : App)
    → (change_orders provider f rs a).settlement_reservations ≡ a.settlement_reservations
unfolding change_orders save_order
change_orders-reservations provider f [] a = refl
change_orders-reservations provider f ((k, r) ∷ rs) a =
    change_orders-reservations provider f rs (changed provider f r a) ∙ kept
  where
    kept : (changed provider f r a).settlement_reservations ≡ a.settlement_reservations
    kept = elim (changed_cases provider f r a) [
      | inl unchanged ↦ rw unchanged refl
      | inr (o, found, saved) ↦ rw saved refl
    ]
