-- ===== src/Platform/Liquidity/Recovery.antt =====
-- What a disconnection and a recovery of a provider do to its milestones, together.
use tok.Prelude.{some, sym, subst, ap, Bool, Option, ◌≡◌, refl, ◌∙◌, map, arith, String}
use tok.Core.Types.{Time, Order, OrderStatus}
use tok.Prelude.Dict.{Dict, get}
use tok.Platform.LiquidityTypes.{
  LiquidityPool, LiquidityReservation, EnsureLiquidityInput, EnsureLiquidityResult,
}
use tok.Platform.Liquidity.Reservations.{ensure_liquidity}
use tok.Platform.Triples.{
  Any, Triple, Post, IsStable, bind, pure_triple, gets_triple, from_option_triple, fail_if_triple,
  modify_triple, now_triple, result_of,
}
use tok.Platform.App.State.{
  App, Result, Error, ok, err, gets, from_option, fail_if, modify, now, ◌>>=◌,
}
use tok.Platform.App.Repositories.{lookup_order}
use tok.Platform.Liquidity.Touched.{
  AreKeyed, HasActive, change_orders-AreKeyed, change_orders-reservations, becomes_touched,
}
use tok.Platform.Liquidity.Recovered.{
  IsDisconnected, recovered, IsBack, disconnect_first, disconnect_again, IsBack-first, IsBack-again,
  states_back,
}
use tok.Platform.Liquidity.Incidents.{
  change_orders, note_incident, active_pool, ensure_or_disconnect, note_failure, report_disconnect,
  recover_settlement, disconnect_order, resume_order,
}

-- An order stands in a keyed store, touched as said, beside these reservations.
abbrev Leaves : (Order → Type 0) → String → Dict LiquidityReservation → App → Type 0
Leaves Touched id rs a =
    AreKeyed a
    × (a.settlement_reservations ≡ rs)
    × ((o : Order) × (lookup_order id a ≡ some o) × Touched o)

module _ (provider id : String) (rs : Dict LiquidityReservation)
    (active : HasActive provider id rs) where
  loop-Leaves :
      (f : Order → Order) (Before Touched : Order → Type 0)
      → ((o : Order) → (f o).id ≡ o.id)
      → ((o : Order) → Before o → Touched (f o))
      → ((o : Order) → Touched o → Touched (f o))
      → (a : App) → Leaves Before id rs a
      → Leaves Touched id rs (change_orders provider f a.settlement_reservations a)
  loop-Leaves f Before Touched same_id first again a (keyed, held, (o, found, before)) =
      subst (λ qs. Leaves Touched id rs (change_orders provider f qs a)) (sym held)
        (
          change_orders-AreKeyed provider f same_id rs a keyed,
          change_orders-reservations provider f rs a ∙ held,
          becomes_touched provider f same_id Touched again a o active keyed found (first o before),
        )

  module _ (T : Order → Type 0) where
    stable : IsStable (Leaves T id rs)
    stable = record { calls = λ a n h. h; published = λ a n ps h. h; notified = λ a ns h. h }

    keep_gets :
        {A : Type 0} (f : App → A) → Triple (Leaves T id rs) (gets f) (λ _. Leaves T id rs) Any
    keep_gets f = gets_triple f (λ a h. h)

    keep_from_option :
        {A : Type 0} (o : Option A) (e : Error)
        → Triple (Leaves T id rs) (from_option o e) (λ _. Leaves T id rs) Any
    keep_from_option o e = from_option_triple o e (λ a h. tt) (λ x _ a h. h)

    keep_fail_if :
        (b : Bool) (e : Error) → Triple (Leaves T id rs) (fail_if b e) (λ _. Leaves T id rs) Any
    keep_fail_if b e = fail_if_triple b e (λ a h. tt) (λ _ a h. h)

    -- A step that writes neither orders nor reservations.
    same-Leaves :
        (a b : App)
        → b.orders ≡ a.orders
        → b.settlement_reservations ≡ a.settlement_reservations
        → Leaves T id rs a
        → Leaves T id rs b
    same-Leaves a b orders held (keyed, mine, (o, found, t)) = (
      (λ i x h. keyed i x (ap (λ os. get i os.items) (sym orders) ∙ h)),
      held ∙ mine,
      (o, ap (λ os. get id os.items) orders ∙ found, t),
    )

    keep_note :
        (at : Time)
        → Triple (Leaves T id rs) (modify (note_incident provider at)) (λ _. Leaves T id rs) Any
    keep_note at =
        modify_triple _
          (λ a h. same-Leaves a (note_incident provider at a) (ground arith) (ground arith) h)

    keep_active_pool : Triple (Leaves T id rs) (active_pool provider) (λ _. Leaves T id rs) Any
    unfolding active_pool
    keep_active_pool = bind (keep_gets _) λ found. bind (keep_from_option _ _) λ binding.
        bind (keep_fail_if _ _) λ _. bind (keep_gets _) λ pools.
          bind (keep_from_option _ _) λ current.
            bind (keep_gets _) λ has. bind (keep_fail_if _ _) λ _. pure_triple _ (λ a h. h)

    ensured :
        (input : EnsureLiquidityInput) (a : App)
        → ((ensure_or_disconnect provider input a).1.orders ≡ a.orders)
          × ((ensure_or_disconnect provider input a).1.settlement_reservations
              ≡ a.settlement_reservations)
    unfolding ensure_liquidity note_failure ◌>>=◌ now
    ensured input a = (ground arith, ground arith)

    keep_ensure :
        (input : EnsureLiquidityInput)
        → Triple (Leaves T id rs) (ensure_or_disconnect provider input) (λ _. Leaves T id rs) Any
    keep_ensure input = record {
      run = λ a h.
          let (orders, held) = ensured input a in
          go (ensure_or_disconnect provider input a)
            (same-Leaves a (ensure_or_disconnect provider input a).1 orders held h);
    }
      where
        go :
            (r : Result EnsureLiquidityResult × App)
            → Leaves T id rs r.1
            → Post (λ _. Leaves T id rs) Any r
        go (ok x, a) h = h
        go (err e, a) h = tt

  disconnect_triple :
      (reason : String) (o : Order)
      → Triple
          (Leaves (λ x. x ≡ o) id rs)
          (report_disconnect provider reason)
          (λ _. Leaves (IsDisconnected o) id rs)
          Any
  unfolding report_disconnect
  disconnect_triple reason o =
      let T = λ (x : Order). x ≡ o in
      bind (now_triple (stable T)) λ at. bind (keep_note T at) λ _. bind (keep_gets T _) λ pools.
        bind (keep_from_option T _ _) λ p. bind (modify_triple _ (λ a h. h)) λ _.
          modify_triple _ (λ a h.
            loop-Leaves disconnect_order T (IsDisconnected o) (λ x. refl)
              (λ x same. rw same (disconnect_first o)) (disconnect_again o) a h)

  recover_triple :
      (o : Order)
      → Triple
          (Leaves (IsDisconnected o) id rs)
          (recover_settlement provider)
          (λ _. Leaves (IsBack o) id rs)
          Any
  unfolding recover_settlement
  recover_triple o =
      let T = IsDisconnected o in
      bind (keep_active_pool T) λ found. bind (keep_gets T _) λ ttl.
        bind (now_triple (stable T)) λ at. bind (modify_triple _ (λ a h. h)) λ _.
          bind (keep_ensure T _) λ answer. bind (now_triple (stable T)) λ healthy.
            bind (keep_gets T _) λ pools.
              bind
                (modify_triple _ (λ a h.
                  loop-Leaves resume_order T (IsBack o) (λ x. refl) (IsBack-first o)
                    (IsBack-again o) a h))
                λ _. bind (modify_triple _ (λ a h. h)) λ _. pure_triple _ (λ a h. h)

-- In a store where each order stands under its own id, an order with an active reservation of a
-- provider is running after a disconnection and a recovery of the provider that both succeed,
-- whatever its status was, and so is each of its milestones that was paused, whatever for; its
-- other milestones keep their state.
pub recover_settlement-report_disconnect :
    (provider reason id : String) (a a' a'' : App) (p : LiquidityPool) (o : Order)
    → AreKeyed a
    → lookup_order id a ≡ some o
    → HasActive provider id a.settlement_reservations
    → report_disconnect provider reason a ≡ (ok tt, a')
    → recover_settlement provider a' ≡ (ok p, a'')
    → (o' : Order) × (lookup_order id a'' ≡ some o')
      × (o'.status ≡ OrderStatus.running)
      × (map (λ m. m.state) o'.milestones ≡ map (λ m. recovered m.state) o.milestones)
recover_settlement-report_disconnect provider reason id a a' a'' p o keyed found active down up =
    let rs = a.settlement_reservations in
    let lost =
      result_of (λ _. Leaves (IsDisconnected o) id rs) tt a' _
        ((disconnect_triple provider id rs active reason o).run a (keyed, refl, (o, found, refl)))
        down in
    let (_, _, (o', found', (status, pairs))) =
      result_of (λ _. Leaves (IsBack o) id rs) p a'' _
        ((recover_triple provider id rs active o).run a' lost) up in
    (o', found', status, states_back o.milestones o'.milestones pairs)
