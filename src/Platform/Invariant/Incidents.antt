-- ===== src/Platform/Invariant/Incidents.antt =====
-- The operations on liquidity and the remaining ones keep the store sound.
use tok.Prelude.{
  ◌≡◌, refl, Bool, true, false, Option, some, none, String, [], ◌∷◌, arith, if◌then◌else◌,
}
use tok.Prelude.Dict.{Dict}
use tok.Core.Types.{Order, Time}
use tok.Core.Soundness.{IsSound}
use tok.Platform.LiquidityTypes.{LiquidityReservation, EnsureLiquidityInput}
use tok.Platform.App.State.{App, modify, ◌>>=◌, now}
use tok.Platform.App.Repositories.{save_order, lookup_order}
use tok.Platform.Liquidity.Reservations.{ensure_liquidity}
use tok.Platform.Liquidity.Incidents.{
  report_disconnect, recover_settlement, change_orders, disconnect_order, resume_order,
  note_incident, active_pool, holds_order_of, ensure_or_disconnect, note_failure,
}
use tok.Platform.OrderSoundness.{disconnect-IsSound, resume-IsSound}
use tok.Platform.Invariant.Base.{
  AllSound, Keeps, andthen, keep_pure, keep_gets, keep_from_option, keep_fail_if, keep_modify,
  keep_now, keep_same_orders, save_order-AllSound,
}

-- Changing the orders of a provider keeps them sound if the change does.
change_orders-AllSound :
    (provider : String) (f : Order → Order) (rs : Dict LiquidityReservation) (a : App)
    → ((o : Order) → IsSound o → IsSound (f o))
    → AllSound a
    → AllSound (change_orders provider f rs a)
unfolding change_orders
change_orders-AllSound provider f [] a k s = s
change_orders-AllSound provider f ((key, r) ∷ rs) a k s =
    change_orders-AllSound provider f rs _ k
      (step (holds_order_of provider r) (lookup_order r.order_id a) refl)
  where
    step :
        (b : Bool) (x : Option Order)
        → lookup_order r.order_id a ≡ x
        → AllSound (if b then (elim x [ none ↦ a | some o ↦ save_order (f o) a ]) else a)
    step false x e = s
    step true none e = s
    step true (some o) e = save_order-AllSound (f o) a (k o (s.stored r.order_id o e).0) s

keep_note : (provider : String) (at : Time) → Keeps (modify (note_incident provider at))
unfolding modify
keep_note provider at = keep_same_orders _ (λ a. ground arith)

-- A disconnection keeps every stored order sound.
pub report_disconnect-AllSound :
    (provider reason : String) → Keeps (report_disconnect provider reason)
unfolding report_disconnect
report_disconnect-AllSound provider reason = andthen keep_now λ at.
    andthen (keep_note provider at) λ _. andthen (keep_gets _) λ pools.
      andthen (keep_from_option _ _) λ p.
        andthen (keep_modify _ (λ a s. record { stored = s.stored })) λ _. keep_modify _ (λ a s.
          change_orders-AllSound provider disconnect_order a.settlement_reservations a
            disconnect-IsSound s)

pub keep_active_pool : (provider : String) → Keeps (active_pool provider)
unfolding active_pool
keep_active_pool provider = andthen (keep_gets _) λ found. andthen (keep_from_option _ _) λ binding.
    andthen (keep_fail_if _ _) λ _. andthen (keep_gets _) λ pools.
      andthen (keep_from_option _ _)
        λ current. andthen (keep_gets _) λ has. andthen (keep_fail_if _ _) λ _. keep_pure _

keep_ensure :
    (provider : String) (input : EnsureLiquidityInput) → Keeps (ensure_or_disconnect provider input)
unfolding ensure_liquidity note_failure ◌>>=◌ now
keep_ensure provider input =
    keep_same_orders (ensure_or_disconnect provider input) (λ a. ground arith)

-- A recovery keeps every stored order sound.
pub recover_settlement-AllSound : (provider : String) → Keeps (recover_settlement provider)
unfolding recover_settlement
recover_settlement-AllSound provider = andthen (keep_active_pool provider) λ bp.
    andthen (keep_gets _) λ ttl. andthen keep_now λ at.
      andthen (keep_modify _ (λ a s. record { stored = s.stored })) λ _.
        andthen (keep_ensure provider _) λ answer. andthen keep_now λ healthy.
          andthen (keep_gets _) λ pools.
            andthen
              (keep_modify _ (λ a s.
                change_orders-AllSound provider resume_order a.settlement_reservations a
                  resume-IsSound s))
              λ _. andthen (keep_modify _ (λ a s. record { stored = s.stored })) λ _. keep_pure _
