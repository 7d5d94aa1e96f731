-- ===== src/Platform/Settlement.antt =====
-- `App.SettleMilestone` of internal/platform/app.go.
use tok.Prelude.{pos, ◌&&◌, some, none, List, [], ◌∷◌, String, is_empty, not, if◌then◌else◌}
use tok.Core.Types.{Order, Milestone, LedgerEntry, SettleMilestoneInput, is_completed_order}
use tok.Core.Order.{find_milestone, update_milestone, all_settled, settle_milestone}
use tok.Reconciliation.{Float, reconcile}
use tok.Platform.App.State.{
  App, M, Result, ok, err, publish, notify, pure, modify, gets, when, lift_order, ◌>>=◌, ◌>>◌,
}
use tok.Platform.App.State
use tok.Platform.App.Repositories.{save_order, get_order}
use tok.Platform.Liquidity.Reservations.{reservation_of_order, release_reservation}
use tok.Platform.Orders.{advance_next_milestone, notify_both, order_and_milestone}

abbrev pub flagged : List String → Milestone → Milestone
flagged anomalies m = record m { anomaly_flags = anomalies }

-- The order with the anomalies of its settled milestone; without any, the flags stay.
abbrev pub flag_milestone : String → List String → Order → Order
flag_milestone id anomalies o =
    if is_empty anomalies
    then o
    else record o { milestones = update_milestone id (flagged anomalies) o.milestones }

module _ (fl : Float) where
  -- What the reconciliation of the settled milestone finds.
  unfoldable pub anomalies_of : String → Order → List String
  anomalies_of id o = elim (find_milestone id o) [
    | none ↦ []
    | some m ↦ (reconcile fl m (fl.of_int64 (pos 0))).anomalies
  ]

  -- The order that is saved.
  abbrev pub after_settlement : String → Order → Order
  after_settlement id o = advance_next_milestone id (flag_milestone id (anomalies_of id o) o)

  -- A complete order gives its reserve back.
  unfoldable pub release_if_complete : Order → M (Unit {0})
  release_if_complete o = when (all_settled o.milestones && is_completed_order o.status) (do
    held ← gets (reservation_of_order o.id)
    elim held [ ok r ↦ release_reservation r.id | err e ↦ pure tt ]
    notify_both "order.completed" o (("orderId", State.text o.id) ∷ []))

  unfoldable pub app_settle_milestone : String → SettleMilestoneInput → M (Order × LedgerEntry)
  app_settle_milestone order input = do
    o ← get_order order
    (settled, entry) ← lift_order (settle_milestone input o)
    let anomalies = anomalies_of input.milestone_id settled
    when (not (is_empty anomalies)) (
        notify "reconciliation.anomaly" settled.provider_org_id (
          ("orderId", State.text settled.id)
          ∷ ("milestoneId", State.text input.milestone_id)
          ∷ ("anomalies", State.texts anomalies)
          ∷ []))
    let o' = after_settlement input.milestone_id settled
    modify (save_order o')
    publish "market.milestone.settled" (
        ("orderId", State.text o'.id)
        ∷ ("milestoneId", State.text input.milestone_id)
        ∷ ("ledgerKind", State.ledger entry.kind)
        ∷ ("amountCents", State.cents entry.amount_cents)
        ∷ ("occurredAt", State.time input.occurred_at)
        ∷ ("fundingMode", State.mode o'.funding_mode)
        ∷ [])
    notify_both "milestone.settled" o' (order_and_milestone o' input.milestone_id)
    release_if_complete o'
    updated ← get_order order
    pure (updated, entry)
