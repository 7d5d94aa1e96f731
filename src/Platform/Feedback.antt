-- ===== src/Platform/Feedback.antt =====
-- Ratings, provider applications and messages of internal/platform/app.go.
use tok.Prelude.{
  pos, suc, Bool, true, false, ◌&&◌, ◌||◌, not, Option, some, none, List, [], ◌∷◌, ◌++◌, String,
  ◌==◌, ltb_ℤ, numbered, length, if◌then◌else◌,
}
use tok.Prelude.Keyed.{find, update}
use tok.Core.Types.{Time, is_completed_order}
use tok.Platform.Types.{OrderRating, RateOrderInput, ProviderApplication, VettingStatus, Message}
use tok.Platform.App.State.{
  App, M, Result, ok, err, missing_required_fields, invalid_score, order_not_completed,
  order_already_rated, order_not_rated, application_pending, application_reviewed,
  application_not_found, now, publish, notify, pure, fail_if, modify, gets, from_option, ◌>>=◌,
  ◌>>◌,
}
use tok.Platform.App.State
use tok.Platform.App.Repositories.{
  get_order, get_rfq, next_message_id, save_message, messages_by_order, messages_by_rfq,
}

abbrev pub rating_order_id : OrderRating → String
rating_order_id r = r.order_id

abbrev pub is_some : Option OrderRating → Bool
is_some none = false
is_some (some _) = true

-- `App.RateOrder`. What `updateProviderRating` computes it drops, so it is left out.
unfoldable pub rate_order : String → RateOrderInput → M OrderRating
rate_order order input = do
  fail_if (ltb_ℤ input.score (pos 1) || ltb_ℤ (pos 5) input.score) invalid_score
  o ← get_order order
  fail_if (not (is_completed_order o.status)) order_not_completed
  ratings ← gets λ a. a.ratings
  fail_if (is_some (find rating_order_id order ratings)) order_already_rated
  at ← now
  let rating : OrderRating = record {
    order_id = order;
    provider_org_id = o.provider_org_id;
    buyer_org_id = o.buyer_org_id;
    score = input.score;
    comment = input.comment;
    created_at = at;
  }
  modify λ a. record a { ratings = a.ratings ++ rating ∷ [] }
  publish "market.order.rated" (
      ("orderId", State.text order)
      ∷ ("providerOrgId", State.text o.provider_org_id)
      ∷ ("buyerOrgId", State.text o.buyer_org_id)
      ∷ ("score", State.cents input.score)
      ∷ [])
  notify "order.rated" o.provider_org_id
      (("orderId", State.text order) ∷ ("score", State.cents input.score) ∷ [])
  pure rating

-- `App.GetOrderRating`
unfoldable pub get_order_rating : String → M OrderRating
get_order_rating order = do
  ratings ← gets λ a. a.ratings
  from_option (find rating_order_id order ratings) order_not_rated

abbrev pub is_pending_vetting : VettingStatus → Bool
is_pending_vetting VettingStatus.pending = true
is_pending_vetting _ = false

unfoldable pub has_pending : String → List ProviderApplication → Bool
has_pending org [] = false
has_pending org (p ∷ ps) = ((p.org_id == org) && is_pending_vetting p.status) || has_pending org ps

-- `App.SubmitProviderApplication`
unfoldable pub submit_application : String → String → List String → M ProviderApplication
submit_application org name capabilities = do
  fail_if ((org == "") || (name == "")) missing_required_fields
  applications ← gets λ a. a.provider_applications
  fail_if (has_pending org applications) application_pending
  at ← now
  let p : ProviderApplication = record {
    id = numbered "app_" (suc (length applications));
    org_id = org;
    name = name;
    capabilities = capabilities;
    status = VettingStatus.pending;
    reviewed_by = "";
    review_note = "";
    submitted_at = at;
    reviewed_at = none;
  }
  modify λ a. record a { provider_applications = applications ++ p ∷ [] }
  notify "provider.application.submitted" org (("applicationId", State.text p.id) ∷ [])
  pure p

abbrev pub application_id : ProviderApplication → String
application_id p = p.id

abbrev pub reviewed : String → String → Bool → Time → ProviderApplication → ProviderApplication
reviewed reviewer note approve at p = record p {
  status = if approve then VettingStatus.approved else VettingStatus.rejected;
  reviewed_by = reviewer;
  review_note = note;
  reviewed_at = some at;
}

-- `App.ReviewProviderApplication`
unfoldable pub review_application : String → String → String → Bool → M ProviderApplication
review_application id reviewer note approve = do
  applications ← gets λ a. a.provider_applications
  p ← from_option (find application_id id applications) application_not_found
  fail_if (not (is_pending_vetting p.status)) application_reviewed
  at ← now
  modify λ a. record a {
    provider_applications =
        update application_id id (reviewed reviewer note approve at) a.provider_applications;
  }
  notify (if approve then "provider.application.approved" else "provider.application.rejected")
      p.org_id (("applicationId", State.text id) ∷ ("reviewedBy", State.text reviewer) ∷ [])
  pure (reviewed reviewer note approve at p)

unfoldable pub has_approved : String → List ProviderApplication → Bool
has_approved org [] = false
has_approved org (p ∷ ps) =
    ((p.org_id == org) && (elim p.status [ VettingStatus.approved ↦ true | _ ↦ false ]))
    || has_approved org ps

-- `App.IsProviderApproved`: everyone is while nobody has applied.
unfoldable pub is_provider_approved : String → App → Bool
unfolding has_approved
is_provider_approved org a = elim a.provider_applications [
  | [] ↦ true
  | p ∷ ps ↦ has_approved org (p ∷ ps)
]

abbrev pub new_message : String → String → String → String → String → Time → Message
new_message id order rfq author body at = record {
  id = id;
  order_id = order;
  rfq_id = rfq;
  author = author;
  body = body;
  created_at = at;
}

-- `App.CreateMessage`
unfoldable pub create_message : String → String → String → M Message
create_message order author body = do
  id ← next_message_id
  at ← now
  let m = new_message id order "" author body at
  modify (save_message m)
  publish "market.message.created" (
      ("messageId", State.text m.id)
      ∷ ("orderId", State.text m.order_id)
      ∷ ("author", State.text m.author)
      ∷ [])
  pure m

-- `App.CreateRFQMessage`
unfoldable pub create_rfq_message : String → String → String → M Message
create_rfq_message rfq author body = do
  get_rfq rfq
  id ← next_message_id
  at ← now
  let m = new_message id "" rfq author body at
  modify (save_message m)
  publish "market.rfq.message.created" (
      ("messageId", State.text m.id)
      ∷ ("rfqId", State.text rfq)
      ∷ ("author", State.text m.author)
      ∷ [])
  pure m

-- `App.ListRFQMessages` and `App.ListOrderMessages`
unfoldable pub list_rfq_messages : String → M (List Message)
list_rfq_messages rfq = do get_rfq rfq; gets λ a. messages_by_rfq rfq a.messages.items

unfoldable pub list_order_messages : String → M (List Message)
list_order_messages order = do get_order order; gets λ a. messages_by_order order a.messages.items
