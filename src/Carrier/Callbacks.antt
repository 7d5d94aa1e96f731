-- ===== src/Carrier/Callbacks.antt =====
-- internal/carrier/callback.go and normalize.go, and internal/usageproof/verify.go: the signatures of callbacks
-- and of usage proofs, and the names of events. The hexadecimal HMAC-SHA256 and the parser of RFC 3339
-- timestamps are parameters; the clock is an argument.
use Prim.Native.Char.{code}
use tok.Prelude.{ℕ, ◌+◌, ℤ, not, Option, some, none, [], ◌∷◌, String, ◌==◌, if◌then◌else◌, ltb, eqb}
use tok.Prelude.Blank.{is_blank}
use tok.Prelude.Dict.{Dict, get}
use tok.Prelude.Trim.{has_code}
use tok.Prelude.Format.{◌<>◌, decimal_ℤ}
use tok.Core.Types.{Time}

pub record Signer : Type 0 where
  pub hmac : String → String → String
  pub parse_time : String → Option Time

-- `CallbackEvent`; the payload is its JSON text.
pub record CallbackEvent : Type 0 where
  pub kind : String
  pub job_id : String
  pub binding_id : String
  pub timestamp : String
  pub signature : String
  pub payload : String

pub data VerifyError : Type 0 where
  missing_secret missing_signature invalid_signature invalid_timestamp expired : VerifyError

-- `SignCallback`
unfoldable pub sign_callback : Signer → String → CallbackEvent → String
sign_callback g secret e =
    g.hmac secret (e.kind <> "|" <> e.job_id <> "|" <> e.binding_id <> "|" <> e.timestamp)

-- `CallbackMaxAge` and `MaxProofAge`: five minutes in nanoseconds.
abbrev pub max_age : ℕ
max_age = 300000000000

-- The end of `VerifyCallback` and of `Verify`: the signature, then the age.
abbrev pub verify_signed : Signer → String → String → String → Time → Option VerifyError
verify_signed g expected signature timestamp now =
    if not (expected == signature) then some invalid_signature else elim (g.parse_time timestamp) [
      | none ↦ some invalid_timestamp
      | some at ↦ if ltb (at + max_age) now then some expired else none
    ]

-- `VerifyCallback`
unfoldable pub verify_callback : Signer → String → CallbackEvent → Time → Option VerifyError
unfolding is_blank sign_callback
verify_callback g secret e now =
    if secret == ""
    then (if is_blank e.signature then none else some missing_secret)
    else if is_blank e.signature
    then some missing_signature
    else verify_signed g (sign_callback g secret e) e.signature e.timestamp now

-- `Proof`
pub record Proof : Type 0 where
  pub execution_id : String
  pub milestone_id : String
  pub kind : String
  pub amount_cents : ℤ
  pub timestamp : String
  pub signature : String

-- `Sign`
unfoldable pub sign_proof : Signer → String → Proof → String
unfolding decimal_ℤ
sign_proof g secret p = g.hmac secret (
    p.execution_id
    <> "|"
    <> p.milestone_id
    <> "|"
    <> p.kind
    <> "|"
    <> decimal_ℤ p.amount_cents
    <> "|"
    <> p.timestamp)

-- `Verify`
unfoldable pub verify_proof : Signer → String → Proof → Time → Option VerifyError
unfolding is_blank sign_proof
verify_proof g secret p now =
    if is_blank secret
    then none
    else if is_blank p.signature
    then some missing_signature
    else verify_signed g (sign_proof g secret p) p.signature p.timestamp now

-- `canonicalEventNames`
abbrev canonical_event_names : Dict String
canonical_event_names =
    ("execution_accepted", "execution.accepted")
    ∷ ("execution_started", "execution.started")
    ∷ ("execution_heartbeat", "execution.heartbeat")
    ∷ ("execution_completed", "execution.completed")
    ∷ ("execution_failed", "execution.failed")
    ∷ ("execution_paused", "execution.paused")
    ∷ ("execution_resumed", "execution.resumed")
    ∷ ("execution_pause_requested", "execution.pause_requested")
    ∷ ("milestone_started", "milestone.started")
    ∷ ("milestone_ready", "milestone.ready")
    ∷ ("usage_reported", "usage.reported")
    ∷ ("artifact_ready", "artifact.ready")
    ∷ ("budget_low", "budget.low")
    ∷ []

-- `strings.ReplaceAll(s, "_", ".")`
unfoldable pub dotted : String → String
dotted String.[] = ""
dotted (String.◌∷◌ c s) = String.◌∷◌ (if eqb (code c) 95 then "." else c) (dotted s)

-- `NormalizeEventName`
unfoldable pub normalize_event_name : String → String
unfolding get has_code dotted
normalize_event_name name = elim (get name canonical_event_names) [
  | some canonical ↦ canonical
  | none ↦ if has_code 46 name then name else dotted name
]
