-- ===== src/RateLimit/Service.antt =====
-- internal/ratelimit/service.go: the memory store and the service. A time is in nanoseconds, as is
-- a duration; the counter is not bounded. The clock is an argument, and `none` is a nil service or
-- store.
use tok.Prelude.{
  ℕ, suc, ◌+◌, ◌-◌, ◌/◌, ℤ, pos, negsuc, Bool, true, false, not, ◌||◌, Option, some, none, List, [],
  ◌∷◌, ◌++◌, String, if◌then◌else◌, leb, eqb, ltb_ℤ, leb_ℤ, ◌-ℤ◌,
}
use tok.Prelude.Dict.{Dict, get, put}
use tok.Prelude.Blank.{is_blank}
use tok.Prelude.Trim.{trim}
use tok.Prelude.Format.{◌<>◌, decimal_ℤ}
use tok.Core.Types.{Time}

pub data ScopePart : Type 0 where
  ip subject org user : ScopePart

pub record Meta : Type 0 where
  pub ip : String
  pub subject_hash : String
  pub org_id : String
  pub user_id : String

pub record PolicyConfig : Type 0 where
  pub limit : ℤ
  pub window : ℤ
  pub scope : List ScopePart

pub record Decision : Type 0 where
  pub allowed : Bool
  pub limit : ℤ
  pub remaining : ℤ
  pub reset_at : Time
  pub retry_after : ℤ

-- `memoryEntry`
pub record Entry : Type 0 where
  pub count : ℕ
  pub reset_at : Time

-- `MemoryStore`
abbrev pub MemoryStore : Type 0
MemoryStore = Dict Entry

pub record Service : Type 0 where
  pub enforce : Bool
  pub store : Option MemoryStore
  pub policies : Dict PolicyConfig

-- `time.Time.Add`
abbrev pub add_duration : Time → ℤ → Time
add_duration t (pos n) = t + n
add_duration t (negsuc n) = t - suc n

-- `maxInt` and `maxDuration`
abbrev pub at_least : ℤ → ℤ → ℤ
at_least value low = if ltb_ℤ value low then low else value

-- The entry that the call counts in: that of the key, or a new one when its window has ended.
abbrev pub current_entry : Option Entry → ℤ → Time → Entry
current_entry none window now = record { count = 0; reset_at = add_duration now window }
current_entry (some e) window now =
    if eqb e.reset_at 0 || leb e.reset_at now
    then record { count = 0; reset_at = add_duration now window }
    else e

abbrev pub counted : Option Entry → ℤ → Time → Entry
counted e window now =
    let current = current_entry e window now in record current { count = suc current.count }

abbrev pub decision_of : ℤ → Time → Entry → Decision
decision_of limit now e = record {
  allowed = leb_ℤ (pos e.count) limit;
  limit = limit;
  remaining = at_least (limit -ℤ pos e.count) (pos 0);
  reset_at = e.reset_at;
  retry_after = at_least (pos e.reset_at -ℤ pos now) (pos 0);
}

-- `MemoryStore.Allow`
unfoldable pub allow_key : String → ℤ → ℤ → Time → MemoryStore → Decision × MemoryStore
unfolding get put ◌-ℤ◌
allow_key key limit window now s =
    let e = counted (get key s) window now in (decision_of limit now e, put key e s)

-- `fallback`
abbrev pub fallback : String → String
fallback value = if is_blank value then "unknown" else trim value

abbrev pub part_of : Meta → ScopePart → String
part_of m ip = ":ip:" <> fallback m.ip
part_of m subject = ":subject:" <> fallback m.subject_hash
part_of m org = ":org:" <> fallback m.org_id
part_of m user = ":user:" <> fallback m.user_id

abbrev pub joined_parts : Meta → List ScopePart → String
joined_parts m [] = ""
joined_parts m (p ∷ ps) = part_of m p <> joined_parts m ps

-- `buildKey`
unfoldable pub build_key : String → List ScopePart → Meta → String
unfolding is_blank trim
build_key policy scope m = "rate:" <> policy <> joined_parts m scope

abbrev unlimited : Decision
unlimited = record {
  allowed = true;
  limit = pos 0;
  remaining = pos 0;
  reset_at = 0;
  retry_after = pos 0;
}

abbrev is_off : PolicyConfig → Bool
is_off c = leb_ℤ c.limit (pos 0) || leb_ℤ c.window (pos 0)

abbrev allow_in :
    PolicyConfig → String → Meta → Time → Service → MemoryStore → Decision × Option Service
allow_in c policy m now s store =
    let (d, store') = allow_key (build_key policy c.scope m) c.limit c.window now store in
    (d, some (record s { store = some store' }))

abbrev allow_policy :
    Option PolicyConfig → String → Meta → Time → Service → MemoryStore → Decision × Option Service
allow_policy none policy m now s store = (unlimited, some s)
allow_policy (some c) policy m now s store =
    if is_off c then (unlimited, some s) else allow_in c policy m now s store

abbrev allow_stored :
    Option MemoryStore → String → Meta → Time → Service → Decision × Option Service
allow_stored none policy m now s = (unlimited, some s)
allow_stored (some store) policy m now s =
    if not s.enforce
    then (unlimited, some s)
    else allow_policy (get policy s.policies) policy m now s store

-- `Service.Allow`
unfoldable pub allow : String → Meta → Time → Option Service → Decision × Option Service
unfolding allow_key build_key get
allow policy m now none = (unlimited, none)
allow policy m now (some s) = allow_stored s.store policy m now s

-- Whole seconds, rounded half up, of a duration that is not negative.
abbrev seconds : ℤ → ℤ
seconds (pos n) = pos ((n + 500000000) / 1000000000)
seconds (negsuc n) = pos 0

abbrev header_if : Bool → String → String → List (String × String)
header_if true name value = (name, value) ∷ []
header_if false name value = []

-- `Decision.Headers`; `unix` is the Unix time of an instant, in seconds.
unfoldable pub headers : (Time → ℤ) → Time → Decision → List (String × String)
unfolding decimal_ℤ ◌-ℤ◌
headers unix now d =
    let has_reset = not (eqb d.reset_at 0) in
    let left = at_least (pos d.reset_at -ℤ pos now) (pos 0) in
    let soon = ltb_ℤ (pos 0) d.retry_after in
    header_if (ltb_ℤ (pos 0) d.limit) "X-RateLimit-Limit" (decimal_ℤ d.limit)
    ++ header_if true "X-RateLimit-Remaining" (decimal_ℤ (at_least d.remaining (pos 0)))
    ++ header_if has_reset "X-RateLimit-Reset" (decimal_ℤ (unix d.reset_at))
    ++ header_if (soon || has_reset) "Retry-After"
        (decimal_ℤ (seconds (if soon then d.retry_after else left)))
