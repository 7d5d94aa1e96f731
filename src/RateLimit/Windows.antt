-- ===== src/RateLimit/Windows.antt =====
-- Sequences of calls of the memory store of internal/ratelimit/service.go, and how many of them a
-- window allows.
use tok.Prelude.{
  ℕ, suc, ◌-◌, ◌≤◌, ◌<◌, ◌≡◌, refl, ap, ◌∙◌, inl, inr, ℤ, pos, Bool, true, false, ◌||◌, ◌&&◌,
  Option, some, none, List, [], ◌∷◌, All, String, ◌==◌, eq_iff, eq_refl, arith, Bool-cases,
  if◌then◌else◌, leb, eqb,
}
use tok.Prelude.Dict.{get, get-put, get-put_self}
use tok.Core.Types.{Time}
use tok.RateLimit.Service.{
  MemoryStore, Entry, Decision, allow_key, counted, decision_of, add_duration,
}

-- The arguments of `MemoryStore.Allow`.
pub record Request : Type 0 where
  pub key : String
  pub limit : ℤ
  pub window : ℤ
  pub now : Time

abbrev pub ask : Request → MemoryStore → Decision × MemoryStore
ask q s = allow_key q.key q.limit q.window q.now s

unfoldable pub store_after : List Request → MemoryStore → MemoryStore
unfolding allow_key
store_after [] s = s
store_after (q ∷ qs) s = store_after qs (ask q s).1

-- The calls for a key, and how many of them are allowed.
abbrev pub calls_of : String → List Request → ℕ
calls_of key [] = 0
calls_of key (q ∷ qs) = if q.key == key then suc (calls_of key qs) else calls_of key qs

unfoldable pub allowed_of : String → List Request → MemoryStore → ℕ
unfolding allow_key
allowed_of key [] s = 0
allowed_of key (q ∷ qs) s =
    let rest = allowed_of key qs (ask q s).1 in
    if q.key == key && (ask q s).0.allowed then suc rest else rest

abbrev pub smaller : ℕ → ℕ → ℕ
smaller m n = if leb m n then m else n

-- No window is open for the key.
abbrev pub has_ended : Option Entry → Time → Bool
has_ended none now = true
has_ended (some e) now = eqb e.reset_at 0 || leb e.reset_at now

abbrev pub HaveLimit : String → ℕ → Request → Type 0
HaveLimit key limit q = (q.key == key) ≡ true → q.limit ≡ pos limit

-- A call for another key leaves the entry alone.
get-ask_other :
    (key : String) (q : Request) (s : MemoryStore)
    → (q.key == key) ≡ false
    → get key (ask q s).1 ≡ get key s
unfolding allow_key
get-ask_other key q s other =
    ground (arith, get-put q.key key (counted (get q.key s) q.window q.now) s)

-- A call for the key, inside its window, counts one more in the same window.
get-ask_same :
    (key : String) (q : Request) (s : MemoryStore) (e : Entry)
    → (q.key == key) ≡ true
    → get key s ≡ some e
    → q.now < e.reset_at
    → get key (ask q s).1 ≡ some (record e { count = suc e.count })
unfolding allow_key
get-ask_same key q s e same found inside =
    let is_key : q.key ≡ key = ground (arith, eq_iff q.key key) in
    let open_ : (eqb e.reset_at 0 || leb e.reset_at q.now) ≡ false = ground arith in
    rw (is_key, found, open_) (get-put_self key (record e { count = suc e.count }) s)

allowed-ask_same :
    (key : String) (q : Request) (s : MemoryStore) (e : Entry) (limit : ℕ)
    → (q.key == key) ≡ true
    → get key s ≡ some e
    → q.now < e.reset_at
    → q.limit ≡ pos limit
    → (ask q s).0.allowed ≡ leb (suc e.count) limit
unfolding allow_key
allowed-ask_same key q s e limit same found inside limited =
    let is_key : q.key ≡ key = ground (arith, eq_iff q.key key) in
    let open_ : (eqb e.reset_at 0 || leb e.reset_at q.now) ≡ false = ground arith in
    rw (is_key, found, open_, limited) (ground arith)

-- Inside a window the calls for its key are allowed until the limit is reached.
allowed_inside :
    (key : String) (limit : ℕ) (qs : List Request) (s : MemoryStore) (e : Entry)
    → get key s ≡ some e
    → All (λ q. q.now < e.reset_at) qs
    → All (HaveLimit key limit) qs
    → allowed_of key qs s ≡ smaller (limit - e.count) (calls_of key qs)
unfolding allowed_of
allowed_inside key limit [] s e found inside limited = ground arith
allowed_inside key limit (q ∷ qs) s e found (now, inside) (here, limited) =
    elim (Bool-cases (q.key == key)) [
      | inl same ↦
          let rest =
            allowed_inside key limit qs (ask q s).1 (record e { count = suc e.count })
              (get-ask_same key q s e same found now) inside limited in
          rw (same, rest, allowed-ask_same key q s e limit same found now (here same))
            (ground arith)
      | inr other ↦ rw other (
          allowed_inside key limit qs (ask q s).1 e (get-ask_other key q s other ∙ found) inside
            limited)
    ]

-- The call that opens a window.
abbrev opened : Request → Entry
opened q = record { count = 1; reset_at = add_duration q.now q.window }

counted_opens :
    (o : Option Entry) (q : Request)
    → has_ended o q.now ≡ true
    → counted o q.window q.now ≡ opened q
counted_opens none q h = refl
counted_opens (some e) q h = rw h refl

get-ask_opens :
    (q : Request) (s : MemoryStore)
    → has_ended (get q.key s) q.now ≡ true
    → get q.key (ask q s).1 ≡ some (opened q)
unfolding allow_key
get-ask_opens q s h = rw (counted_opens (get q.key s) q h) (get-put_self q.key (opened q) s)

allowed-ask_opens :
    (q : Request) (s : MemoryStore) (limit : ℕ)
    → has_ended (get q.key s) q.now ≡ true
    → q.limit ≡ pos limit
    → (ask q s).0.allowed ≡ leb 1 limit
unfolding allow_key
allowed-ask_opens q s limit h limited =
    ap (λ e. (decision_of q.limit q.now e).allowed) (counted_opens (get q.key s) q h)
    ∙ rw limited (ground arith)

-- When no window is open for a key, a call for it opens one, and of this call and all calls
-- before the window ends, exactly the first ones for the key up to the limit are allowed, as
-- many as there are below it, whatever is asked for other keys meanwhile; the calls for the key
-- all give that limit.
pub allowed_in_window :
    (q : Request) (qs : List Request) (s : MemoryStore) (limit : ℕ)
    → has_ended (get q.key s) q.now ≡ true
    → q.limit ≡ pos limit
    → All (λ r. r.now < add_duration q.now q.window) qs
    → All (HaveLimit q.key limit) qs
    → allowed_of q.key (q ∷ qs) s ≡ smaller limit (calls_of q.key (q ∷ qs))
unfolding allowed_of
allowed_in_window q qs s limit ended first inside limited =
    let rest =
      allowed_inside q.key limit qs (ask q s).1 (opened q) (get-ask_opens q s ended) inside
        limited in
    rw (eq_refl q.key, rest, allowed-ask_opens q s limit ended first) (ground arith)

-- The entry of a key keeps its end while the window lasts.
kept_open :
    (key : String) (qs : List Request) (s : MemoryStore) (e : Entry)
    → get key s ≡ some e
    → All (λ q. q.now < e.reset_at) qs
    → (e' : Entry) × (get key (store_after qs s) ≡ some e') × (e'.reset_at ≡ e.reset_at)
unfolding store_after
kept_open key [] s e found inside = (e, found, refl)
kept_open key (q ∷ qs) s e found (now, inside) = elim (Bool-cases (q.key == key)) [
  | inl same ↦
      kept_open key qs (ask q s).1 (record e { count = suc e.count })
        (get-ask_same key q s e same found now) inside
  | inr other ↦ kept_open key qs (ask q s).1 e (get-ask_other key q s other ∙ found) inside
]

-- A call for a key at the reset time of an earlier decision for it, or later, is allowed if its
-- limit is positive and no call after that decision was made at or after its reset time.
pub retry_succeeds :
    (q : Request) (qs : List Request) (again : Request) (s : MemoryStore) (limit : ℕ)
    → All (λ r. r.now < (ask q s).0.reset_at) qs
    → again.key ≡ q.key
    → again.limit ≡ pos (suc limit)
    → (ask q s).0.reset_at ≤ again.now
    → (ask again (store_after qs (ask q s).1)).0.allowed ≡ true
unfolding allow_key
retry_succeeds q qs again s limit inside same limited late =
    let stored = get-put_self q.key (counted (get q.key s) q.window q.now) s in
    let (e, found, ends) = kept_open q.key qs (ask q s).1 _ stored inside in
    let ended : has_ended (get again.key (store_after qs (ask q s).1)) again.now ≡ true =
      rw (same, found) (ground arith) in
    allowed-ask_opens again (store_after qs (ask q s).1) (suc limit) ended limited ∙ ground arith
