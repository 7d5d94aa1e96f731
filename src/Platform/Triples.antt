-- ===== src/Platform/Triples.antt =====
-- Triples about the operations: what holds of the state before, and of the result and the state
-- after. `E` is what holds of the state when the operation fails.
use tok.Prelude.{
  subst, ℕ, Bool, true, false, ◌≡◌, refl, Option, some, none, if◌then◌else◌, String, List,
}
use tok.Core.Order
use tok.Platform.App.State.{
  App, M, Result, ok, err, Error, Value, pure, gets, from_option, lift_order, fail_if, modify, when,
  continue, ◌>>=◌, Publication, Notification, now, publish, notify,
}

abbrev pub Post : {A : Type 0} → (A → App → Type 0) → (App → Type 0) → Result A × App → Type 0
Post Q E (ok x, a) = Q x a
Post Q E (err e, a) = E a

pub record Triple {A : Type 0} (P : App → Type 0) (m : M A) (Q : A → App → Type 0)
    (E : App → Type 0) : Type 0 where
  pub run : (a : App) → P a → Post Q E (m a)

-- The sequence of two steps.
pub bind :
    {A B : Type 0} {P : App → Type 0} {m : M A} {f : A → M B} {Q : A → App → Type 0}
    {R : B → App → Type 0} {E : App → Type 0}
    → Triple P m Q E
    → ((x : A) → Triple (Q x) (f x) R E)
    → Triple P (m >>= f) R E
unfolding ◌>>=◌
bind {A} {B} {P} {m} {f} {Q} {R} {E} first next = record { run = λ a p. go (m a) (first.run a p) }
  where
    go : (r : Result A × App) → Post Q E r → Post R E (continue r.0 f r.1)
    go (ok x, a') q = (next x).run a' q
    go (err e, a') q = q

module _ {A : Type 0} {P : App → Type 0} {Q : A → App → Type 0} {E : App → Type 0} where
  pub pure_triple : (x : A) → ((a : App) → P a → Q x a) → Triple P (pure x) Q E
  unfolding pure
  pure_triple x h = record { run = h }

  pub gets_triple : (f : App → A) → ((a : App) → P a → Q (f a) a) → Triple P (gets f) Q E
  unfolding gets
  gets_triple f h = record { run = h }

  pub from_option_triple :
      (o : Option A) (e : Error)
      → ((a : App) → P a → E a)
      → ((x : A) → o ≡ some x → (a : App) → P a → Q x a)
      → Triple P (from_option o e) Q E
  unfolding from_option
  from_option_triple none e h k = record { run = h }
  from_option_triple (some x) e h k = record { run = k x refl }

  pub lift_order_triple :
      (r : Order.Result A)
      → ((a : App) → P a → E a)
      → ((x : A) → r ≡ Order.ok x → (a : App) → P a → Q x a)
      → Triple P (lift_order r) Q E
  unfolding lift_order
  lift_order_triple (Order.ok x) h k = record { run = k x refl }
  lift_order_triple (Order.err e) h k = record { run = h }

  -- Strengthen what holds before, weaken what holds after.
  pub weaken :
      {m : M A} {P' : App → Type 0} {Q' : A → App → Type 0} {E' : App → Type 0}
      → ((a : App) → P a → P' a)
      → ((x : A) (a : App) → Q' x a → Q x a)
      → ((a : App) → E' a → E a)
      → Triple P' m Q' E'
      → Triple P m Q E
  weaken {m} {P'} {Q'} {E'} before after failed t = record {
    run = λ a p. go (m a) (t.run a (before a p));
  }
    where
      go : (r : Result A × App) → Post Q' E' r → Post Q E r
      go (ok x, a') q = after x a' q
      go (err e, a') q = failed a' q

module _ {P : App → Type 0} {Q : Unit {0} → App → Type 0} {E : App → Type 0} where
  pub fail_if_triple :
      (b : Bool) (e : Error)
      → ((a : App) → P a → E a)
      → (b ≡ false → (a : App) → P a → Q tt a)
      → Triple P (fail_if b e) Q E
  unfolding fail_if
  fail_if_triple true e h k = record { run = h }
  fail_if_triple false e h k = record { run = k refl }

  pub modify_triple : (f : App → App) → ((a : App) → P a → Q tt (f a)) → Triple P (modify f) Q E
  unfolding modify
  modify_triple f h = record { run = h }

  pub when_triple :
      (b : Bool) {m : M (Unit {0})}
      → Triple P m Q E
      → (b ≡ false → (a : App) → P a → Q tt a)
      → Triple P (when b m) Q E
  unfolding when
  when_triple true t k = record { run = t.run }
  when_triple false t k = record { run = k refl }

-- A property that the bookkeeping of an operation leaves alone: reading the clock, and logging
-- what is published and notified.
pub record IsStable (P : App → Type 0) : Type 0 where
  pub calls : (a : App) (n : ℕ) → P a → P (record a { calls = n })
  pub published :
      (a : App) (n : ℕ) (ps : List Publication) → P a → P (record a { calls = n; published = ps })
  pub notified : (a : App) (ns : List Notification) → P a → P (record a { notified = ns })

module _ {P : App → Type 0} (stable : IsStable P) where
  pub now_triple : {E : App → Type 0} → Triple P now (λ _. P) E
  unfolding now
  now_triple = record { run = λ a p. stable.calls a _ p }

  pub publish_triple :
      (subject : String) (payload : List (String × Value))
      → Triple P (publish subject payload) (λ _. P) P
  unfolding publish
  publish_triple subject payload = record {
    run = λ a p. go a (a.environment.publisher a.calls _) (stable.published a _ _ p);
  }
    where
      go :
          (a : App) (b : Bool) {a' : App}
          → P a'
          → Post (λ _. P) P (if b then ok tt else err Error.publish_failed, a')
      go a true p = p
      go a false p = p

  pub notify_triple :
      {E : App → Type 0} (event target : String) (payload : List (String × Value))
      → Triple P (notify event target payload) (λ _. P) E
  unfolding notify
  notify_triple event target payload = record {
    run = λ a p. go a a.environment.has_notifier p (stable.notified a _ p);
  }
    where
      go : (a : App) (b : Bool) {a' : App} → P a → P a' → P (if b then a' else a)
      go a true p q = q
      go a false p q = p

-- Nothing is asked of a state.
abbrev pub Any : App → Type 0
Any a = Unit {0}

pub Any-triple : {A : Type 0} (m : M A) → Triple Any m (λ _. Any) Any
Any-triple {A} m = record { run = λ a _. go (m a) }
  where
    go : (r : Result A × App) → Post (λ _ _. Unit) (λ _. Unit) r
    go (ok x, a) = tt
    go (err e, a) = tt

-- What is known of the state alone becomes a hypothesis.
pub known :
    {A : Type 0} {K : Type 0} {m : M A} {Q : A → App → Type 0}
    → (K → Triple Any m Q Any)
    → Triple (λ a. K) m Q Any
known t = record { run = λ a k. (t k).run a tt }

pub result_of :
    {A : Type 0} (Q : A → App → Type 0) (x : A) (a : App) (r : Result A × App)
    → Post Q Any r
    → r ≡ (ok x, a)
    → Q x a
result_of Q x a r post h = subst (Post Q Any) h post
