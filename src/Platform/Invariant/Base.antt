-- ===== src/Platform/Invariant/Base.antt =====
-- The invariant of the store, and the steps that the operations share.
use tok.Prelude.{
  Bool, true, false, ◌≡◌, refl, Option, some, none, String, List, ◌==◌, eq_iff, arith, inl, inr,
  Bool-cases, ◌⊎◌, ap, sym, ◌∙◌,
}
use tok.Prelude.Dict.{get, put, get-put}
use tok.Core.Types.{Order}
use tok.Core.Order
use tok.Core.Soundness.{IsSound}
use tok.Platform.App.State.{
  App, M, Result, ok, err, Error, Value, pure, gets, from_option, lift_order, fail_if, modify, when,
  ◌>>=◌, now, publish, notify, order_not_found,
}
use tok.Platform.App.Repositories.{save_order, get_order, lookup_order}
use tok.Platform.Triples.{
  Triple, Post, IsStable, bind, weaken, pure_triple, gets_triple, from_option_triple,
  lift_order_triple, fail_if_triple, modify_triple, when_triple, now_triple, publish_triple,
  notify_triple,
}

-- Every stored order is sound, and stands under its own id.
pub record AllSound (a : App) : Type 0 where
  pub stored : (id : String) (o : Order) → lookup_order id a ≡ some o → IsSound o × (o.id ≡ id)

pub AllSound-stable : IsStable AllSound
AllSound-stable = record {
  calls = λ a n s. record { stored = s.stored };
  published = λ a n ps s. record { stored = s.stored };
  notified = λ a ns s. record { stored = s.stored };
}

-- Saving a sound order keeps the invariant.
pub save_order-AllSound : (o : Order) (a : App) → IsSound o → AllSound a → AllSound (save_order o a)
unfolding save_order
save_order-AllSound o a so s = record { stored = λ id x e. go id x (Bool-cases (o.id == id)) e }
  where
    go :
        (id : String) (x : Order)
        → (o.id == id ≡ true) ⊎ (o.id == id ≡ false)
        → get id (put o.id o a.orders.items) ≡ some x
        → IsSound x × (x.id ≡ id)
    go id x (inl same) e =
        let eq : o ≡ x = ground (arith, get-put o.id id o a.orders.items) in
        (rw eq at so, rw eq at ((eq_iff o.id id).0 same))
    go id x (inr other) e = s.stored id x (ground (arith, get-put o.id id o a.orders.items))

-- The operation keeps the invariant, whether it succeeds or fails.
abbrev pub Keeps : {A : Type 0} → M A → Type 0
Keeps m = Triple AllSound m (λ _. AllSound) AllSound

-- A step with a fact about its result.
abbrev pub Gives : {A : Type 0} → M A → (A → Type 0) → Type 0
Gives m F = Triple AllSound m (λ x a. AllSound a × F x) AllSound

module _ {A B : Type 0} {m : M A} {f : A → M B} where
  pub andthen : Keeps m → ((x : A) → Keeps (f x)) → Keeps (m >>= f)
  andthen first next = bind first next

  pub using : {F : A → Type 0} → Gives m F → ((x : A) → F x → Keeps (f x)) → Keeps (m >>= f)
  using first next = bind first λ x. record { run = λ a p. (next x p.1).run a p.0 }

module _ {A : Type 0} where
  pub keep_pure : (x : A) → Keeps (pure x)
  keep_pure x = pure_triple x λ a s. s

  pub keep_gets : (f : App → A) → Keeps (gets f)
  keep_gets f = gets_triple f λ a s. s

  pub keep_from_option : (o : Option A) (e : Error) → Keeps (from_option o e)
  keep_from_option o e = from_option_triple o e (λ a s. s) (λ x _ a s. s)

  pub give_lift_order : (r : Order.Result A) → Gives (lift_order r) (λ x. r ≡ Order.ok x)
  give_lift_order r = lift_order_triple r (λ a s. s) (λ x e a s. (s, e))

pub keep_fail_if : (b : Bool) (e : Error) → Keeps (fail_if b e)
keep_fail_if b e = fail_if_triple b e (λ a s. s) (λ _ a s. s)

pub keep_modify : (f : App → App) → ((a : App) → AllSound a → AllSound (f a)) → Keeps (modify f)
keep_modify f h = modify_triple f h

pub keep_when : (b : Bool) {m : M (Unit {0})} → Keeps m → Keeps (when b m)
keep_when b t = when_triple b t (λ _ a s. s)

pub keep_now : Keeps now
keep_now = now_triple AllSound-stable

pub keep_publish :
    (subject : String) (payload : List (String × Value)) → Keeps (publish subject payload)
keep_publish subject payload = publish_triple AllSound-stable subject payload

pub keep_notify :
    (event target : String) (payload : List (String × Value)) → Keeps (notify event target payload)
keep_notify event target payload = notify_triple AllSound-stable event target payload

pub give_order : (id : String) → Gives (get_order id) (λ o. IsSound o × (o.id ≡ id))
unfolding get_order
give_order id = record { run = λ a s. go a s (lookup_order id a) (λ o e. s.stored id o e) }
  where
    go :
        (a : App)
        → AllSound a
        → (r : Option Order) → ((o : Order) → r ≡ some o → IsSound o × (o.id ≡ id))
        → Post
            (λ o a. AllSound a × (IsSound o × (o.id ≡ id)))
            AllSound
            (elim r as (λ _. Result Order × App) [
              | none ↦ (err order_not_found, a)
              | some o ↦ (ok o, a)
            ])
    go a s none h = s
    go a s (some o) h = (s, h o refl)

pub keep_get_order : (id : String) → Keeps (get_order id)
keep_get_order id = weaken (λ a p. p) (λ x a q. q.0) (λ a e. e) (give_order id)

-- An operation that keeps the orders, whatever else it writes, keeps the invariant.
pub keep_same_orders :
    {A : Type 0} (m : M A) → ((a : App) → (m a).1.orders.items ≡ a.orders.items) → Keeps m
keep_same_orders {A} m same = record {
  run = λ a s.
      go (m a) (record { stored = λ id o e. s.stored id o (ap (get id) (sym (same a)) ∙ e) });
}
  where
    go : (r : Result A × App) → AllSound r.1 → Post (λ _. AllSound) AllSound r
    go (ok x, a') s = s
    go (err e, a') s = s
