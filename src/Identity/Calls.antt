-- ===== src/Identity/Calls.antt =====
-- Sequences of calls of the memory store of internal/identity, and what they keep of an account.
use tok.Prelude.{
  ℕ, suc, ◌≤◌, ◌≡◌, ◌≢◌, refl, ap, ◌∙◌, ◌⊎◌, inl, inr, false, some, none, List, [], ◌∷◌, String,
  ◌==◌, numbered, arith, Bool-cases, Option-cases,
}
use tok.Prelude.Dict.{get, get-put_ne}
use tok.Core.Types.{Time}
use tok.Identity.Store.{
  User, ActorProfile, Signup, NewSession, Store, ok, create_signup, email_key, signed_up,
  create_session, revoke_session,
}

-- A call that may change the store, with its time.
pub data Call : Type 0 where
  sign_up : Signup → Time → Call
  open_session : NewSession → Time → Call
  revoke : String → Time → Call

abbrev pub store_after : Call → Store → Store
store_after (sign_up input now) s = (create_signup input now s).1
store_after (open_session input now) s = (create_session input now s).1
store_after (revoke digest now) s = (revoke_session digest now s).1

unfoldable pub run : List Call → Store → Store
unfolding create_signup create_session revoke_session
run [] s = s
run (x ∷ xs) s = run xs (store_after x s)

-- A session changes nothing but the sessions.
abbrev pub SameAccounts : Store → Store → Type 0
SameAccounts s t =
    (t.to_lower ≡ s.to_lower)
    × (t.user_seq ≡ s.user_seq)
    × (t.users_by_id ≡ s.users_by_id)
    × (t.user_ids_by_email ≡ s.user_ids_by_email)
    × (t.memberships_by_user_id ≡ s.memberships_by_user_id)

pub create_session-SameAccounts :
    (input : NewSession) (now : Time) (s : Store) → SameAccounts s (create_session input now s).1
unfolding create_session
create_session-SameAccounts input now s = elim (Option-cases (get input.user_id s.users_by_id)) [
  | inl missing ↦ rw (create_session, missing) (refl, refl, refl, refl, refl)
  | inr (u, known) ↦ rw (create_session, known) (refl, refl, refl, refl, refl)
]

pub revoke_session-SameAccounts :
    (digest : String) (now : Time) (s : Store) → SameAccounts s (revoke_session digest now s).1
unfolding revoke_session
revoke_session-SameAccounts digest now s = elim (Option-cases (get digest s.sessions_by_digest)) [
  | inl missing ↦ rw (revoke_session, missing) (refl, refl, refl, refl, refl)
  | inr (u, known) ↦ rw (revoke_session, known) (refl, refl, refl, refl, refl)
]

-- A signup is refused and changes nothing, or the address was free and the account is added.
pub signup_cases :
    (input : Signup) (now : Time) (s : Store)
    → ((create_signup input now s).1 ≡ s)
      ⊎ ((get (email_key s.to_lower input.email) s.user_ids_by_email ≡ none)
          × ((create_signup input now s).1 ≡ (signed_up input now s).1))
unfolding create_signup
signup_cases input now s = elim (Bool-cases (email_key s.to_lower input.email == "")) [
  | inl empty ↦ inl (rw (create_signup, empty) refl)
  | inr filled ↦ elim (Option-cases (get (email_key s.to_lower input.email) s.user_ids_by_email)) [
    | inl free ↦ inr (free, rw (create_signup, filled, free) refl)
    | inr (id, taken) ↦ inl (rw (create_signup, filled, taken) refl)
  ]
]

-- The user is found under the key, and no later user takes the id.
abbrev pub IsRegistered : String → User → Store → Type 0
IsRegistered key u s =
    (get key s.user_ids_by_email ≡ some u.id)
    × (get u.id s.users_by_id ≡ some u)
    × ((n : ℕ) → s.user_seq ≤ n → numbered "usr_" (suc n) ≢ u.id)

same-IsRegistered :
    (key : String) (u : User) (s t : Store)
    → SameAccounts s t
    → IsRegistered key u s
    → IsRegistered key u t
same-IsRegistered key u s t (lower, seq, users, emails, members) (by_email, by_id, later) =
    (rw emails by_email, rw users by_id, λ n h. later n (rw seq at h))

create_signup-IsRegistered :
    (key : String) (u : User) (input : Signup) (now : Time) (s : Store)
    → IsRegistered key u s
    → IsRegistered key u (create_signup input now s).1
create_signup-IsRegistered key u input now s (by_email, by_id, later) =
    elim (signup_cases input now s) [
      | inl unchanged ↦ rw unchanged (by_email, by_id, later)
      | inr (free, added) ↦
          let other_key : email_key s.to_lower input.email ≢ key =
            (λ e. absurd (ground (arith, ap (λ k. get k s.user_ids_by_email) e))) in
          rw added (
            get-put_ne _ key _ s.user_ids_by_email other_key ∙ by_email,
            get-put_ne _ u.id _ s.users_by_id (later s.user_seq (omega arith)) ∙ by_id,
            λ n h. later n (omega arith),
          )
    ]

pub run-IsRegistered :
    (key : String) (u : User) (xs : List Call) (s : Store)
    → IsRegistered key u s
    → IsRegistered key u (run xs s)
unfolding run
run-IsRegistered key u [] s h = h
run-IsRegistered key u (sign_up input now ∷ xs) s h =
    run-IsRegistered key u xs _ (create_signup-IsRegistered key u input now s h)
run-IsRegistered key u (open_session input now ∷ xs) s h =
    run-IsRegistered key u xs (create_session input now s).1 (
      same-IsRegistered key u s (create_session input now s).1
        (create_session-SameAccounts input now s) h)
run-IsRegistered key u (revoke digest now ∷ xs) s h =
    run-IsRegistered key u xs (revoke_session digest now s).1 (
      same-IsRegistered key u s (revoke_session digest now s).1
        (revoke_session-SameAccounts digest now s) h)

-- No call changes how letters are lowered.
pub run-to_lower : (xs : List Call) (s : Store) → (run xs s).to_lower ≡ s.to_lower
unfolding run
run-to_lower [] s = refl
run-to_lower (sign_up input now ∷ xs) s =
    run-to_lower xs (create_signup input now s).1 ∙ elim (signup_cases input now s) [
      | inl unchanged ↦ rw unchanged refl
      | inr (free, added) ↦ rw added refl
    ]
run-to_lower (open_session input now ∷ xs) s =
    run-to_lower xs (create_session input now s).1 ∙ (create_session-SameAccounts input now s).0
run-to_lower (revoke digest now ∷ xs) s =
    run-to_lower xs (revoke_session digest now s).1 ∙ (revoke_session-SameAccounts digest now s).0

-- What a signup that succeeds did.
pub signup_ok :
    (input : Signup) (now : Time) (s s' : Store) (p : ActorProfile)
    → create_signup input now s ≡ (ok p, s')
    → (p ≡ (signed_up input now s).0)
      × (s' ≡ (signed_up input now s).1)
      × ((email_key s.to_lower input.email == "") ≡ false)
unfolding create_signup
signup_ok input now s s' p h = elim (Bool-cases (email_key s.to_lower input.email == "")) [
  | inl empty ↦ absurd (ground arith)
  | inr filled ↦ elim (Option-cases (get (email_key s.to_lower input.email) s.user_ids_by_email)) [
    | inr (id, taken) ↦ absurd (ground arith)
    | inl free ↦ (ground arith, ground arith, filled)
  ]
]
