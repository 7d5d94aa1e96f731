-- ===== src/Identity/Accounts.antt =====
-- The memory store of internal/identity: an account, once made, stays, and a session leads to it.
use tok.Prelude.{
  ℕ, suc, ◌≤◌, ◌≡◌, refl, ap, ◌∙◌, inl, inr, false, some, none, List, [], ◌∷◌, ◌++◌, String, ◌==◌,
  numbered, numbered_inj, arith,
}
use tok.Prelude.Dict.{Dict, get, put, get-put_self, get-put_ne}
use tok.Prelude.Trim.{trim}
use tok.Core.Types.{Time}
use tok.Identity.Store.{
  User, Session, ActorProfile, Signup, NewSession, Store, ok, err, conflict, new_store,
  create_signup, email_key, new_user, new_organization, signed_up, find_user_by_email,
  create_session, new_session, get_authenticated_actor, revoke_session, or_empty, actor_memberships,
  Membership, new_membership, actor_of, Organization,
}
use tok.Identity.Calls.{
  Call, sign_up, open_session, revoke, run, SameAccounts, create_session-SameAccounts,
  revoke_session-SameAccounts, signup_cases, IsRegistered, run-IsRegistered, run-to_lower,
  signup_ok,
}

signed_up-IsRegistered :
    (input : Signup) (now : Time) (s : Store)
    → IsRegistered
        (email_key s.to_lower input.email)
        (new_user s.to_lower input s.user_seq now)
        (signed_up input now s).1
signed_up-IsRegistered input now s =
    let u = new_user s.to_lower input s.user_seq now in
    (
      get-put_self (email_key s.to_lower input.email) u.id s.user_ids_by_email,
      get-put_self u.id u s.users_by_id,
      λ n h e. absurd (omega (arith, numbered_inj "usr_" (suc n) (suc s.user_seq) e)),
    )

find-IsRegistered :
    (email : String) (u : User) (s : Store)
    → IsRegistered (email_key s.to_lower email) u s
    → find_user_by_email email s ≡ ok u
unfolding find_user_by_email
find-IsRegistered email u s (by_email, by_id, later) = rw (find_user_by_email, by_email, by_id) refl

taken-IsRegistered :
    (input : Signup) (now : Time) (u : User) (s : Store)
    → (email_key s.to_lower input.email == "") ≡ false
    → IsRegistered (email_key s.to_lower input.email) u s
    → create_signup input now s ≡ (err conflict, s)
unfolding create_signup
taken-IsRegistered input now u s filled (by_email, by_id, later) =
    rw (create_signup, filled, by_email) refl

-- After a signup that succeeds and any calls of CreateSignup, CreateSession and RevokeSession,
-- the user is found under every address that strings.ToLower takes, trimmed, to the same text as
-- the trimmed address of the signup, and a second signup with such an address is refused and
-- changes nothing.
pub signup_stays :
    (input : Signup) (now : Time) (s s' : Store) (p : ActorProfile) (xs : List Call)
    → create_signup input now s ≡ (ok p, s')
    → ((email : String)
        → s.to_lower (trim email) ≡ s.to_lower (trim input.email)
        → find_user_by_email email (run xs s') ≡ ok p.user)
      × ((again : Signup) (later : Time)
          → s.to_lower (trim again.email) ≡ s.to_lower (trim input.email)
          → create_signup again later (run xs s') ≡ (err conflict, run xs s'))
unfolding email_key
signup_stays input now s s' p xs h =
    let key = email_key s.to_lower input.email in
    let (profile, state, filled) = signup_ok input now s s' p h in
    let kept : IsRegistered key p.user (run xs s') =
      run-IsRegistered key p.user xs s'
        (rw (profile, state) (signed_up-IsRegistered input now s)) in
    let lower : (run xs s').to_lower ≡ s.to_lower =
      run-to_lower xs s' ∙ ap (λ t. t.to_lower) state in
    (
      (λ email same. find-IsRegistered email p.user (run xs s') (rw (lower, same) kept)),
      (λ again later same.
          taken-IsRegistered again later p.user (run xs s') (rw (lower, same) filled)
            (rw (lower, same) kept)),
    )

-- No membership is stored for a user to come.
abbrev HasNoFutureMembers : Store → Type 0
HasNoFutureMembers s =
    (n : ℕ) → s.user_seq ≤ n → get (numbered "usr_" (suc n)) s.memberships_by_user_id ≡ none

same-HasNoFutureMembers :
    (s t : Store) → SameAccounts s t → HasNoFutureMembers s → HasNoFutureMembers t
same-HasNoFutureMembers s t (lower, seq, users, emails, members) h n k =
    rw members (h n (rw seq at k))

create_signup-HasNoFutureMembers :
    (input : Signup) (now : Time) (s : Store)
    → HasNoFutureMembers s
    → HasNoFutureMembers (create_signup input now s).1
create_signup-HasNoFutureMembers input now s h = elim (signup_cases input now s) [
  | inl unchanged ↦ rw unchanged h
  | inr (free, added) ↦ rw added (λ n k.
      get-put_ne _ (numbered "usr_" (suc n)) _ s.memberships_by_user_id
        (λ e. absurd (omega (arith, numbered_inj "usr_" (suc s.user_seq) (suc n) e)))
      ∙ h n (omega arith))
]

run-HasNoFutureMembers :
    (xs : List Call) (s : Store) → HasNoFutureMembers s → HasNoFutureMembers (run xs s)
unfolding run
run-HasNoFutureMembers [] s h = h
run-HasNoFutureMembers (sign_up input now ∷ xs) s h =
    run-HasNoFutureMembers xs (create_signup input now s).1
      (create_signup-HasNoFutureMembers input now s h)
run-HasNoFutureMembers (open_session input now ∷ xs) s h =
    run-HasNoFutureMembers xs (create_session input now s).1 (
      same-HasNoFutureMembers s (create_session input now s).1
        (create_session-SameAccounts input now s) h)
run-HasNoFutureMembers (revoke digest now ∷ xs) s h =
    run-HasNoFutureMembers xs (revoke_session digest now s).1 (
      same-HasNoFutureMembers s (revoke_session digest now s).1
        (revoke_session-SameAccounts digest now s) h)

empty-HasNoFutureMembers : (to_lower : String → String) → HasNoFutureMembers (new_store to_lower)
unfolding get
empty-HasNoFutureMembers to_lower n h = refl

-- What a session with the digest leads to.
leads_to :
    (digest : String) (s : Store) (session : Session) (u : User)
    → get digest s.sessions_by_digest ≡ some session
    → get session.user_id s.users_by_id ≡ some u
    → get_authenticated_actor digest s ≡ ok (actor_of u session s)
unfolding get_authenticated_actor
leads_to digest s session u found known = rw (get_authenticated_actor, found, known) refl

create_session_known :
    (n : NewSession) (t : Time) (s : Store) (u : User)
    → get n.user_id s.users_by_id ≡ some u
    → create_session n t s ≡ (
      ok (new_session n s.session_seq t),
      record s {
        session_seq = suc s.session_seq;
        sessions_by_digest =
            put n.token_digest (new_session n s.session_seq t) s.sessions_by_digest;
      },
    )
unfolding create_session
create_session_known n t s u known = rw (create_session, known) refl

one_membership :
    (os : Dict Organization) (m : Membership) (o : Organization)
    → get m.organization_id os ≡ some o
    → actor_memberships os (m ∷ []) ≡ record { organization = o; role = m.role } ∷ []
one_membership os m o found = rw (actor_memberships, found) refl

-- The actor of a user who has just signed up has the profile of the signup.
new_memberships :
    (input : Signup) (now : Time) (old : Store)
    → HasNoFutureMembers old
    → actor_memberships (signed_up input now old).1.organizations_by_id (
        or_empty (
          get
            (new_user old.to_lower input old.user_seq now).id
            (signed_up input now old).1.memberships_by_user_id))
      ≡ (signed_up input now old).0.memberships
new_memberships input now old room =
    let u = new_user old.to_lower input old.user_seq now in
    let o = new_organization input old.org_seq now in
    rw
      (
        get-put_self u.id
            (or_empty (get u.id old.memberships_by_user_id) ++ new_membership u o now ∷ [])
            old.memberships_by_user_id,
        room old.user_seq (omega arith),
      )
      (one_membership (put o.id o old.organizations_by_id) (new_membership u o now) o
        (get-put_self o.id o old.organizations_by_id))

-- The store after a signup, a session and its revocation.
abbrev with_session : NewSession → Time → Store → Store
with_session n t s = record s {
  session_seq = suc s.session_seq;
  sessions_by_digest = put n.token_digest (new_session n s.session_seq t) s.sessions_by_digest;
}

revoke_session_known :
    (digest : String) (t : Time) (s : Store) (session : Session)
    → get digest s.sessions_by_digest ≡ some session
    → (revoke_session digest t s).1 ≡ record s {
      sessions_by_digest = put digest (record session { revoked_at = some t }) s.sessions_by_digest;
    }
unfolding revoke_session
revoke_session_known digest t s session found = rw (revoke_session, found) refl

-- In every state reached from a new store, a session opened for a user who has just signed up
-- leads to the profile that the signup returned and to that session, and after its revocation to
-- the same profile and the session marked as revoked.
pub signup_login :
    (to_lower : String → String) (xs : List Call) (input : Signup) (now : Time) (s : Store)
    (p : ActorProfile)
    → create_signup input now (run xs (new_store to_lower)) ≡ (ok p, s)
    → (n : NewSession) (t t' : Time) → n.user_id ≡ p.user.id
    → ((create_session n t s).0 ≡ ok (new_session n s.session_seq t))
      × (get_authenticated_actor n.token_digest (create_session n t s).1
          ≡ ok (record { profile = p; session = new_session n s.session_seq t }))
      × (get_authenticated_actor n.token_digest
            (revoke_session n.token_digest t' (create_session n t s).1).1
          ≡ ok (record {
            profile = p;
            session = record (new_session n s.session_seq t) { revoked_at = some t' };
          }))
signup_login to_lower xs input now s p h n t t' mine =
    let old = run xs (new_store to_lower) in
    let (profile, state, filled) = signup_ok input now old s p h in
    let u = new_user old.to_lower input old.user_seq now in
    let room = run-HasNoFutureMembers xs (new_store to_lower) (empty-HasNoFutureMembers to_lower) in
    let known : get n.user_id s.users_by_id ≡ some p.user =
      rw (mine, profile, state) (get-put_self u.id u old.users_by_id) in
    let members : actor_memberships s.organizations_by_id
          (or_empty (get p.user.id s.memberships_by_user_id))
        ≡ p.memberships =
      rw (profile, state) (new_memberships input now old room) in
    let opened = create_session_known n t s p.user known in
    let session = new_session n s.session_seq t in
    let found = get-put_self n.token_digest session s.sessions_by_digest in
    let ended = revoke_session_known n.token_digest t' (with_session n t s) session found in
    let over : Session = record session { revoked_at = some t' } in
    let revoked = get-put_self n.token_digest over (with_session n t s).sessions_by_digest in
    rw (opened, ended)
      (
        refl,
        leads_to n.token_digest (with_session n t s) session p.user found known
            ∙ ap
                (λ ms. ok (record {
                  profile = record { user = p.user; memberships = ms };
                  session = session;
                }))
                members,
        leads_to n.token_digest
              (record (with_session n t s) {
                sessions_by_digest =
                    put n.token_digest over (with_session n t s).sessions_by_digest;
              })
              over p.user revoked known
            ∙ ap
                (λ ms.
                  ok (record {
                    profile = record { user = p.user; memberships = ms };
                    session = over;
                  }))
                members,
      )
