-- ===== src/Identity/Store.antt =====
-- internal/identity/store.go and roles.go: the memory store of users, organisations, memberships
-- and sessions. `time.Now()` is an argument, and `strings.ToLower` a field that no call changes.
use tok.Prelude.{
  ℕ, suc, Option, some, none, List, [], ◌∷◌, ◌++◌, String, ◌==◌, ◌||◌, if◌then◌else◌, numbered,
}
use tok.Prelude.Dict.{Dict, get, put}
use tok.Prelude.Trim.{trim}
use tok.Core.Types.{Time}

pub record User : Type 0 where
  pub id : String
  pub email : String
  pub name : String
  pub password_hash : String
  pub created_at : Time

pub record Organization : Type 0 where
  pub id : String
  pub name : String
  pub kind : String
  pub created_at : Time

pub record Membership : Type 0 where
  pub user_id : String
  pub organization_id : String
  pub role : String
  pub created_at : Time

pub record Session : Type 0 where
  pub id : String
  pub user_id : String
  pub token_digest : String
  pub expires_at : Time
  pub created_at : Time
  pub revoked_at : Option Time

pub record ActorMembership : Type 0 where
  pub organization : Organization
  pub role : String

pub record ActorProfile : Type 0 where
  pub user : User
  pub memberships : List ActorMembership

pub record AuthenticatedActor : Type 0 where
  pub profile : ActorProfile
  pub session : Session

pub record Signup : Type 0 where
  pub email : String
  pub name : String
  pub password_hash : String
  pub organization_name : String
  pub organization_kind : String

pub record NewSession : Type 0 where
  pub user_id : String
  pub token_digest : String
  pub expires_at : Time

-- `MemoryStore`
pub record Store : Type 0 where
  pub to_lower : String → String
  pub user_seq : ℕ
  pub org_seq : ℕ
  pub session_seq : ℕ
  pub users_by_id : Dict User
  pub user_ids_by_email : Dict String
  pub organizations_by_id : Dict Organization
  pub memberships_by_user_id : Dict (List Membership)
  pub sessions_by_digest : Dict Session

-- `NewMemoryStore`
abbrev pub new_store : (String → String) → Store
new_store to_lower = record {
  to_lower = to_lower;
  user_seq = 0;
  org_seq = 0;
  session_seq = 0;
  users_by_id = [];
  user_ids_by_email = [];
  organizations_by_id = [];
  memberships_by_user_id = [];
  sessions_by_digest = [];
}

pub data IdentityError : Type 0 where
  not_found conflict missing_email : IdentityError

pub data Result (A : Type 0) : Type 0 where
  ok : A → Result A
  err : IdentityError → Result A

-- `DefaultMembershipRoleForOrganizationKind`
unfoldable pub default_membership_role : String → String
unfolding trim
default_membership_role kind =
    let k = trim kind in
    if k == "buyer" || k == "provider"
    then "org_owner"
    else if k == "ops"
    then "ops_reviewer"
    else "org_owner"

-- `strings.ToLower(strings.TrimSpace(email))`
unfoldable pub email_key : (String → String) → String → String
unfolding trim
email_key to_lower email = to_lower (trim email)

abbrev pub new_user : (String → String) → Signup → ℕ → Time → User
new_user to_lower input seq now = record {
  id = numbered "usr_" (suc seq);
  email = email_key to_lower input.email;
  name = trim input.name;
  password_hash = input.password_hash;
  created_at = now;
}

abbrev pub new_organization : Signup → ℕ → Time → Organization
new_organization input seq now = record {
  id = numbered "org_" (suc seq);
  name = trim input.organization_name;
  kind = trim input.organization_kind;
  created_at = now;
}

abbrev pub new_membership : User → Organization → Time → Membership
new_membership u o now = record {
  user_id = u.id;
  organization_id = o.id;
  role = default_membership_role o.kind;
  created_at = now;
}

abbrev pub or_empty {ℓ} : {A : Type ℓ} → Option (List A) → List A
or_empty none = []
or_empty (some xs) = xs

abbrev pub signed_up : Signup → Time → Store → ActorProfile × Store
signed_up input now s =
    let u = new_user s.to_lower input s.user_seq now in
    let o = new_organization input s.org_seq now in
    let m = new_membership u o now in
    (
      record { user = u; memberships = record { organization = o; role = m.role } ∷ [] },
      record s {
        user_seq = suc s.user_seq;
        org_seq = suc s.org_seq;
        users_by_id = put u.id u s.users_by_id;
        user_ids_by_email = put u.email u.id s.user_ids_by_email;
        organizations_by_id = put o.id o s.organizations_by_id;
        memberships_by_user_id =
            put u.id (or_empty (get u.id s.memberships_by_user_id) ++ m ∷ [])
              s.memberships_by_user_id;
      },
    )

-- `CreateSignup`
unfoldable pub create_signup : Signup → Time → Store → Result ActorProfile × Store
unfolding email_key get put default_membership_role
create_signup input now s =
    if email_key s.to_lower input.email == ""
    then (err missing_email, s)
    else elim (get (email_key s.to_lower input.email) s.user_ids_by_email) [
      | some id ↦ (err conflict, s)
      | none ↦ let (p, s') = signed_up input now s in (ok p, s')
    ]

abbrev found : Option User → Result User
found none = err not_found
found (some u) = ok u

-- `FindUserByEmail`
unfoldable pub find_user_by_email : String → Store → Result User
unfolding email_key get
find_user_by_email email s = elim (get (email_key s.to_lower email) s.user_ids_by_email) [
  | none ↦ err not_found
  | some id ↦ found (get id s.users_by_id)
]

abbrev pub new_session : NewSession → ℕ → Time → Session
new_session input seq now = record {
  id = numbered "sess_" (suc seq);
  user_id = input.user_id;
  token_digest = input.token_digest;
  expires_at = input.expires_at;
  created_at = now;
  revoked_at = none;
}

-- `CreateSession`
unfoldable pub create_session : NewSession → Time → Store → Result Session × Store
unfolding get put
create_session input now s = elim (get input.user_id s.users_by_id) [
  | none ↦ (err not_found, s)
  | some u ↦
      let added = new_session input s.session_seq now in
      (
        ok added,
        record s {
          session_seq = suc s.session_seq;
          sessions_by_digest = put input.token_digest added s.sessions_by_digest;
        },
      )
]

-- A membership in an organisation that is not there is skipped.
abbrev pub actor_memberships : Dict Organization → List Membership → List ActorMembership
actor_memberships os [] = []
actor_memberships os (m ∷ ms) = elim (get m.organization_id os) [
  | none ↦ actor_memberships os ms
  | some o ↦ record { organization = o; role = m.role } ∷ actor_memberships os ms
]

abbrev pub actor_of : User → Session → Store → AuthenticatedActor
actor_of u session s = record {
  profile = record {
    user = u;
    memberships =
        actor_memberships s.organizations_by_id (or_empty (get u.id s.memberships_by_user_id));
  };
  session = session;
}

-- `GetAuthenticatedActorBySessionDigest`
unfoldable pub get_authenticated_actor : String → Store → Result AuthenticatedActor
unfolding get
get_authenticated_actor digest s = elim (get digest s.sessions_by_digest) [
  | none ↦ err not_found
  | some session ↦ elim (get session.user_id s.users_by_id) [
    | none ↦ err not_found
    | some u ↦ ok (actor_of u session s)
  ]
]

-- `RevokeSession`
unfoldable pub revoke_session : String → Time → Store → Option IdentityError × Store
unfolding get put
revoke_session digest now s = elim (get digest s.sessions_by_digest) [
  | none ↦ (some not_found, s)
  | some session ↦ (
    none,
    record s {
      sessions_by_digest =
          put digest (record session { revoked_at = some now }) s.sessions_by_digest;
    },
  )
]
