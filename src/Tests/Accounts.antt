-- ===== src/Tests/Accounts.antt =====
-- The theorems on accounts at a store of one user.
use Prim.Native.Char.{Char, code}
use tok.Prelude.{
  ℕ, zero, suc, ◌-◌, leb, ◌&&◌, if◌then◌else◌, ◌≡◌, refl, some, List, [], ◌∷◌, String,
}
use tok.Prelude.Blank.{is_space}
use tok.Prelude.Trim.{trim}
use tok.Core.Types.{Time}
use tok.Identity.Store.{
  ActorProfile, Signup, NewSession, Store, ok, err, conflict, new_store, create_signup, email_key,
  signed_up, find_user_by_email, create_session, new_session, get_authenticated_actor,
  revoke_session,
}
use tok.Identity.Calls.{Call, sign_up, revoke, run}
use tok.Identity.Accounts.{signup_stays, signup_login}

nth_char : String → ℕ → Char → Char
nth_char String.[] n other = other
nth_char (String.◌∷◌ c s) zero other = c
nth_char (String.◌∷◌ c s) (suc n) other = nth_char s n other

-- `strings.ToLower` on ASCII.
unfoldable ascii_lower : String → String
unfolding nth_char
ascii_lower String.[] = ""
ascii_lower (String.◌∷◌ c s) =
    String.◌∷◌
      (if leb 65 (code c) && leb (code c) 90
        then nth_char "abcdefghijklmnopqrstuvwxyz" (code c - 65) c
        else c)
      (ascii_lower s)

abbrev ada : Signup
ada = record {
  email = " Ada@Example.com ";
  name = "Ada";
  password_hash = "hash";
  organization_name = "Engines";
  organization_kind = "buyer";
}

abbrev bob : Signup
bob = record ada { email = "bob@example.com"; name = "Bob" }

abbrev profile : ActorProfile
profile = (signed_up ada 5 (new_store ascii_lower)).0

abbrev with_ada : Store
with_ada = (signed_up ada 5 (new_store ascii_lower)).1

abbrev calls : List Call
calls = sign_up bob 6 ∷ revoke "digest" 7 ∷ []

signup_stays_example :
    ((email : String)
      → ascii_lower (trim email) ≡ ascii_lower (trim ada.email)
      → find_user_by_email email (run calls with_ada) ≡ ok profile.user)
    × ((again : Signup) (later : Time)
        → ascii_lower (trim again.email) ≡ ascii_lower (trim ada.email)
        → create_signup again later (run calls with_ada) ≡ (err conflict, run calls with_ada))
unfolding create_signup is_space ascii_lower
signup_stays_example = signup_stays ada 5 (new_store ascii_lower) with_ada profile calls refl

keys_agree : email_key ascii_lower " Ada@Example.com " ≡ "ada@example.com"
unfolding email_key is_space ascii_lower
keys_agree = refl

abbrev login : NewSession
login = record { user_id = profile.user.id; token_digest = "digest"; expires_at = 100 }

signup_login_example :
    ((create_session login 8 with_ada).0 ≡ ok (new_session login with_ada.session_seq 8))
    × (get_authenticated_actor login.token_digest (create_session login 8 with_ada).1
        ≡ ok (record { profile = profile; session = new_session login with_ada.session_seq 8 }))
    × (get_authenticated_actor login.token_digest
          (revoke_session login.token_digest 9 (create_session login 8 with_ada).1).1
        ≡ ok (record {
          profile = profile;
          session = record (new_session login with_ada.session_seq 8) { revoked_at = some 9 };
        }))
unfolding create_signup run is_space ascii_lower
signup_login_example = signup_login ascii_lower [] ada 5 with_ada profile refl login 8 9 refl
