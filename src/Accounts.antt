-- ===== src/Accounts.antt =====
-- coordinator/internal/auth/auth.go: accounts, sessions and the credentials of an account, over the
-- tables that its SQL statements read and write. A statement is what the database does with it, the
-- keys and the unique columns of coordinator/migrations/0007_accounts.sql included: a row that would
-- break one is an error, `none`. Other failures of the database are left out. Hashes and the functions
-- of package strings are parameters; fresh tokens and the clock, in nanoseconds, are arguments.
pub mod Data
pub mod SignIn
pub mod Gate
pub mod Pairing
pub mod Referral
mod Tests
pub use Data.*
use Prim.Native.String.{◌++◌ as str_append}
use shared_compute.Common.{
  ℕ, ◌+◌, ◌*◌, String, Bool, true, false, not, ◌&&◌, ◌||◌, Option, none, some, List, [], ◌∷◌, ◌++◌,
  ltb, str_eq, if◌then◌else◌,
}
use shared_compute.Common.Dict
use shared_compute.Common.Dict.{Dict}
use shared_compute.Store.{Mem}
use shared_compute.Store.Keys.{create_consumer_key}

pub user_of : Option UserRow → Option User
user_of none = none
user_of (some row) = some row.user

module _ (text : Text) where
  pub live_session : Option Session → ℕ → Tables → Option User
  unfolding user_of
  live_session none now t = none
  live_session (some s) now t =
      if ltb now s.expires_at then user_of (Dict.get t.users s.user_id) else none

  -- The session cookie, `none` if the request has none.
  pub session_user : Option String → ℕ → Tables → Option User
  unfolding live_session
  session_user none now t = none
  session_user (some value) now t =
      if str_eq value "" then none else live_session (Dict.get t.sessions (text.hash value)) now t

  pub create_session : String → String → ℕ → Tables → Option Tables
  create_session raw user_id now t =
      if has (Dict.get t.sessions (text.hash raw)) || not (has (Dict.get t.users user_id))
      then none
      else some (record t {
        sessions =
            Dict.put t.sessions (text.hash raw)
              (record { user_id = user_id; expires_at = now + session_ttl });
      })

  -- handleLogout
  pub logout : Option String → Tables → Tables
  logout none t = t
  logout (some value) t =
      if str_eq value ""
      then t
      else record t { sessions = Dict.delete t.sessions (text.hash value) }

  pub key_id_for_user : String → Tables → Option String
  key_id_for_user user_id t = Dict.get t.api_keys user_id

  pub key_of : Option User → Tables → Option String
  unfolding key_id_for_user
  key_of none t = none
  key_of (some u) t = key_id_for_user u.id t

  pub key_id_for_request : Option String → ℕ → Tables → Option String
  unfolding session_user key_of
  key_id_for_request cookie now t = key_of (session_user cookie now t) t

  pub provider_token_for_user : String → Tables → Option String
  provider_token_for_user user_id t = Dict.get t.provider_tokens user_id

  pub holder_of : String → Dict String → Option String
  holder_of token [] = none
  holder_of token ((uid, tok) ∷ rest) = if str_eq tok token then some uid else holder_of token rest

  pub user_for_provider_token : String → Tables → Option String
  unfolding holder_of
  user_for_provider_token raw t = holder_of (text.trim raw) t.provider_tokens

  pub valid_provider_token : String → Tables → Bool
  unfolding user_for_provider_token
  valid_provider_token raw t = has (user_for_provider_token raw t)

  first_seen_of : ℕ → Option Owner → ℕ
  first_seen_of now none = now
  first_seen_of now (some o) = o.first_seen

  link_to : Option String → String → ℕ → Tables → Tables
  unfolding first_seen_of
  link_to none pk now t = t
  link_to (some uid) pk now t = record t {
    owners = Dict.put t.owners pk (record {
      user_id = uid;
      first_seen = first_seen_of now (Dict.get t.owners pk);
      last_seen = now;
    });
  }

  pub link_provider_device : String → String → ℕ → Tables → Tables
  unfolding link_to user_for_provider_token
  link_provider_device raw pk now t = link_to (user_for_provider_token raw t) pk now t

  pub find_identity : String → String → List Identity → Option String
  find_identity provider puid [] = none
  find_identity provider puid (i ∷ rest) =
      if str_eq i.provider provider && str_eq i.provider_user_id puid
      then some i.user_id
      else find_identity provider puid rest

  pub find_email : String → List (String × UserRow) → Option String
  find_email email [] = none
  find_email email ((id, row) ∷ rest) =
      if str_eq (text.lower row.user.email) (text.lower email)
      then some row.user.id
      else find_email email rest

  refreshed : String → String → Option UserRow → String → Tables → Tables
  refreshed name avatar none uid t = t
  refreshed name avatar (some row) uid t = record t {
    users =
        Dict.put t.users uid
          (record row { user = record (row.user) { name = name; avatar_url = avatar } });
  }

  -- The account for a new identity: the one with the email, or a new one under the fresh id.
  account_for :
      Option String → String → String → String → String → ℕ → Tables → Option (Tables × String)
  account_for (some uid) fresh email name avatar now t = some (t, uid)
  account_for none fresh email name avatar now t =
      if has (Dict.get t.users fresh)
      then none
      else some (
        record t {
          users = Dict.put t.users fresh (record {
            user = record { id = fresh; email = email; name = name; avatar_url = avatar };
            created_at = now;
            referral_code = none;
            referred_by = "";
            display_name = "";
            leaderboard_opt_in = false;
          });
        },
        fresh,
      )

  add_identity : String → String → Option (Tables × String) → Option (Tables × String)
  add_identity provider puid none = none
  add_identity provider puid (some (t, uid)) = some (
    record t {
      identities =
          record { provider = provider; provider_user_id = puid; user_id = uid } ∷ t.identities;
    },
    uid,
  )

  with_identity :
      Option String
      → String
      → String
      → String
      → String
      → String
      → String
      → ℕ
      → Tables
      → Option (Tables × String)
  unfolding refreshed account_for add_identity
  with_identity (some uid) provider puid email name avatar fresh now t =
      some (refreshed name avatar (Dict.get t.users uid) uid t, uid)
  with_identity none provider puid email name avatar fresh now t =
      add_identity provider puid
        (account_for (find_email email t.users) fresh email name avatar now t)

  read_user : Tables → Option User → Option (Tables × User)
  read_user t none = none
  read_user t (some u) = some (t, u)

  read_back : Option (Tables × String) → Option (Tables × User)
  unfolding user_of read_user
  read_back none = none
  read_back (some (t, uid)) = read_user t (user_of (Dict.get t.users uid))

  -- `none` rolls the transaction back.
  unfoldable pub upsert_user :
      String → String → String → String → String → String → ℕ → Tables → Option (Tables × User)
  unfolding with_identity read_back find_identity find_email
  upsert_user provider puid email name avatar fresh now t = read_back (
      with_identity (find_identity provider puid t.identities) provider puid email name avatar fresh
        now t)

  ensure_key : Option String → String → String → String → ℕ → Mem → Tables → Mem × Tables
  ensure_key (some id) user_id email raw now m t = (m, t)
  ensure_key none user_id email raw now m t =
      let (m', id) = create_consumer_key text.key_id raw now (str_append "app:" email) m in
      (m', record t { api_keys = Dict.put t.api_keys user_id id })

  -- A token that another account has breaks the unique column; then the error is logged.
  ensure_token : Option String → String → String → Tables → Tables
  unfolding holder_of
  ensure_token (some token) user_id fresh t = t
  ensure_token none user_id fresh t =
      if has (holder_of fresh t.provider_tokens)
      then t
      else record t { provider_tokens = Dict.put t.provider_tokens user_id fresh }

  -- `raw_key` is the key that CreateConsumerKey draws and `token` the fresh provider token.
  pub ensure_user_credentials : String → String → String → String → ℕ → Mem → Tables → Mem × Tables
  unfolding ensure_key ensure_token
  ensure_user_credentials user_id email raw_key token now m t =
      let (m', t') = ensure_key (Dict.get t.api_keys user_id) user_id email raw_key now m t in
      (
        m',
        ensure_token (Dict.get t'.provider_tokens user_id) user_id (str_append "sc_prov_" token) t',
      )

-- The access token and the user that Google answers with.
pub google_identity : Option String → Option GoogleUser → Option Profile
google_identity none user = none
google_identity (some access) none = none
google_identity (some access) (some user) =
    if str_eq access ""
    then none
    else some (record {
      provider_user_id = if str_eq user.sub "" then user.id else user.sub;
      email = user.email;
      name = user.name;
      avatar = user.picture;
    })

pub state_matches : Option String → String → Bool
state_matches none state = false
state_matches (some value) state = not (str_eq value "") && str_eq value state

module _ (text : Text) where
  with_session : String → Mem → Tables → Option Tables → Mem × Tables × Answer
  with_session raw m t none = (m, t, denied 500)
  with_session raw m t (some t') = (m, t', signed_in raw)

  with_user : Fresh → ℕ → Mem → Tables → Option (Tables × User) → Mem × Tables × Answer
  unfolding with_session create_session ensure_user_credentials
  with_user fresh now m t none = (m, t, denied 500)
  with_user fresh now m t (some (t', u)) =
      let (m', t'') =
        ensure_user_credentials text u.id u.email fresh.raw_key fresh.token now m t' in
      with_session fresh.session m' t'' (create_session text fresh.session u.id now t'')

  with_profile : Callback → Fresh → ℕ → Mem → Tables → Option Profile → Mem × Tables × Answer
  unfolding with_user upsert_user
  with_profile req fresh now m t none = (m, t, denied 502)
  with_profile req fresh now m t (some p) =
      if str_eq p.email ""
      then (m, t, denied 400)
      else with_user fresh now m t (
          upsert_user text req.provider p.provider_user_id p.email p.name p.avatar fresh.user_id now
            t)

  pub handle_callback : Callback → Fresh → ℕ → Mem → Tables → Mem × Tables × Answer
  unfolding with_profile state_matches
  handle_callback req fresh now m t =
      if not req.configured
      then (m, t, denied 404)
      else if not (state_matches req.cookie req.state)
      then (m, t, denied 400)
      else if str_eq req.code ""
      then (m, t, denied 400)
      else with_profile req fresh now m t req.profile
