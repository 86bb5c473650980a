-- ===== src/Accounts/SignIn.antt =====
-- Sessions, and what a sign-in with a known identity reaches.
use shared_compute.Common.{
  ℕ, ◌+◌, ◌≡◌, refl, sym, ap, ◌∙◌, String, false, not, ◌||◌, Option, none, some, subst, ltb, str_eq,
  eq_iff, eq_refl, if◌then◌else◌, Bool-cases, Option-cases, inl, inr, arith,
}
use mathlib.Core.Option.{some-injective}
use shared_compute.Common.Dict
use shared_compute.Common.Dict.{Dict, get-put, get-delete}
use shared_compute.Accounts.{
  Text, User, UserRow, Session, Tables, session_ttl, has, user_of, session_user, live_session,
  create_session, logout, find_identity, find_email, refreshed, account_for, add_identity,
  with_identity, read_user, read_back, upsert_user,
}

module _ (text : Text) where
  -- The sessions do not matter once the session is found.
  live_session-sessions :
      (o : Option Session) (later : ℕ) (t : Tables) (s : Dict Session)
      → live_session text o later (record t { sessions = s }) ≡ live_session text o later t
  unfolding live_session
  live_session-sessions none later t s = refl
  live_session-sessions (some o) later t s = refl

  -- A session that was created for an account answers a request with its cookie with the account's
  -- user, until 30 days have passed, and with nobody from then on; a session of another token hash
  -- answers as before. After a logout with the cookie nobody is answered.
  pub session_user-create_session :
      (raw other user_id : String) (now later : ℕ) (t t' : Tables)
      → str_eq raw "" ≡ false
      → create_session text raw user_id now t ≡ some t'
      → (session_user text (some raw) later t'
          ≡ (if ltb later (now + session_ttl) then user_of (Dict.get t.users user_id) else none))
        × (str_eq (text.hash raw) (text.hash other) ≡ false
            → session_user text (some other) later t' ≡ session_user text (some other) later t)
        × (session_user text (some raw) later (logout text (some raw) t') ≡ none)
  unfolding session_user create_session live_session logout
  session_user-create_session raw other user_id now later t t' h =
      elim (Bool-cases
        (has (Dict.get t.sessions (text.hash raw)) || not (has (Dict.get t.users user_id)))) [
          | inl e ↦ rw e λ c. absurd cc
          | inr e ↦ rw e λ c.
              let k = some-injective _ _ c in
              (
                rw (← k, h, get-put, eq_refl (text.hash raw)) refl,
                λ n. rw (← k, get-put, n, live_session-sessions) refl,
                rw (← k, h, get-delete, eq_refl (text.hash raw)) refl,
              )
        ]

  -- Every account stands under its own id.
  abbrev pub IsKeyed : Tables → Type 0
  IsKeyed t = (id : String) (row : UserRow) → Dict.get t.users id ≡ some row → row.user.id ≡ id

  -- The tables are keyed, and the identity is of the account `uid`.
  abbrev Linked : String → String → Option (Tables × String) → Type 0
  Linked provider puid r =
      (t' : Tables) (uid : String)
      → r ≡ some (t', uid)
      → IsKeyed t' × (find_identity text provider puid t'.identities ≡ some uid)

  put-IsKeyed :
      (t : Tables) (id : String) (row : UserRow)
      → row.user.id ≡ id
      → IsKeyed t
      → IsKeyed (record t { users = Dict.put t.users id row })
  put-IsKeyed t id row e keyed k r = rw get-put λ h. ground (arith, eq_iff id k, keyed k r, e)

  refreshed-IsKeyed :
      (name avatar uid : String) (t : Tables)
      → IsKeyed t
      → IsKeyed (refreshed text name avatar (Dict.get t.users uid) uid t)
  unfolding refreshed
  refreshed-IsKeyed name avatar uid t keyed = elim (Option-cases (Dict.get t.users uid)) [
    | inl n ↦ rw n keyed
    | inr (row, e) ↦ rw e (
        put-IsKeyed t uid
          (record row { user = record (row.user) { name = name; avatar_url = avatar } })
          (keyed uid row e) keyed)
  ]

  identities-refreshed :
      (name avatar uid : String) (o : Option UserRow) (t : Tables)
      → (refreshed text name avatar o uid t).identities ≡ t.identities
  unfolding refreshed
  identities-refreshed name avatar uid none t = refl
  identities-refreshed name avatar uid (some row) t = refl

  account_for-IsKeyed :
      (o : Option String) (fresh email name avatar uid : String) (now : ℕ) (t t' : Tables)
      → IsKeyed t
      → account_for text o fresh email name avatar now t ≡ some (t', uid)
      → IsKeyed t'
  unfolding account_for
  account_for-IsKeyed (some u) fresh email name avatar uid now t t' keyed =
      λ h. subst IsKeyed (ap (λ (x : Tables × String). x.0) (some-injective _ _ h)) keyed
  account_for-IsKeyed none fresh email name avatar uid now t t' keyed =
      elim (Bool-cases (has (Dict.get t.users fresh))) [
        | inl e ↦ rw e λ h. absurd cc
        | inr e ↦ rw e λ h.
            subst IsKeyed (ap (λ (x : Tables × String). x.0) (some-injective _ _ h))
              (put-IsKeyed t fresh _ refl keyed)
      ]

  add_identity-Linked :
      (provider puid : String) (r : Option (Tables × String))
      → ((t' : Tables) (uid : String) → r ≡ some (t', uid) → IsKeyed t')
      → Linked provider puid (add_identity text provider puid r)
  unfolding add_identity find_identity
  add_identity-Linked provider puid none keyed t' uid h = absurd cc
  add_identity-Linked provider puid (some (s, u)) keyed t' uid h =
      let e = some-injective _ _ h in
      let same : u ≡ uid = ap (λ (x : Tables × String). x.1) e in
      (
        subst IsKeyed (ap (λ (x : Tables × String). x.0) e) (keyed s u refl),
        rw (← ap (λ (x : Tables × String). x.0) e, eq_refl provider, eq_refl puid)
            (ap (λ x. some x) same),
      )

  with_identity-Linked :
      (provider puid email name avatar fresh : String) (now : ℕ) (t : Tables)
      → IsKeyed t
      → Linked provider puid (
          with_identity text
            (find_identity text provider puid t.identities)
            provider
            puid
            email
            name
            avatar
            fresh
            now
            t)
  unfolding with_identity
  with_identity-Linked provider puid email name avatar fresh now t keyed t' uid =
      elim (Option-cases (find_identity text provider puid t.identities)) [
        | inl n ↦ rw n (
            add_identity-Linked provider puid
              (account_for text (find_email text email t.users) fresh email name avatar now t)
              (λ s u. account_for-IsKeyed _ fresh email name avatar u now t s keyed) t' uid)
        | inr (u, e) ↦ rw e λ h.
            let same = some-injective _ _ h in
            let tables = ap (λ (x : Tables × String). x.0) same in
            (
              subst IsKeyed tables (refreshed-IsKeyed name avatar u t keyed),
              ap (λ (x : Tables). find_identity text provider puid x.identities) (sym tables)
                  ∙ ap (find_identity text provider puid)
                      (identities-refreshed name avatar u (Dict.get t.users u) t)
                  ∙ e
                  ∙ ap (λ (x : Tables × String). some x.1) same,
            )
      ]

  -- The user that is read back is the one with the id.
  read_back-keyed :
      (r : Option (Tables × String)) (t' : Tables) (u : User)
      → ((s : Tables) (uid : String) → r ≡ some (s, uid) → IsKeyed s)
      → read_back text r ≡ some (t', u)
      → r ≡ some (t', u.id)
  unfolding read_back read_user user_of
  read_back-keyed none t' u keyed = λ h. absurd cc
  read_back-keyed (some (s, uid)) t' u keyed = elim (Option-cases (Dict.get s.users uid)) [
    | inl n ↦ rw n λ h. absurd cc
    | inr (row, e) ↦ rw e λ h.
        let same = some-injective _ _ h in
        let there : s ≡ t' = ap (λ (x : Tables × User). x.0) same in
        let name : uid ≡ u.id =
          sym (keyed s uid refl uid row e) ∙ ap (λ (x : Tables × User). x.1.id) same in
        rw (there, name) refl
  ]

  -- In tables whose accounts stand under their own ids, a sign-in that succeeds keeps them so and
  -- records its identity with the account that it answers, so that from then on the identity stands for
  -- that account, whatever its email is.
  pub find_identity-upsert_user :
      (provider puid email name avatar fresh : String) (now : ℕ) (t t' : Tables) (u : User)
      → IsKeyed t
      → upsert_user text provider puid email name avatar fresh now t ≡ some (t', u)
      → IsKeyed t' × (find_identity text provider puid t'.identities ≡ some u.id)
  unfolding upsert_user
  find_identity-upsert_user provider puid email name avatar fresh now t t' u keyed h =
      let linked = with_identity-Linked provider puid email name avatar fresh now t keyed in
      linked t' u.id (read_back-keyed _ t' u (λ s uid e. (linked s uid e).0) h)
