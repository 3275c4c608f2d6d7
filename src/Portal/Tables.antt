-- ===== src/Portal/Tables.antt =====
-- internal/repository/portal.go and merchant.go: the statements of the portal on users, sessions,
-- members, invitations and merchants. Foreign keys are left out: a handler inserts rows that refer to
-- rows it has read or written.
use zia.Base.{
  ℕ, String, Bool, map, not, ◌&&◌, ◌||◌, Option, none, some, List, [], ◌∷◌, ◌++◌, any, find, select,
  if◌then◌else◌, str_eq, ltb,
}
use zia.Domain.Accounting.{Merchant}
use zia.Domain.Portal.{User, Session, TeamMember, TeamInvitation}
use zia.Effects.Failure.{external, err}
use zia.Effects.World.{Env, tick}
use zia.Effects.Action.{Action, Done, exec, query, found}

-- `ORDER BY created_at DESC LIMIT 1`
unfoldable pub newest {ℓ} : {A : Type ℓ} → (A → ℕ) → List A → Option A
newest created_at [] = none
newest created_at (x ∷ xs) = elim (newest created_at xs) [
  | none ↦ some x
  | some y ↦ if ltb (created_at x) (created_at y) then some y else some x
]

-- `ORDER BY created_at DESC`
module _ {ℓ} {A : Type ℓ} (created_at : A → ℕ) where
  unfoldable place : A → List A → List A
  place x [] = x ∷ []
  place x (y ∷ ys) =
      let later = place x ys in if ltb (created_at x) (created_at y) then y ∷ later else x ∷ y ∷ ys

  unfoldable pub latest_first : List A → List A
  unfolding place
  latest_first [] = []
  latest_first (x ∷ xs) = place x (latest_first xs)

-- The unique index on merchant and email refuses a second row.
abbrev pub same_user : User → User → Bool
same_user u v = str_eq v.merchant_id u.merchant_id && str_eq v.email u.email

unfoldable pub create_user : Env → User → Action Done
create_user env u w =
    if any (same_user u) w.api.users
    then (err external, tick w)
    else exec env (λ v. record v { api = record v.api { users = v.api.users ++ u ∷ [] } }) w

unfoldable pub user_by_id : Env → String → Action User
user_by_id env id = query env λ w. found (find (λ u. str_eq u.id id) w.api.users)

-- `GetByEmailGlobal`
unfoldable pub user_by_email : Env → String → Action User
user_by_email env email =
    query env
      λ w. found (newest (λ u. u.created_at) (select (λ u. str_eq u.email email) w.api.users))

unfoldable pub update_profile : Env → String → String → String → String → Action Done
update_profile env id name title phone = exec env λ w.
    let write : User → User =
      λ u. if str_eq u.id id then record u { name = name; title = title; phone = phone } else u in
    record w { api = record w.api { users = map write w.api.users } }

-- The unique index on the token refuses a second row; so does that of the invitations.
unfoldable pub create_session : Env → Session → Action Done
create_session env s w =
    if any (λ x. str_eq x.token s.token) w.api.sessions
    then (err external, tick w)
    else exec env (λ v. record v { api = record v.api { sessions = v.api.sessions ++ s ∷ [] } }) w

-- The sessions that have a user, with the user's merchant.
unfoldable pub join_users : List User → List Session → List Session
join_users us [] = []
join_users us (s ∷ ss) = elim (find (λ u. str_eq u.id s.user_id) us) [
  | none ↦ join_users us ss
  | some u ↦ record s { merchant_id = u.merchant_id } ∷ join_users us ss
]

abbrev pub is_live : String → ℕ → Session → Bool
is_live token now s = str_eq s.token token && ltb now s.expires_at

-- `GetByToken`
unfoldable pub session_by_token : Env → String → Action Session
session_by_token env token =
    query env
      λ w. found (find (is_live token (env.now w.calls)) (join_users w.api.users w.api.sessions))

unfoldable pub delete_sessions : Env → String → Action Done
delete_sessions env user_id = exec env λ w. record w {
  api = record w.api { sessions = select (λ s. not (str_eq s.user_id user_id)) w.api.sessions };
}

unfoldable pub create_member : Env → TeamMember → Action Done
create_member env m =
    exec env λ w. record w { api = record w.api { members = w.api.members ++ m ∷ [] } }

unfoldable pub member_by_email : Env → String → String → Action TeamMember
member_by_email env merchant_id email =
    query env λ w.
      found (find (λ m. str_eq m.merchant_id merchant_id && str_eq m.email email) w.api.members)

unfoldable pub create_invitation : Env → TeamInvitation → Action Done
create_invitation env i w =
    if any (λ x. str_eq x.token i.token) w.api.invitations
    then (err external, tick w)
    else exec env
        (λ v. record v { api = record v.api { invitations = v.api.invitations ++ i ∷ [] } }) w

abbrev pub is_for : String → String → TeamInvitation → Bool
is_for merchant_id email i = str_eq i.merchant_id merchant_id && str_eq i.email email

unfoldable pub invitation_by_email : Env → String → String → Action TeamInvitation
invitation_by_email env merchant_id email =
    query env λ w. found (find (is_for merchant_id email) w.api.invitations)

-- `GetByEmailGlobal`
unfoldable pub open_invitation : Env → String → Action TeamInvitation
open_invitation env email = query env λ w. found (
    newest (λ i. i.created_at)
      (select (λ i. str_eq i.email email && ltb (env.now w.calls) i.expires_at) w.api.invitations))

unfoldable pub invitation_by_token : Env → String → Action TeamInvitation
invitation_by_token env token = query env λ w.
    found (find (λ i. str_eq i.token token && ltb (env.now w.calls) i.expires_at) w.api.invitations)

unfoldable pub delete_invitations : Env → String → String → Action Done
delete_invitations env merchant_id email = exec env λ w. record w {
  api = record w.api {
    invitations = select (λ i. not (is_for merchant_id email i)) w.api.invitations;
  };
}

-- The unique indices on the id and the code refuse a second row.
unfoldable pub create_merchant : Env → Merchant → Action Done
create_merchant env m w =
    if any (λ n. str_eq n.id m.id || str_eq n.code m.code) w.merchants
    then (err external, tick w)
    else exec env (λ v. record v { merchants = v.merchants ++ m ∷ [] }) w

unfoldable pub merchant_by_id : Env → String → Action Merchant
merchant_by_id env id = query env λ w. found (find (λ m. str_eq m.id id) w.merchants)

unfoldable pub update_merchant : Env → Merchant → Action Done
update_merchant env m = exec env λ w.
    let write : Merchant → Merchant = λ n.
      if str_eq n.id m.id
      then record n {
        legal_name = m.legal_name;
        country = m.country;
        default_currency = m.default_currency;
      }
      else n in
    record w { merchants = map write w.merchants }
