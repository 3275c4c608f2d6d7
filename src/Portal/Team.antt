-- ===== src/Portal/Team.antt =====
-- internal/api/portal.go, the handlers of a merchant's team.
use zia.Base.{ℕ, ◌+◌, String, Bool, ◌&&◌, Option, none, some, List, select, map, str_eq, nonempty}
use zia.Domain.Portal.{User, TeamMember, TeamInvitation}
use zia.Effects.Failure.{ok, err, external}
use zia.Effects.World.{Env, tick}
use zia.Effects.Action.{Action, Done, query}
use zia.Api.Handler.{
  Handler, Reply, refused, ◌>>=◌, ◌>>◌, answer, attempt, need, require, perform, try, absent, now,
  uuid, bad_request, not_found, internal_error,
}
use zia.Portal.Texts.{member_initials}
use zia.Portal.Tables.{
  latest_first, user_by_id, create_member, member_by_email, create_invitation, invitation_by_email,
  invitation_by_token, delete_invitations,
}
pub mod Invited

pub record InviteRequest : Type 0 where
  pub email : String
  pub role : String

-- `7 * 24 * time.Hour`
abbrev pub invitation_lifetime : ℕ
invitation_lifetime = 604_800_000_000_000

unfoldable pub list_invitations : Env → String → Action (List TeamInvitation)
list_invitations env merchant_id = query env λ w. ok (
    latest_first (λ i. i.created_at)
      (select (λ i. str_eq i.merchant_id merchant_id) w.api.invitations))

-- `Upsert` names a conflict on the merchant and the email. No migration makes an index for it, and
-- PostgreSQL refuses the statement.
unfoldable pub upsert_invitation : Env → TeamInvitation → Action Done
upsert_invitation env i w = (err external, tick w)

module _ (env : Env) where
  unfoldable pub send_invitation : String → InviteRequest → Handler TeamInvitation
  send_invitation merchant_id req = do
    id ← uuid env
    token ← uuid env
    expires ← now env
    created ← now env
    let invitation : TeamInvitation = record {
      id = id;
      merchant_id = merchant_id;
      email = req.email;
      role = req.role;
      token = token;
      expires_at = expires + invitation_lifetime;
      created_at = created;
    }
    attempt (create_invitation env invitation) (refused 500 "1007" "Failed to send invitation")
    answer invitation

  unfoldable pub invite : String → InviteRequest → Handler TeamInvitation
  invite merchant_id req = do
    require (nonempty req.email && nonempty req.role) (bad_request "Email and role are required")
    member ← try (member_by_email env merchant_id req.email)
    require (absent member) (bad_request "User is already a team member")
    invitation ← try (invitation_by_email env merchant_id req.email)
    require (absent invitation) (bad_request "Invitation already sent")
    send_invitation merchant_id req

  unfoldable pub invite_member : String → Option (Option InviteRequest) → Handler TeamInvitation
  invite_member merchant_id body = do
    envelope ← need body (bad_request "Invalid request")
    req ← need envelope (bad_request "Email and role are required")
    invite merchant_id req

  unfoldable pub resend_invitation : String → String → Handler Done
  resend_invitation merchant_id email = do
    invitation ←
        attempt (invitation_by_email env merchant_id email) (not_found "No active invitation found")
    token ← uuid env
    expires ← now env
    created ← now env
    attempt
        (upsert_invitation env (record invitation {
          token = token;
          expires_at = expires + invitation_lifetime;
          created_at = created;
        }))
        (refused 500 "1007" "Failed to resend")

  unfoldable pub revoke_invitation : String → String → Handler Done
  revoke_invitation merchant_id email =
      attempt (delete_invitations env merchant_id email) (not_found "No invitation found")

  abbrev pub member_by : TeamInvitation → User → String → ℕ → TeamMember
  member_by invitation user id created = record {
    id = id;
    merchant_id = invitation.merchant_id;
    user_id = user.id;
    name = user.name;
    email = user.email;
    role = invitation.role;
    last_active = none;
    initials = member_initials user.name;
    created_at = created;
  }

  unfoldable pub join_team : TeamInvitation → User → Handler Done
  join_team invitation user = do
    id ← uuid env
    created ← now env
    attempt (create_member env (member_by invitation user id created))
        (refused 500 "1007" "Failed to accept invitation")
    perform (delete_invitations env invitation.merchant_id invitation.email)

  unfoldable pub accept_as : TeamInvitation → User → Handler Done
  accept_as invitation user = do
    require (str_eq user.email invitation.email)
        (refused 403 "1004" "This invitation is for a different email address")
    join_team invitation user

  unfoldable pub accept_for : String → TeamInvitation → Handler Done
  accept_for user_id invitation = do
    user ← attempt (user_by_id env user_id) internal_error
    accept_as invitation user

  unfoldable pub accept_invitation : String → String → Handler Done
  accept_invitation user_id token = do
    invitation ←
        attempt (invitation_by_token env token) (not_found "Invitation not found or expired")
    accept_for user_id invitation
