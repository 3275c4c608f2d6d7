-- ===== src/Portal/Team/Invited.antt =====
-- internal/api/portal.go: whom `AcceptInvitation` lets into a team.
use zia.Base.{
  ℕ, suc, String, Bool, false, ◌&&◌, ◌≡◌, refl, ap, ◌⊎◌, inl, inr, some, [], ◌∷◌, ◌++◌, find,
  str_eq, str_eq_iff, ltb, Bool-cases,
}
use zia.Domain.Portal.{User, TeamInvitation}
use zia.Effects.World.{World, Env, tick}
use zia.Effects.Action.{Done, exec, query}
use zia.Api.Handler.{Reply, answered, refused, attempt, perform, not_found, internal_error}
use zia.Api.Outcomes.{is_answer, sequence_out, require_out, exec_out, query-answered}
use zia.Portal.Tables.{user_by_id, create_member, invitation_by_token, delete_invitations}
use zia.Portal.Team.{member_by, join_team, accept_as, accept_for, accept_invitation}

module _ (env : Env) (user_id token : String) where
  abbrev pub is_open : ℕ → TeamInvitation → Bool
  is_open now i = str_eq i.token token && ltb now i.expires_at

  -- The users and the sessions stay.
  abbrev pub SameUsers : World → World → Type 0
  SameUsers w v = (v.api.users ≡ w.api.users) × (v.api.sessions ≡ w.api.sessions)

  abbrev pub TurnedDown : World → Reply Done × World → Type 0
  TurnedDown w (r, v) =
      (is_answer r ≡ false)
      × (v.api.members ≡ w.api.members)
      × (v.api.invitations ≡ w.api.invitations)

  -- The user has joined the team that had invited them, in the role of the invitation.
  abbrev pub Joined : World → Reply Done × World → Type 0
  Joined w (r, v) =
      (i : TeamInvitation) × (u : User) × (id : String) × (created : ℕ) × (find
          (is_open (env.now w.calls)) w.api.invitations
        ≡ some i)
      × (find (λ x. str_eq x.id user_id) w.api.users ≡ some u)
      × (u.email ≡ i.email)
      × (r ≡ answered tt)
      × (v.api.members ≡ w.api.members ++ member_by env i u id created ∷ [])

  abbrev Accepted : World → Reply Done × World → Type 0
  Accepted w end = SameUsers w end.1 × (TurnedDown w end ⊎ Joined w end)

  refuses :
      (w : World) (v : World)
      → v.api ≡ w.api
      → (r : Reply Done) → is_answer r ≡ false
      → Accepted w (r, v)
  refuses w v same r stopped = (
    (ap (λ a. a.users) same, ap (λ a. a.sessions) same),
    inl (stopped, ap (λ a. a.members) same, ap (λ a. a.invitations) same),
  )

  -- Whether or not the used invitation can be deleted.
  cleared :
      (m e : String) (w : World)
      → SameUsers w (delete_invitations env m e w).1
        × ((delete_invitations env m e w).1.api.members ≡ w.api.members)
  unfolding delete_invitations exec
  cleared m e w = elim (Bool-cases (env.fails w.calls)) [
    | inl down ↦ rw down ((refl, refl), refl)
    | inr up ↦ rw up ((refl, refl), refl)
  ]

  -- Anyone who is let into a team by a token was invited to it, in the role that they get, by an
  -- invitation that has that token, has not run out, and is for the email of their account. Their
  -- account and all sessions stay as they were, whatever fails: the merchant that they are let in as
  -- is the one that they had.
  pub accept_invitation-Joined :
      (w : World)
      → let end = accept_invitation env user_id token w in
        SameUsers w end.1 × (TurnedDown w end ⊎ Joined w end)
  unfolding query accept_invitation accept_for accept_as join_team invitation_by_token user_by_id
      create_member
  accept_invitation-Joined w =
      let P : Reply Done × World → Type 0 = Accepted w in
      let w₁ = tick w in
      let w₂ = tick w₁ in
      sequence_out P
        (attempt (invitation_by_token env token) (not_found "Invitation not found or expired"))
        (accept_for env user_id) w (refuses w w₁ refl)
        (λ i here.
          sequence_out P (attempt (user_by_id env user_id) internal_error) (accept_as env i) w₁
            (refuses w w₂ refl)
            (λ u own.
              require_out P (str_eq u.email i.email)
                (refused 403 "1004" "This invitation is for a different email address")
                (join_team env i u) w₂ refl (refuses w w₂ refl)
                (λ mine.
                  exec_out P env _ 500 "1007" "Failed to accept invitation"
                    (λ _. perform (delete_invitations env i.merchant_id i.email)) (tick (tick w₂))
                    (refuses w (tick (tick (tick w₂))) refl)
                    (let full = tick (record (tick (tick w₂)) {
                      api = record w.api {
                        members =
                            w.api.members
                            ++ member_by env i u (env.uuid w₂.calls) (env.now (suc w₂.calls)) ∷ [];
                      };
                    }) in
                      let (same, members) = cleared i.merchant_id i.email full in
                      (
                        (same.0, same.1),
                        inr (
                          i,
                          u,
                          env.uuid w₂.calls,
                          env.now (suc w₂.calls),
                          query-answered 404 "1003" "Invitation not found or expired" env
                              (λ v. find (is_open (env.now v.calls)) v.api.invitations) w i here,
                          query-answered 500 "1007" "Internal error" env
                              (λ v. find (λ x. str_eq x.id user_id) v.api.users) w₁ u own,
                          (str_eq_iff u.email i.email).0 mine,
                          refl,
                          members,
                        ),
                      )))))
