-- ===== src/Portal/Signup/Calm.antt =====
-- internal/api/portal.go: what `Signup` does after the code is checked leaves the codes alone.
use zia.Base.{
  suc, String, ◌&&◌, ◌||◌, ◌≡◌, refl, ◌∙◌, inl, inr, Option, none, some, str_eq, nonempty,
  Bool-cases, any,
}
use zia.Domain.Accounting.{Merchant}
use zia.Domain.Portal.{User, Session, TeamInvitation}
use zia.Effects.World.{World, Env, tick}
use zia.Effects.Action.{exec, query}
use zia.Api.Handler.{
  Handler, Reply, refused, ◌>>=◌, ◌>>◌, answer, attempt, need, try, internal_error,
}
use zia.Api.Sequences.{sequence_any}
use zia.Portal.Tables.{
  create_user, create_session, create_member, open_invitation, delete_invitations, create_merchant,
  merchant_by_id,
}
use zia.Portal.Session.{new_session}
use zia.Portal.Signup.{
  Entropy, SignupRequest, found_merchant, merchant_for, add_user, add_member, sign_in, register,
  register_at, finish, save_member, save_user, save_merchant, merchant_of, user_of, member_of,
}

-- Something that leaves the codes alone.
abbrev Calm : {A : Type 0} → Handler A → Type 0
Calm m = (w : World) → (m w).1.api.otps ≡ w.api.otps

then-Calm :
    {A B : Type 0} (m : Handler A) (f : A → Handler B)
    → Calm m
    → ((a : A) → Calm (f a))
    → Calm (m >>= f)
then-Calm m f first next w =
    sequence_any m f w (λ v. v.api.otps ≡ w.api.otps) (first w) (λ a _. next a (m w).1 ∙ first w)

need-Calm : {A : Type 0} (o : Option A) (r : Reply A) → Calm (need o r)
need-Calm none r w = refl
need-Calm (some a) r w = refl

exec-Calm :
    (env : Env) (f : World → World) (w : World)
    → (f w).api.otps ≡ w.api.otps
    → (exec env f w).1.api.otps ≡ w.api.otps
unfolding exec
exec-Calm env f w same = elim (Bool-cases (env.fails w.calls)) [
  | inl down ↦ rw down refl
  | inr up ↦ rw up same
]

module _ (env : Env) (entropy : Entropy) where
  create_user-Calm : (u : User) (w : World) → (create_user env u w).1.api.otps ≡ w.api.otps
  unfolding create_user
  create_user-Calm u w =
      elim (Bool-cases
        (any (λ v. str_eq v.merchant_id u.merchant_id && str_eq v.email u.email) w.api.users)) [
          | inl there ↦ rw there refl
          | inr fresh ↦ rw fresh (exec-Calm env _ w refl)
        ]

  create_merchant-Calm :
      (m : Merchant) (w : World) → (create_merchant env m w).1.api.otps ≡ w.api.otps
  unfolding create_merchant
  create_merchant-Calm m w =
      elim (Bool-cases (any (λ n. str_eq n.id m.id || str_eq n.code m.code) w.merchants)) [
        | inl there ↦ rw there refl
        | inr fresh ↦ rw fresh (exec-Calm env _ w refl)
      ]

  found_merchant-Calm : (req : SignupRequest) → Calm (found_merchant env entropy req)
  unfolding found_merchant save_merchant
  found_merchant-Calm req w =
      let id = env.uuid w.calls in
      then-Calm (need (entropy.code_bytes (suc w.calls)) internal_error)
        (save_merchant env entropy req id)
        (need-Calm (entropy.code_bytes (suc w.calls)) internal_error)
        (λ code v.
          let m = merchant_of req id code (env.now v.calls) in
          then-Calm
            (attempt (create_merchant env m) (refused 500 "1007" "Failed to create workspace"))
            (λ _. answer id) (create_merchant-Calm m) (λ _ _. refl) (tick v))
        (tick (tick w))

  merchant_for-Calm :
      (req : SignupRequest) (i : Option TeamInvitation) → Calm (merchant_for env entropy req i)
  unfolding merchant_for
  merchant_for-Calm req none w =
      then-Calm (found_merchant env entropy req) (λ id. answer ("", id)) (found_merchant-Calm req)
        (λ _ _. refl) w
  merchant_for-Calm req (some i) w = refl

  add_user-Calm :
      (req : SignupRequest) (merchant_id : String) → Calm (add_user env entropy req merchant_id)
  unfolding add_user save_user
  add_user-Calm req merchant_id =
      then-Calm (need (entropy.hash_password req.password) internal_error)
        (save_user env entropy req merchant_id)
        (need-Calm (entropy.hash_password req.password) internal_error)
        (λ hash v.
          let u = user_of req merchant_id hash (env.uuid v.calls) (env.now (suc v.calls)) in
          then-Calm (attempt (create_user env u) (refused 500 "1007" "Failed to create user"))
            (λ _. answer u) (create_user-Calm u) (λ _ _. refl) (tick (tick v)))

  save_member-Calm : (user : User) → Calm (save_member env entropy user)
  unfolding save_member create_member delete_invitations
  save_member-Calm user w =
      let v =
        (create_member env (member_of user (env.uuid w.calls) (env.now (suc w.calls)))
          (tick (tick w))).1 in
      exec-Calm env _ v refl ∙ exec-Calm env _ (tick (tick w)) refl

  add_member-Calm :
      (invited_by : String) (user : User) → Calm (add_member env entropy invited_by user)
  unfolding add_member
  add_member-Calm invited_by user w = elim (Bool-cases (nonempty invited_by)) [
    | inl invited ↦ rw invited (save_member-Calm user w)
    | inr alone ↦ rw alone refl
  ]

  create_session-Calm : (s : Session) (w : World) → (create_session env s w).1.api.otps ≡ w.api.otps
  unfolding create_session
  create_session-Calm s w = elim (Bool-cases (any (λ x. str_eq x.token s.token) w.api.sessions)) [
    | inl there ↦ rw there refl
    | inr fresh ↦ rw fresh (exec-Calm env _ w refl)
  ]

  sign_in-Calm : (user : User) (m : Merchant) → Calm (sign_in env entropy user m)
  unfolding sign_in new_session
  sign_in-Calm user m w = create_session-Calm _ (tick (tick (tick (tick w))))

  finish-Calm : (user : User) → Calm (finish env entropy user)
  unfolding finish merchant_by_id query
  finish-Calm user =
      then-Calm (attempt (merchant_by_id env user.merchant_id) internal_error)
        (sign_in env entropy user) (λ _. refl) (sign_in-Calm user)

  pub register-Calm : (req : SignupRequest) → Calm (register env entropy req)
  unfolding register register_at open_invitation query
  register-Calm req w =
      let found = (try (open_invitation env req.email) w).0 in
      then-Calm (try (open_invitation env req.email))
        (λ i. merchant_for env entropy req i >>= register_at env entropy req) (λ _. refl)
        (λ i.
          then-Calm (merchant_for env entropy req i) (register_at env entropy req)
            (merchant_for-Calm req i)
            (λ places.
              then-Calm (add_user env entropy req places.1)
                (λ user. add_member env entropy places.0 user >> finish env entropy user)
                (add_user-Calm req places.1)
                (λ user.
                  then-Calm (add_member env entropy places.0 user) (λ _. finish env entropy user)
                    (add_member-Calm places.0 user) (λ _. finish-Calm user))))
        w
