-- ===== src/Portal/Signup/Verified.antt =====
-- internal/api/portal.go: nobody signs up without the code that was sent, and a code serves once.
use zia.Base.{
  ◌≡◌, refl, sym, ap, ◌∙◌, ◌⊎◌, inl, inr, Option, none, some, str_eq, str_eq_iff, str_eq_self,
  if◌then◌else◌,
}
use zia.Base.Dict.{lookup, lookup-remove}
use zia.Effects.World.{World, Env}
use zia.Api.Handler.{answered, ◌>>◌, require, bad_request}
use zia.Api.Sequences.{sequence_any, need_any, require_any, need_step, require_step}
use zia.Portal.Otp
use zia.Portal.Otp.{OtpEntry, OtpStore}
use zia.Portal.Signup.{
  Entropy, SignupRequest, otp_get, otp_delete, is_complete, is_address, check_code, verify,
  register, signup_with, signup,
}
use zia.Portal.Signup.Calm.{register-Calm}

-- Nobody has been added, and nobody has been let in.
abbrev pub SameAccounts : World → World → Type 0
SameAccounts w v =
    (v.api.users ≡ w.api.users)
    × (v.api.sessions ≡ w.api.sessions)
    × (v.api.members ≡ w.api.members)
    × (v.merchants ≡ w.merchants)

module _ (env : Env) (entropy : Entropy) where
  -- The request carries the code that waits for its phone, and the email that the code was asked with.
  abbrev pub Proves : SignupRequest → World → Type 0
  Proves req w =
      (e : OtpEntry) × ((Otp.get (env.now w.calls) req.phone w.api.otps).0 ≡ some e)
      × (e.code ≡ req.otp)
      × (e.signup.email ≡ req.email)

  check_code-SameAccounts :
      (req : SignupRequest) (e : OtpEntry) (w : World)
      → SameAccounts w (check_code env entropy req e w).1
  unfolding check_code
  check_code-SameAccounts req e w =
      let same : SameAccounts w w = (refl, refl, refl, refl) in
      let rest =
        require (str_eq e.signup.email req.email) (bad_request "Email does not match OTP request")
        >> otp_delete req.phone in
      require_any (str_eq e.code req.otp) 400 "1001" "Invalid or expired OTP" rest w
        (SameAccounts w) same
        (λ _.
          require_any (str_eq e.signup.email req.email) 400 "1001"
            "Email does not match OTP request" (otp_delete req.phone) w (SameAccounts w) same
            (λ _. same))

  verify-SameAccounts :
      (req : SignupRequest) (w : World) → SameAccounts w (verify env entropy req w).1
  unfolding verify
  verify-SameAccounts req w =
      let v = (otp_get env req.phone w).1 in
      need_any (Otp.get (env.now w.calls) req.phone w.api.otps).0 400 "1001"
        "Invalid or expired OTP" (check_code env entropy req) v (SameAccounts w)
        (refl, refl, refl, refl) (λ e _. check_code-SameAccounts req e v)

  code_checked :
      (req : SignupRequest) (e : OtpEntry) (w : World)
      → (check_code env entropy req e w).0 ≡ answered tt
      → (e.code ≡ req.otp)
        × (e.signup.email ≡ req.email)
        × (lookup req.phone (check_code env entropy req e w).1.api.otps ≡ none)
  unfolding check_code Otp.delete
  code_checked req e w h =
      let own =
        require (str_eq e.signup.email req.email)
          (bad_request "Email does not match OTP request") in
      let (right, past) =
        require_step (str_eq e.code req.otp) 400 "1001" "Invalid or expired OTP"
          (own >> otp_delete req.phone) w tt h in
      let (mine, end) =
        require_step (str_eq e.signup.email req.email) 400 "1001" "Email does not match OTP request"
          (otp_delete req.phone) w tt (sym (ap (λ m. m.0) past) ∙ h) in
      (
        (str_eq_iff e.code req.otp).0 right,
        (str_eq_iff e.signup.email req.email).0 mine,
        ap (λ m. lookup req.phone m.1.api.otps) (past ∙ end)
            ∙ (lookup-remove req.phone req.phone w.api.otps
                ∙ ap (λ c. if c then none else lookup req.phone w.api.otps)
                    (str_eq_self req.phone)),
      )

  verified :
      (req : SignupRequest) (w : World)
      → (verify env entropy req w).0 ≡ answered tt
      → Proves req w × (lookup req.phone (verify env entropy req w).1.api.otps ≡ none)
  unfolding verify
  verified req w h =
      let (waiting, s) = Otp.get (env.now w.calls) req.phone w.api.otps in
      let v = (otp_get env req.phone w).1 in
      let (e, there, run) =
        need_step waiting 400 "1001" "Invalid or expired OTP" (check_code env entropy req) v tt h in
      let (right, mine, gone) = code_checked req e v (sym (ap (λ m. m.0) run) ∙ h) in
      ((e, there, right, mine), ap (λ m. lookup req.phone m.1.api.otps) run ∙ gone)

  abbrev pub Guarded : Option (Option SignupRequest) → World → World → Type 0
  Guarded body w v =
      SameAccounts w v
      ⊎ ((req : SignupRequest) × (body ≡ some (some req))
          × Proves req w
          × (lookup req.phone v.api.otps ≡ none))

  signup_with-Guarded :
      (req : SignupRequest) (w : World)
      → Guarded (some (some req)) w (signup_with env entropy req w).1
  unfolding signup_with
  signup_with-Guarded req w =
      let P = Guarded (some (some req)) w in
      let same : P w = inl (refl, refl, refl, refl) in
      let rest = verify env entropy req >> register env entropy req in
      require_any (is_complete env entropy req) 400 "1001"
        "Name, email, password, phone and otp are required"
        (require (is_address env entropy req.email) (bad_request "Invalid email address") >> rest) w
        P same
        (λ _.
          require_any (is_address env entropy req.email) 400 "1001" "Invalid email address" rest w P
            same
            (λ _.
              sequence_any (verify env entropy req) (λ _. register env entropy req) w P
                (inl (verify-SameAccounts req w))
                (λ _ passed.
                  let (proof, gone) = verified req w passed in
                  let after = (verify env entropy req w).1 in
                  inr (
                    req,
                    refl,
                    proof,
                    ap (lookup req.phone) (register-Calm env entropy req after) ∙ gone,
                  ))))

  -- A sign-up that adds a user, a session, a team member or a merchant had a body that decodes, with the
  -- code that was waiting for its phone and had not run out, and with the email that the code was asked
  -- with; and afterwards no code waits for the phone, also where the sign-up failed half-way.
  pub signup-Guarded :
      (body : Option (Option SignupRequest)) (w : World)
      → Guarded body w (signup env entropy body w).1
  unfolding signup
  signup-Guarded none w = inl (refl, refl, refl, refl)
  signup-Guarded (some none) w = inl (refl, refl, refl, refl)
  signup-Guarded (some (some req)) w = signup_with-Guarded req w
