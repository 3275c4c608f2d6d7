-- ===== src/Portal/Otp/History.antt =====
-- What the store of codes promises: the last code that was set for a phone and not deleted since,
-- for ten minutes. Entries that `get` has dropped on the way make no difference.
use zia.Base.{
  ℕ, ◌+◌, ◌≤◌, String, ◌≡◌, refl, ◌∙◌, inl, inr, Option, none, some, List, [], ◌∷◌, if◌then◌else◌,
  ltb, leb, Option-cases, str_eq, str_eq_iff, arith,
}
use zia.Base.Dict.{lookup, lookup-insert, lookup-remove}
use zia.Portal.Otp.{SignupData, OtpEntry, OtpStore, otp_lifetime, new_otp_store, set, get, delete}

-- A call of the store, with the time of it.
pub data Call : Type 0 where
  sets : ℕ → String → String → SignupData → Call
  gets : ℕ → String → Call
  deletes : ℕ → String → Call

abbrev pub time_of : Call → ℕ
time_of (sets t phone code d) = t
time_of (gets t phone) = t
time_of (deletes t phone) = t

-- The store after some calls, the latest first.
unfoldable pub run : List Call → OtpStore
run [] = new_otp_store
run (sets t phone code d ∷ past) = set t phone code d (run past)
run (gets t phone ∷ past) = (get t phone (run past)).1
run (deletes t phone ∷ past) = delete phone (run past)

-- The promise.
unfoldable pub promised : ℕ → String → List Call → Option OtpEntry
promised now phone [] = none
promised now phone (sets t p code d ∷ past) =
    let earlier = promised now phone past in
    if str_eq p phone
    then if leb now (t + otp_lifetime)
      then some (record { code = code; expires_at = t + otp_lifetime; signup = d })
      else none
    else earlier
promised now phone (gets t p ∷ past) = promised now phone past
promised now phone (deletes t p ∷ past) =
    let earlier = promised now phone past in if str_eq p phone then none else earlier

-- The calls were made in the order of their times, none after `now`.
abbrev pub InOrder : ℕ → List Call → Type 0
InOrder now [] = Unit
InOrder now (c ∷ past) = (time_of c ≤ now) × InOrder (time_of c) past

-- What a read at this time would find.
unfoldable view : ℕ → String → OtpStore → Option OtpEntry
view now phone s = elim (lookup phone s) [
  | none ↦ none
  | some e ↦ if ltb e.expires_at now then none else some e
]

get-view : (now : ℕ) (phone : String) (s : OtpStore) → (get now phone s).0 ≡ view now phone s
unfolding get view
get-view now phone s = elim (Option-cases (lookup phone s)) [
  | inl absent ↦ rw (absent, get, view) refl
  | inr (e, here) ↦ ground arith
]

-- A read drops only what no later read would find.
view-get :
    (t now : ℕ) (p phone : String) (s : OtpStore)
    → t ≤ now
    → view now phone (get t p s).1 ≡ view now phone s
unfolding get view
view-get t now p phone s later = ground (arith, lookup-remove p phone s, str_eq_iff p phone)

view-set :
    (t now : ℕ) (p phone code : String) (d : SignupData) (s : OtpStore)
    → view now phone (set t p code d s) ≡ (
        if str_eq p phone
        then if leb now (t + otp_lifetime)
          then some (record { code = code; expires_at = t + otp_lifetime; signup = d })
          else none
        else view now phone s)
unfolding set view
view-set t now p phone code d s = ground (
  arith,
  lookup-insert p phone (record { code = code; expires_at = t + otp_lifetime; signup = d }) s,
)

view-delete :
    (now : ℕ) (p phone : String) (s : OtpStore)
    → view now phone (delete p s) ≡ (if str_eq p phone then none else view now phone s)
unfolding delete view
view-delete now p phone s = ground (arith, lookup-remove p phone s)

later : (t now : ℕ) (past : List Call) → t ≤ now → InOrder t past → InOrder now past
later t now [] le order = tt
later t now (c ∷ past) le (before, order) = (omega arith, order)

run-view :
    (past : List Call) (now : ℕ) (phone : String)
    → InOrder now past
    → view now phone (run past) ≡ promised now phone past
unfolding run promised
run-view [] now phone order = unfold view lookup in refl
run-view (sets t p code d ∷ past) now phone (le, order) =
    view-set t now p phone code d (run past)
    ∙ rw (run-view past now phone (later t now past le order)) refl
run-view (gets t p ∷ past) now phone (le, order) =
    view-get t now p phone (run past) le ∙ run-view past now phone (later t now past le order)
run-view (deletes t p ∷ past) now phone (le, order) =
    view-delete now p phone (run past)
    ∙ rw (run-view past now phone (later t now past le order)) refl

-- After any calls in the order of their times, `get` returns the code that was last set for the
-- phone, with its data, if it was not deleted since and ten minutes have not gone by; nothing
-- otherwise. What earlier reads have dropped makes no difference.
pub get-promised :
    (past : List Call) (now : ℕ) (phone : String)
    → InOrder now past
    → (get now phone (run past)).0 ≡ promised now phone past
get-promised past now phone order = get-view now phone (run past) ∙ run-view past now phone order
