-- ===== src/Auth/Profile.antt =====
-- A user's profile, role and preferences (app/users/service.py).
use fund_lok.Prelude.{
  ℕ, String, Bool, not, ◌&&◌, Option, none, some, ◌==◌, if◌then◌else◌, truthy, select,
}
use fund_lok.Db.{User, http, Exec, pure, gets, ◌>>=◌, ◌>>◌, raise_if, scalar_one_or_none}
use fund_lok.Auth.Tokens.{is_set, is_text}
use fund_lok.Auth.Totp.{update_user}

-- `none` is a field that the client did not send.
abbrev pub sent_or {ℓ} : {A : Type ℓ} → Option A → A → A
sent_or none old = old
sent_or (some new) old = new

unfoldable pub check_clash : Option (Option String) → ℕ → Exec (Unit {0})
check_clash none user_id = pure tt
check_clash (some none) user_id = pure tt
check_clash (some (some phone)) user_id = do
  found ← λ db. (
    scalar_one_or_none
        (select (λ (u : User). is_text phone u.phone && not (u.id == user_id)) db.users),
    db,
  )
  raise_if (is_set found) (http 400 "Phone number already registered")

unfoldable pub update_user_profile :
    Option (Option String)
    → Option (Option String)
    → Option (Option String)
    → User
    → Exec (Unit {0})
unfolding check_clash update_user
update_user_profile phone full_name bio current_user = do
  check_clash phone current_user.id
  update_user current_user.id (λ u. record u {
    phone = sent_or phone u.phone;
    full_name = sent_or full_name u.full_name;
    bio = sent_or bio u.bio;
  })

unfoldable pub select_user_role : String → User → Exec (Unit {0})
unfolding update_user
select_user_role role current_user = do
  raise_if (truthy current_user.role) (http 409 "Role has already been set")
  update_user current_user.id (λ u. record u { role = some role })

unfoldable pub update_security_preferences : Bool → User → Exec (Unit {0})
unfolding update_user
update_security_preferences enabled current_user =
    update_user current_user.id (λ u. record u { signin_alerts_enabled = enabled })

unfoldable pub complete_onboarding_tour : User → Exec (Unit {0})
unfolding update_user
complete_onboarding_tour current_user =
    if is_set current_user.onboarding_tour_completed_at then pure tt else do
      now ← gets (λ db. db.clock)
      update_user current_user.id (λ u. record u { onboarding_tour_completed_at = some now })
