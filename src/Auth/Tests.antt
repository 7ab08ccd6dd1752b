-- ===== src/Auth/Tests.antt =====
-- Sample users and tokens (app/auth/, app/users/service.py), and the theorems applied to them.
use fund_lok.Prelude.{
  suc, ◌+◌, ◌≡◌, refl, true, false, none, some, [], ◌∷◌, arith, length, strip, uuid_text,
}
use fund_lok.Db.{Db, empty_db, Error, Result, ok, err}
use fund_lok.Security.{Security}
use fund_lok.Auth.Sessions.{
  TokenPair, find_token, refresh_token_pair, revoke_session, revoke_other_sessions,
}
use fund_lok.Auth.Totp.{
  count_unused_recovery_codes, consume_second_factor, enable_totp, has_password,
}
use fund_lok.Auth.Login.{find_email, login}
use fund_lok.Auth.Accounts.{register_user}
use fund_lok.Auth.UserAgent.{describe_device, describe_browser}
use fund_lok.Auth.Calls.{logs_out, waits, run}
use fund_lok.Auth.Exchange.{exchanged_once}
use fund_lok.Auth.Kinds.{access, challenge, mint, admits, claims_of, mint-admits}
use fund_lok.Auth.SecondFactor.{consume_second_factor-count}
use fund_lok.Auth.Guard.{login_tokens}
use fund_lok.Auth.Continuation.{IsRefreshable, next_claims, refresh_continues}
use fund_lok.Auth.Store.{
  store_of, spend_session, spend_others, revoke_session-refines, revoke_other_sessions-refines,
}
use fund_lok.Auth.Samples.{sample, toy, token_row, member, accounts}
use fund_lok.Auth.Minted.{IsPairFor}

abbrev after_refresh : Result TokenPair × Db
after_refresh = refresh_token_pair toy "first" none none accounts

exchanged_once_example :
    (e : Error) × (refresh_token_pair toy "first" none none (
        run toy
          (waits 5 ∷ logs_out none ∷ [])
          (refresh_token_pair toy "first" none none accounts).1)
      ≡ (
        err e,
        run toy
            (waits 5 ∷ logs_out none ∷ [])
            (refresh_token_pair toy "first" none none accounts).1,
      ))
unfolding refresh_token_pair uuid_text
exchanged_once_example =
    exchanged_once toy "first" none none none none accounts
      (record {
        access_token = uuid_text 100;
        refresh_token = uuid_text 101;
        token_type = "bearer";
      })
      (waits 5 ∷ logs_out none ∷ []) refl

mint-admits_example :
    admits (sample (claims_of toy challenge 1 0 100)) access (uuid_text 100) empty_db ≡ false
unfolding mint uuid_text
mint-admits_example =
    mint-admits (sample (claims_of toy challenge 1 0 100)) challenge access 1 empty_db empty_db
      (uuid_text 100) refl refl refl

consume_second_factor-count_example :
    suc (count_unused_recovery_codes 1 (consume_second_factor toy member "DEF" accounts).1)
    ≡ count_unused_recovery_codes 1 accounts
unfolding consume_second_factor strip
consume_second_factor-count_example =
    consume_second_factor-count toy member "DEF" accounts (refl, (refl, tt)) refl refl

login_tokens_example :
    (find_email "a@b.vn" accounts.users ≡ ok (some member))
    × (has_password toy "secret" member ≡ true)
    × (member.totp_enabled ≡ false)
    × IsPairFor toy 1
        (record {
          access_token = uuid_text 100;
          refresh_token = uuid_text 101;
          token_type = "bearer";
        })
        accounts
        (login toy "a@b.vn" "secret" none none none false accounts).1
unfolding login uuid_text
login_tokens_example =
    login_tokens toy "a@b.vn" "secret" none none none false accounts member
      (record {
        access_token = uuid_text 100;
        refresh_token = uuid_text 101;
        token_type = "bearer";
      })
      refl

-- Tokens that decode to what a refresh of the sample signs.
abbrev next_toy : Security
next_toy = sample (next_claims toy 1 accounts)

can_refresh : IsRefreshable next_toy "first" 1 9 accounts
unfolding find_token uuid_text
can_refresh = record {
  stored = token_row;
  continues = refl;
  read = refl;
  found = refl;
  live = refl;
}

refresh_continues_example :
    (pair : TokenPair) × (after : Db) × (refresh_token_pair next_toy "first" none none accounts
      ≡ (ok pair, after))
    × IsRefreshable next_toy pair.refresh_token 1 9 (record after { clock = accounts.clock + 60 })
unfolding uuid_text
refresh_continues_example =
    refresh_continues next_toy "first" none none 1 9 60 accounts can_refresh refl refl refl
      (omega arith)

revoke_session-refines_example :
    store_of (revoke_session toy 1 8 (some "first") accounts).1.refresh_tokens "other"
    ≡ spend_session toy 1 8 (store_of accounts.refresh_tokens) "other"
unfolding revoke_session
revoke_session-refines_example =
    revoke_session-refines toy 1 accounts 8 1 (some "first") "other" refl

others_spent :
    store_of (revoke_other_sessions toy 1 (some "first") accounts).1.refresh_tokens "other"
    ≡ spend_others toy 1 (some "first") (store_of accounts.refresh_tokens) "other"
others_spent = revoke_other_sessions-refines toy 1 accounts (some "first") "other"

-- The label of a browser, and of a device.
chrome : describe_browser toy (some "Mozilla/5.0 (Windows NT 10.0) Chrome/1") ≡ "Chrome 1"
unfolding describe_browser
chrome = refl

phone : describe_device (some "Mozilla/5.0 (iPhone; like Mac OS X)") ≡ "iPhone"
unfolding describe_device
phone = refl

-- Registration with a new address stores a user and sends a link.
registered : length (register_user toy "c@d.vn" (some "0900") "C" "pw" none accounts).1.users ≡ 2
unfolding register_user
registered = refl

-- Enrolment stores eight recovery codes of the user, in place of the two.
enrolled :
    length
      (enable_totp
        (record toy { totp_verify = λ now secret code. true })
        (record member { totp_secret = some "v1:S" })
        "123456"
        accounts).1.totp_recovery_codes
    ≡ 8
unfolding enable_totp strip
enrolled = refl
