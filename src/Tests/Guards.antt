-- ===== src/Tests/Guards.antt =====
-- Examples on rate limits, revoked tokens and replays.
use employed.Base.{
  ==_iff, All, Bool, List, String, [], arith, false≢true, list_eq, nat_eq, option_eq, refl, some,
  string_eq, ℕ, ◌++◌, ◌==◌, ◌∷◌, ◌≡◌, ◌≢◌, ◌≤◌,
}
use employed.RateLimit.{bucket_of, client_ip, host_or_unknown, is_trusted_proxy}
use employed.RateLimit.Window.{IsOrdered, accepted, accepted_bound, recent_count}
use employed.RateLimit.ClientIp.{client_ip_forged}
use employed.Base.Text.{Text, codes, strip}

abbrev logins : List (ℕ × String)
logins = (10, "login:1") ∷ (12, "login:1") ∷ (20, "login:1") ∷ []

logins_before : All (λ (c : ℕ × String). c.0 ≤ 25) logins
logins_before = (omega arith, (omega arith, (omega arith, tt)))

bucket_IsOrdered : IsOrdered 12 (10 ∷ 12 ∷ [])
bucket_IsOrdered = (omega arith, (omega arith, tt), (omega arith, tt, tt))

abbrev from_proxy : Text → Bool
from_proxy host = host == codes "10"

named_token : ◌≢◌ {A = String} "t1" ""
named_token e = false≢true ((==_iff "t1" "").1 e)

other_token : ◌≢◌ {A = String} "t2" "t1"
other_token e = false≢true ((==_iff "t2" "t1").1 e)

accepted_bound_example : recent_count 25 60 (accepted "login:1" 2 60 logins []) ≤ 2
unfolding bucket_of
accepted_bound_example = accepted_bound "login:1" 25 2 60 logins [] logins_before refl

client_ip_forged_example :
    (client_ip from_proxy (some (codes "8")) (some (codes "1,2"))
      ≡ host_or_unknown (some (codes "8")))
    × (client_ip from_proxy (some (codes "10")) (some ((codes "1") ++ b',' ∷ (codes " 2")))
        ≡ strip (codes " 2"))
unfolding is_trusted_proxy strip
client_ip_forged_example =
    client_ip_forged from_proxy (some (codes "8")) (some (codes "10")) (some (codes "1,2"))
      (codes "1") (codes " 2") refl refl refl refl
