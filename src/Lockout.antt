-- ===== src/Lockout.antt =====
-- backend/app/routers/auth.py: how failed logins lock a pair of an address and a client. Times are
-- in seconds. Redis is a parameter of each call, as it is for Revocation.
pub mod Window
pub mod Five
use employed.Base.{
  Bool, List, Option, [], false, if◌then◌else◌, is_empty, leb, length, list_eq, ltb, nat_eq, none,
  not, option_eq, or_else, some, string_eq, ℕ, ◌&&◌, ◌++◌, ◌+◌, ◌==◌, ◌∷◌,
}
use employed.Base.Text.{Text, lower, strip}
use employed.Base.Dict.{Dict, erase, insert, lookup}
use employed.Revocation.{RedisRead, RedisWrite, found, written}

-- `FailedLoginTracker`
pub record Tracker : Type 0 where
  pub attempts : Dict Text (List ℕ)
  pub locks : Dict Text ℕ

abbrev pub failed_login_limit : ℕ
failed_login_limit = 5

abbrev pub failed_login_window : ℕ
failed_login_window = 900

abbrev pub failed_login_lockout : ℕ
failed_login_lockout = 900

-- The attempts of a key, empty for one that the `defaultdict` does not have.
unfoldable pub attempts_of : Text → Tracker → List ℕ
attempts_of key t = or_else (lookup key t.attempts) []

-- The attempts from the front on go that the window has left.
unfoldable pub drop_old : ℕ → List ℕ → List ℕ
drop_old now [] = []
drop_old now (at ∷ bucket) =
    let rest = drop_old now bucket in
    if leb (at + failed_login_window) now then rest else at ∷ bucket

-- A lock that has run out.
unfoldable pub is_over : ℕ → Option ℕ → Bool
is_over now none = false
is_over now (some locked_until) = leb locked_until now

-- `_prune`
unfoldable pub prune : Text → ℕ → Tracker → Tracker
unfolding attempts_of drop_old is_over
prune key now t =
    let bucket = drop_old now (attempts_of key t) in
    record {
      attempts = if is_empty bucket then erase key t.attempts else insert key bucket t.attempts;
      locks = if is_over now (lookup key t.locks) then erase key t.locks else t.locks;
    }

-- A lock that is there and runs.
unfoldable pub still_locked : ℕ → Option ℕ → Bool
still_locked now none = false
still_locked now (some locked_until) = not (locked_until == 0) && ltb now locked_until

-- `is_locked`
unfoldable pub is_locked : Text → ℕ → Tracker → Bool × Tracker
unfolding prune still_locked
is_locked key now t = let t' = prune key now t in (still_locked now (lookup key t'.locks), t')

-- The end of `record_failure`, the attempt appended.
unfoldable pub store_attempts : Text → ℕ → List ℕ → Tracker → Tracker
store_attempts key now bucket t =
    if leb failed_login_limit (length bucket)
    then record {
      attempts = erase key (insert key bucket t.attempts);
      locks = insert key (now + failed_login_lockout) t.locks;
    }
    else record t { attempts = insert key bucket t.attempts }

-- `record_failure`
unfoldable pub record_failure : Text → ℕ → Tracker → Tracker
unfolding prune attempts_of store_attempts
record_failure key now t =
    let pruned = prune key now t in
    store_attempts key now (attempts_of key pruned ++ now ∷ []) pruned

-- `record_success`
unfoldable pub record_success : Text → Tracker → Tracker
record_success key t = record { attempts = erase key t.attempts; locks = erase key t.locks }

-- `clear`
unfoldable pub clear : Tracker → Tracker
clear t = record { attempts = []; locks = [] }

-- `_lockout_key`
unfoldable pub lockout_key : Text → Text → Text
lockout_key email client_ip = lower (strip email) ++ b'|' ∷ client_ip

-- `_lockout_is_locked`
unfoldable pub lockout_is_locked : RedisRead → Text → ℕ → Tracker → Bool × Tracker
lockout_is_locked (RedisRead.found there) key now t = (there, t)
lockout_is_locked _ key now t = is_locked key now t

-- `_lockout_record_failure`, what it does in the process
unfoldable pub lockout_record_failure : RedisWrite → Text → ℕ → Tracker → Tracker
lockout_record_failure RedisWrite.written key now t = t
lockout_record_failure _ key now t = record_failure key now t

-- `_lockout_record_success`, what it does in the process
unfoldable pub lockout_record_success : RedisWrite → Text → Tracker → Tracker
lockout_record_success RedisWrite.written key t = t
lockout_record_success _ key t = record_success key t
