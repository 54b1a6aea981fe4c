-- ===== src/Sessions.antt =====
-- Admin sessions: gruvax/auth/sessions.py, gruvax/auth/session_policy.py, the login and logout of
-- gruvax/api/admin/login.py, and `require_admin` of gruvax/api/deps.py. Times are seconds.
pub mod History
pub mod Handlers
pub mod Keeps
pub mod LetIn
pub mod Capped
pub mod Lockout
use gruvax.Base.{
  ℕ, ◌+◌, Bool, true, false, ◌&&◌, not, ltb, leb, ◌==◌, Option, none, some, List, [], ◌∷◌, ◌++◌,
  map, Text, text_eq, codes, if◌then◌else◌, length, is_nil, any, refl,
}
use gruvax.Base.Dict.{KeyTest, get}

-- A row of `gruvax.admin_sessions`.
pub record AdminSession : Type 0 where
  pub id : Text
  pub created_at : ℕ
  pub last_seen_at : ℕ
  pub expires_at : ℕ
  pub hard_expires_at : ℕ
  pub revoked_at : Option ℕ

abbrev pub Table : Type 0
Table = List AdminSession

-- A decoded value of the settings cache.
pub data Setting : Type 0 where
  integer : ℕ → Setting
  negative boolean other : Setting

-- The two settings that the policy reads.
pub record SettingsCache : Type 0 where
  pub idle_ttl_seconds : Option Setting
  pub hard_cap_seconds : Option Setting

abbrev pub default_hard_cap_seconds : ℕ
default_hard_cap_seconds = 1800

unfoldable pub positive_seconds : Option Setting → ℕ → ℕ
positive_seconds (some (integer n)) default = if ltb 0 n then n else default
positive_seconds _ default = default

unfoldable pub admin_session_policy : SettingsCache → ℕ → ℕ × ℕ
admin_session_policy cache idle_default = (
  positive_seconds cache.idle_ttl_seconds idle_default,
  positive_seconds cache.hard_cap_seconds default_hard_cap_seconds,
)

abbrev pub earlier : ℕ → ℕ → ℕ
earlier a b = if ltb b a then b else a

unfoldable pub is_session_valid : ℕ → ℕ → ℕ → Option ℕ → Bool
is_session_valid now expires_at hard_expires_at (some t) = false
is_session_valid now expires_at hard_expires_at none = leb now expires_at && leb now hard_expires_at

-- `SELECT ... WHERE id = %s`.
unfoldable pub find_session : Text → Table → Option AdminSession
find_session id [] = none
find_session id (s ∷ table) =
    let rest = find_session id table in if text_eq s.id id then some s else rest

-- The times that `create_session` returns.
pub record SessionInfo : Type 0 where
  pub expires_at : ℕ
  pub hard_cap_at : ℕ
  pub expires_in_seconds : ℕ
  pub hard_cap_in_seconds : ℕ

abbrev pub is_free : Option AdminSession → Bool
is_free none = true
is_free (some s) = false

abbrev pub new_session : Text → ℕ → ℕ → ℕ → AdminSession
new_session id now idle_ttl_seconds hard_cap_seconds =
    let hard_expires_at = now + hard_cap_seconds in
    record {
      id = id;
      created_at = now;
      last_seen_at = now;
      expires_at = earlier (now + idle_ttl_seconds) hard_expires_at;
      hard_expires_at = hard_expires_at;
      revoked_at = none;
    }

-- With the fresh UUID as an argument; `none` is the error of a key that the table has already.
unfoldable pub create_session : Text → ℕ → ℕ → ℕ → Table → Option (SessionInfo × Table)
create_session id now idle_ttl_seconds hard_cap_seconds table =
    let s = new_session id now idle_ttl_seconds hard_cap_seconds in
    if is_free (find_session id table)
    then some (
      record {
        expires_at = s.expires_at;
        hard_cap_at = s.hard_expires_at;
        expires_in_seconds = earlier idle_ttl_seconds hard_cap_seconds;
        hard_cap_in_seconds = hard_cap_seconds;
      },
      table ++ s ∷ [],
    )
    else none

abbrev pub revoke : ℕ → AdminSession → AdminSession
revoke now s = record s { revoked_at = some now }

-- `UPDATE ... SET revoked_at WHERE id = %s`.
abbrev pub revoked_if : Text → ℕ → AdminSession → AdminSession
revoked_if id now s = if text_eq s.id id then revoke now s else s

unfoldable pub revoke_session : Text → ℕ → Table → Table
revoke_session id now table = map (revoked_if id now) table

abbrev pub is_open : Option ℕ → Bool
is_open none = true
is_open (some t) = false

-- `UPDATE ... SET revoked_at WHERE revoked_at IS NULL AND id != %s`.
abbrev pub revoked_unless : Text → ℕ → AdminSession → AdminSession
revoked_unless current now s =
    if is_open s.revoked_at && not (text_eq s.id current) then revoke now s else s

unfoldable pub revoke_all_sessions_except : Text → ℕ → Table → Table
revoke_all_sessions_except current now table = map (revoked_unless current now) table

-- `UPDATE ... SET last_seen_at, expires_at WHERE id = %s`.
abbrev pub touched_if : Text → ℕ → ℕ → AdminSession → AdminSession
touched_if id now expires_at s =
    if text_eq s.id id then record s { last_seen_at = now; expires_at = expires_at } else s

unfoldable pub touch : Text → ℕ → ℕ → Table → Table
touch id now expires_at table = map (touched_if id now expires_at) table

-- What `require_admin` reads of a request; a missing header or CSRF cookie is the empty text.
pub record Request : Type 0 where
  pub method : Text
  pub session_cookie : Option Text
  pub csrf_header : Text
  pub csrf_cookie : Text

-- What a request meets: itsdangerous' unsigner with the server's key, passlib's Argon2 context (each
-- `none` where the library raises), `str.isdigit`, and the settings of the moment.
pub record Server : Type 0 where
  pub loads : Text → Option Text
  pub hash : Text → Text → Text
  pub verify : Text → Text → Option Bool
  pub isdigit : Text → Bool
  pub idle_default : ℕ
  pub settings_cache : SettingsCache

-- The errors of `require_admin`, in the order of its checks. A type error is what `compare_digest`
-- raises for text outside ASCII.
pub data Refusal : Type 0 where
  not_authenticated csrf_failed type_error session_not_found session_revoked : Refusal
  session_expired hard_cap_exceeded : Refusal

pub data Access : Type 0 where
  refused : Refusal → Access
  admitted : Text → Access

unfoldable pub get_session_id : Server → Request → Option Text
get_session_id server request = elim request.session_cookie [
  | none ↦ none
  | some cookie ↦ if is_nil cookie then none else server.loads cookie
]

abbrev pub is_mutating : Text → Bool
is_mutating method = any (text_eq method) (map codes ("POST" ∷ "PUT" ∷ "PATCH" ∷ "DELETE" ∷ []))

abbrev pub is_ascii : Text → Bool
is_ascii t = not (any (λ c. leb 128 c) t)

-- The CSRF check; `none` lets the request through.
unfoldable pub csrf_check : Request → Option Refusal
csrf_check request =
    if not (is_mutating request.method)
    then none
    else if is_nil request.csrf_header
    then some csrf_failed
    else if not (is_ascii request.csrf_header && is_ascii request.csrf_cookie)
    then some type_error
    else if text_eq request.csrf_header request.csrf_cookie
    then none
    else some csrf_failed

-- The checks of the row; `none` lets the request through.
unfoldable pub row_check : ℕ → AdminSession → Option Refusal
row_check now s =
    if not (is_open s.revoked_at)
    then some session_revoked
    else if ltb s.expires_at now
    then some session_expired
    else if ltb s.hard_expires_at now
    then some hard_cap_exceeded
    else none

-- The lookup of the row, its checks, and the new end of the sliding window.
unfoldable pub check_session : Server → ℕ → Text → Table → Access × Table
check_session server now id table = elim (find_session id table) [
  | none ↦ (refused session_not_found, table)
  | some s ↦ elim (row_check now s) [
    | some refusal ↦ (refused refusal, table)
    | none ↦
        let (idle_ttl, _) = admin_session_policy server.settings_cache server.idle_default in
        (admitted id, touch id now (earlier (now + idle_ttl) s.hard_expires_at) table)
  ]
]

-- `if not session_id`: no id, or the empty one.
abbrev pub present : Option Text → Option Text
present none = none
present (some id) = if is_nil id then none else some id

unfoldable pub require_admin : Server → ℕ → Request → Table → Access × Table
require_admin server now request table = elim (present (get_session_id server request)) [
  | none ↦ (refused not_authenticated, table)
  | some id ↦ elim (csrf_check request) [
    | some refusal ↦ (refused refusal, table)
    | none ↦ check_session server now id table
  ]
]
