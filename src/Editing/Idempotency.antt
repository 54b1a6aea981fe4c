-- ===== src/Editing/Idempotency.antt =====
-- The idempotency keys of gruvax/db/queries.py.
use gruvax.Base.{
  ℕ, ◌+◌, not, Option, none, some, List, [], ◌∷◌, ◌++◌, Text, text_eq, ltb, any, keep,
  if◌then◌else◌, is_nil,
}
use gruvax.Editing.{CachedResponse, IdempotencyRow, Environment, Database}

-- `SELECT response_json ... WHERE key = %s`.
unfoldable pub cached_response : Text → List IdempotencyRow → Option CachedResponse
cached_response key [] = none
cached_response key (r ∷ rows) =
    let rest = cached_response key rows in if text_eq r.key key then some r.response else rest

-- `check_idempotency`, which a handler calls where the header is there and not empty.
unfoldable pub check_idempotency : Option Text → Database → Option CachedResponse
check_idempotency none db = none
check_idempotency (some key) db =
    if is_nil key then none else cached_response key db.idempotency_keys

-- `ON CONFLICT (key) DO NOTHING`.
unfoldable pub insert_key :
    Environment → Text → CachedResponse → List IdempotencyRow → List IdempotencyRow
insert_key env key response rows =
    if any (λ r. text_eq r.key key) rows
    then rows
    else rows ++ record { key = key; response = response; created_at = env.now } ∷ []

unfoldable pub store_idempotency : Environment → Option Text → CachedResponse → Database → Database
store_idempotency env none response db = db
store_idempotency env (some key) response db =
    if is_nil key
    then db
    else (record db { idempotency_keys = insert_key env key response db.idempotency_keys })

-- 24 hours, in seconds.
abbrev pub lifetime : ℕ
lifetime = 86400

unfoldable pub cleanup_idempotency : Environment → Database → Database
cleanup_idempotency env db = record db {
  idempotency_keys = keep (λ r. not (ltb (r.created_at + lifetime) env.now)) db.idempotency_keys;
}
