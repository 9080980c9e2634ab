-- ===== src/Session/KeyRing.antt =====
-- network.go: which of the keys of a client opens a packet, goes with a request, and gets a new
-- salt. A nil slice is [], and each key and salt is a value that is read whole under its lock.
pub mod Salts
use gogram.Common.{
  ℕ, Bool, true, false, not, ◌&&◌, Option, none, some, List, [], ◌∷◌, length, ltb, ◌==◌,
  if◌then◌else◌,
}
use gogram.Common.Bytes.{Bytes, same_bytes}

pub record KeyRing : Type 0 where
  pub auth_key : Bytes
  pub auth_key_hash : Bytes
  pub temp_auth_key : Bytes
  pub temp_auth_key_hash : Bytes
  pub pending_temp_auth_key : Bytes
  pub pending_temp_key_hash : Bytes
  pub previous_temp_auth_key : Bytes
  pub previous_temp_key_hash : Bytes
  pub server_salt : ℕ
  pub temp_server_salt : ℕ
  pub pending_temp_salt : ℕ
  pub previous_temp_salt : ℕ
  pub enable_pfs : Bool

-- The loop over the pairs of a key and its hash.
unfoldable pub first_key : Bytes → List (Bytes × Bytes) → Bytes
first_key hash [] = []
first_key hash ((key, key_hash) ∷ rest) =
    if (length hash == 8) && same_bytes hash key_hash then key else first_key hash rest

unfoldable pub get_auth_key_for_hash : KeyRing → Bytes → Bytes
get_auth_key_for_hash m hash = first_key hash (
    (m.auth_key, m.auth_key_hash)
    ∷ (m.temp_auth_key, m.temp_auth_key_hash)
    ∷ (m.pending_temp_auth_key, m.pending_temp_key_hash)
    ∷ (m.previous_temp_auth_key, m.previous_temp_key_hash)
    ∷ [])

-- `bind` is that the request is an `AuthBindTempAuthKeyParams`.
unfoldable pub key_for_request : KeyRing → Bool → Bytes × ℕ
key_for_request m bind =
    if bind
    then (m.pending_temp_auth_key, m.pending_temp_salt)
    else if m.enable_pfs && ltb 0 (length m.temp_auth_key)
    then (m.temp_auth_key, m.temp_server_salt)
    else (m.auth_key, m.server_salt)

abbrev pub store_salt : KeyRing → ℕ → KeyRing
store_salt m salt = record m { server_salt = salt }

-- With the hash that stands in an `Encrypted` message, or none for another message.
unfoldable pub update_salt : KeyRing → Option Bytes → ℕ → KeyRing
update_salt m none salt = store_salt m salt
update_salt m (some h) salt =
    if not (ltb 0 (length h))
    then store_salt m salt
    else if same_bytes h m.pending_temp_key_hash
    then record m { pending_temp_salt = salt }
    else if same_bytes h m.temp_auth_key_hash
    then record m { temp_server_salt = salt }
    else if same_bytes h m.previous_temp_key_hash
    then record m { previous_temp_salt = salt }
    else store_salt m salt
