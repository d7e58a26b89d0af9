-- ===== src/Tests/Keyring.antt =====
-- A ring of two keys of 16 bytes, and the queues that wait for a handler.
use mlist.Prelude.{
  ◌≡◌, refl, [], ◌∷◌, false, none, some, arith, ℕ_discrete, count, ltb, not, ◌&&◌, if◌then◌else◌,
}
use mlist.Members.Types.{Bytes}
use mlist.Members.Handlers.{bytes_dec, bytes_equal}
use mlist.Keyring.Keys.{
  Keyring, missing_key, removing_primary, bytes_of, remove_key, new_keyring, add_all, add_key,
  use_key, validate_key, contains,
}
use mlist.Keyring.Laws.{IsValid, new_keyring-IsValid}
use mlist.Keyring.RemoveLaws.{remove_key_lem}
use mlist.Inbox.LongRun.{
  UdpAddr, LongRunMsg, LongRunMsgManager, alive_msg, dead_msg, queue_long_run_msg, get_next_msg,
  new_long_run_msg_manager,
}
use mlist.Inbox.LongRunLaws.{overflow_deadlocks}

abbrev key1 : Bytes
key1 = 1 ∷ 2 ∷ 3 ∷ 4 ∷ 5 ∷ 6 ∷ 7 ∷ 8 ∷ 1 ∷ 2 ∷ 3 ∷ 4 ∷ 5 ∷ 6 ∷ 7 ∷ 8 ∷ []

abbrev key2 : Bytes
key2 = 2 ∷ 2 ∷ 3 ∷ 4 ∷ 5 ∷ 6 ∷ 7 ∷ 8 ∷ 1 ∷ 2 ∷ 3 ∷ 4 ∷ 5 ∷ 6 ∷ 7 ∷ 8 ∷ []

abbrev ring : Keyring
ring = record { primary_key = some key1; keys = key1 ∷ key2 ∷ [] }

ring_made : new_keyring (key2 ∷ key1 ∷ []) (some key1) ≡ some ring
unfolding new_keyring add_all add_key use_key validate_key contains bytes_dec ℕ_discrete
ring_made = refl

ring-IsValid : IsValid ring
ring-IsValid = new_keyring-IsValid (key2 ∷ key1 ∷ []) (some key1) ring_made

remove_key_lem_example :
    let is_primary = bytes_equal key2 (bytes_of ring.primary_key) in
    ((remove_key ring key2).1 ≡ (
      if is_primary
      then some removing_primary
      else if ltb 0 (count bytes_dec key2 ring.keys)
      then none
      else some missing_key))
    × ((remove_key ring key2).0.primary_key ≡ ring.primary_key)
    × ((k : Bytes)
        → count bytes_dec k (remove_key ring key2).0.keys
          ≡ (if not is_primary && bytes_equal k key2 then 0 else count bytes_dec k ring.keys))
remove_key_lem_example = remove_key_lem ring key2 ring-IsValid

abbrev somewhere : UdpAddr
somewhere = record { ip = 10 ∷ 0 ∷ 0 ∷ 9 ∷ []; port = 7946 }

abbrev alive_note : LongRunMsg
alive_note = record { m_type = alive_msg; msg = 1 ∷ []; from = somewhere }

abbrev dead_note : LongRunMsg
dead_note = record { m_type = dead_msg; msg = 2 ∷ []; from = somewhere }

abbrev full : LongRunMsgManager
full = record (new_long_run_msg_manager 1) { low_prior_queue = dead_note ∷ [] }

overflow_deadlocks_example :
    (mng' : LongRunMsgManager) × (queue_long_run_msg full dead_note ≡ some (mng', false))
    × ((m' : LongRunMsg) → queue_long_run_msg mng' m' ≡ none)
    × (get_next_msg mng' ≡ none)
unfolding new_long_run_msg_manager
overflow_deadlocks_example = overflow_deadlocks full dead_note refl (omega arith)
