-- ===== src/Pkcs11/Session/Runs.antt =====
-- The module's state at concrete calls.
use libre_agent.Common.{◌≡◌, refl, true, some, List, [], ◌∷◌, nat_key}
use libre_agent.Common.Map
use libre_agent.Pkcs11.DerivedKeys.{default_template}
use libre_agent.Pkcs11.Session.{
  new_session, Session, DerivedKey, open_session, emplace, set_logged_in, login_of, add_derived_key,
  derived_key, is_logged_in,
}
use libre_agent.Pkcs11.Objects.{Slot}
use libre_agent.Pkcs11.Session.Model.{
  set_model, place_slots, place_slot, end_stale, same_token, slot_by_id,
}
use libre_agent.Pkcs11.Session.Keys.{
  Call, opens, logs_in, adds, refreshes, Derived, step, after, derived_key_added,
}

abbrev secret : DerivedKey
secret = record { slot = 0; creator = 1; attributes = default_template; value = 9 ∷ [] }

abbrev card : Slot
card = record {
  reader_path = "r";
  reader_name = "Reader";
  token_present = true;
  token_label = "Holder";
  token_serial = "42";
  objects = [];
  mechanisms = [];
}

-- A reader with a card, two sessions on its slot, a login, and a key that the first session derives; the
-- reader is refreshed then, with the same card in it.
abbrev past : List Call
past =
    refreshes (card ∷ [])
    ∷ adds secret
    ∷ logs_in 0 100
    ∷ opens 0 6
    ∷ opens 0 4
    ∷ refreshes (card ∷ [])
    ∷ []

past_key : derived_key 2 9223372036854775809 (after past) ≡ some secret
unfolding derived_key after step set_model place_slots place_slot end_stale same_token slot_by_id
    open_session emplace set_logged_in login_of add_derived_key is_logged_in Map.running
past_key = refl

derived_key_added_example :
    (is_logged_in 0 (after past) ≡ true)
    × ((x : Session) × (Map.lookup 2 (after past).sessions ≡ some x) × (x.slot ≡ 0))
    × Derived 9223372036854775809 secret past
derived_key_added_example = derived_key_added 2 9223372036854775809 secret past past_key

abbrev second : Session
second = new_session 0 6

second_open : Map.lookup 2 (after past).sessions ≡ some second
unfolding after step set_model place_slots place_slot end_stale same_token slot_by_id open_session
    emplace set_logged_in login_of add_derived_key Map.running
second_open = refl
