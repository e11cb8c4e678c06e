-- ===== src/Session/Tests.antt =====
-- internal/bff/application/service/session_service.go: a session in the store of memory.go.
use vuhive_cloud.Common.{
  ◌*◌, ◌≡◌, refl, some, List, [], ◌∷◌, codes, ok, err, session_not_found, session_expired, arith,
  ◌↔◌,
}
use vuhive_cloud.Common.Dict.{Distinct, lookup, insert}
use vuhive_cloud.Common.Int.{pos, ◌≤ℤ◌, ◌+ℤ◌, ◌-ℤ◌}
use vuhive_cloud.Common.Time.{sub, hour}
use vuhive_cloud.Session.{ClientSession, new_client_session, apply_options, rotate_tokens, touch}
use vuhive_cloud.Session.Store.{
  MemorySessionStore, memory_store, memory_view, memory_store-IsStore, memory_create, memory_get,
  memory_update,
}
use vuhive_cloud.Session.Service.{
  SessionServiceConfig, CreateSessionCommand, RotateTokensCommand, create_session, get_session,
  rotate_session_tokens, revoke_session, clean_once, configured, options_of, remaining_ttl,
  rotation_ttl, persist_new, persist_update, slide, rotate_found,
}
use vuhive_cloud.Session.Expiry.{getting, rotating, fetch, no_expired_session}
use vuhive_cloud.Session.Sliding.{Access, OnTime, IsFresh, AllServed, active_session_survives}
use vuhive_cloud.Session.Calls.{cleans, gets, perform_all, revoked_stays_gone}
use vuhive_cloud.Session.Cleaning.{cleaning_unseen}

abbrev config : SessionServiceConfig
config = record { session_ttl = pos (24 * hour); sliding_threshold = pos 900 }

abbrev alice : ClientSession
alice = record {
  id = codes "s1";
  user_id = codes "alice";
  keycloak_sid = codes "k1";
  access_token = codes "a";
  refresh_token = codes "r";
  id_token = codes "i";
  roles = codes "vuhive-viewer" ∷ [];
  created_at = pos 1000;
  updated_at = pos 1000;
  expires_at = pos 5000;
  metadata = [];
}

abbrev one_session : MemorySessionStore
one_session = record { sessions = (codes "s1", alice) ∷ [] }

abbrev rotation : RotateTokensCommand
rotation = record {
  session_id = codes "s1";
  access_token = codes "a2";
  refresh_token = codes "r2";
  id_token = [];
  ttl = pos 0;
}

abbrev login : CreateSessionCommand
login = record {
  session_id = codes "s2";
  user_id = codes "bob";
  keycloak_sid = codes "k2";
  access_token = codes "a";
  refresh_token = [];
  id_token = [];
  roles = codes "vuhive-admin" ∷ [];
  ttl = pos 700;
  metadata = [];
}

abbrev touched : ClientSession
touched = record alice { updated_at = pos 3002; expires_at = pos 7002 }

abbrev turned : ClientSession
turned = record alice {
  access_token = codes "a2";
  refresh_token = codes "r2";
  updated_at = pos 3002;
  expires_at = pos 7002;
}

abbrev bob : ClientSession
bob = record {
  id = codes "s2";
  user_id = codes "bob";
  keycloak_sid = codes "k2";
  access_token = codes "a";
  refresh_token = [];
  id_token = [];
  roles = codes "vuhive-admin" ∷ [];
  created_at = pos 3002;
  updated_at = pos 3002;
  expires_at = pos 3702;
  metadata = [];
}

gets_touched :
    (get_session memory_store config (pos 3000) (pos 3001) (pos 3002) (codes "s1") one_session).1
    ≡ ok touched
unfolding get_session memory_get lookup slide sub ◌-ℤ◌ ◌+ℤ◌ touch remaining_ttl persist_update
    memory_update insert
gets_touched = refl

gets_turned :
    (rotate_session_tokens memory_store config
      (pos 3000)
      (pos 3001)
      (pos 3002)
      rotation
      one_session).1
    ≡ ok turned
unfolding rotate_session_tokens memory_get lookup rotate_found sub ◌-ℤ◌ ◌+ℤ◌ rotate_tokens
    rotation_ttl remaining_ttl persist_update memory_update insert
gets_turned = refl

gets_bob : (create_session memory_store config (pos 3002) login one_session).1 ≡ ok bob
unfolding create_session new_client_session options_of apply_options persist_new memory_create ◌+ℤ◌
gets_bob = refl

refuses_expired :
    (get_session memory_store config (pos 5001) (pos 5001) (pos 5002) (codes "s1") one_session).1
    ≡ err session_expired
unfolding get_session memory_get lookup slide
refuses_expired = refl

default_configuration :
    configured [] ≡ configured (record { session_ttl = pos 0; sliding_threshold = pos 0 } ∷ [])
unfolding configured
default_configuration = refl

rotates_turned :
    (fetch memory_store config (rotating rotation) (pos 3000) (pos 3001) (pos 3002) one_session).1
    ≡ ok turned
rotates_turned = gets_turned

no_expired_session_example : pos 3002 +ℤ pos 1 ≤ℤ turned.expires_at
no_expired_session_example =
    no_expired_session memory_store config (rotating rotation) (pos 3000) (pos 3001) (pos 3002)
      one_session turned (omega arith) rotates_turned

gets_unexpired : pos 3000 ≤ℤ touched.expires_at
gets_unexpired =
    no_expired_session memory_store config (getting (codes "s1")) (pos 3000) (pos 3001) (pos 3002)
      one_session touched (omega arith) gets_touched

abbrev twice : List Access
twice =
    record { read = pos 3000; checked = pos 3001; now = pos 3002 }
    ∷ record { read = pos 6000; checked = pos 6001; now = pos 6002 }
    ∷ []

one_session-Distinct : Distinct one_session.sessions
unfolding lookup
one_session-Distinct = (refl, tt)

alice-IsFresh : IsFresh 4000 900 (pos 1000) alice
unfolding ◌+ℤ◌
alice-IsFresh = record { expires = refl; recent = omega arith }

on_time : OnTime 3100 (pos 1000) twice
unfolding ◌+ℤ◌
on_time = (
  omega arith,
  omega arith,
  omega arith,
  omega arith,
  (omega arith, omega arith, omega arith, omega arith, tt),
)

finds_alice : memory_view one_session (codes "s1") ≡ some alice
unfolding lookup
finds_alice = refl

active_session_survives_example : AllServed memory_store config alice twice one_session
active_session_survives_example =
    active_session_survives memory_store config memory_store-IsStore 4000 900 (pos 1000) twice
      one_session alice refl (omega arith) (omega arith) (omega arith) refl on_time
      one_session-Distinct finds_alice alice-IsFresh

revoked_stays_gone_example :
    (get_session memory_store config (pos 3000) (pos 3001) (pos 3002) (codes "s1") (
      perform_all memory_store config
        (gets (pos 2000) (pos 2001) (pos 2002) (codes "s1") ∷ cleans (pos 2500) ∷ [])
        (revoke_session memory_store config (codes "s1") one_session).0)).1
    ≡ err session_not_found
revoked_stays_gone_example =
    revoked_stays_gone memory_store config memory_store-IsStore
      (gets (pos 2000) (pos 2001) (pos 2002) (codes "s1") ∷ cleans (pos 2500) ∷ []) (pos 3000)
      (pos 3001) (pos 3002) (codes "s1") one_session refl one_session-Distinct

keyed_alice :
    (x : ClientSession) → memory_view one_session (codes "s1") ≡ some x → x.id ≡ codes "s1"
unfolding lookup
keyed_alice x h = ground arith

cleaning_unseen_example :
    ((get_session memory_store config
        (pos 3000)
        (pos 3001)
        (pos 3002)
        (codes "s1")
        (clean_once (some memory_store) (pos 2000) one_session).0).1
      ≡ ok touched)
    ↔ ((get_session memory_store config (pos 3000) (pos 3001) (pos 3002) (codes "s1") one_session).1
        ≡ ok touched)
cleaning_unseen_example =
    cleaning_unseen memory_store config memory_store-IsStore (pos 2000) (pos 3000) (pos 3001)
      (pos 3002) (codes "s1") one_session touched (omega arith) refl one_session-Distinct
      keyed_alice
