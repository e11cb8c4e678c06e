-- ===== src/Session/Store.antt =====
-- internal/bff/adapters/outbound/session/memory/store.go, and the port that it implements,
-- internal/bff/application/ports/outbound. A nil session is `none`. `Clone` keeps what the store
-- holds apart from what callers hold: values are copied here in any case.
use vuhive_cloud.Common.{
  ℕ, ◌≡◌, refl, sym, ap, length, List, Bool, Option, none, some, [], Text, text_eq, if◌then◌else◌,
  is_some, Error, Result, ok, err, session_not_found, invalid_parameter, Bool-cases, true, false,
  inl, inr,
}
use vuhive_cloud.Common.Dict.{
  Dict, lookup, insert, delete, delete_where, count, Distinct, spare, lookup-insert, lookup-delete,
  lookup-delete_where, insert-Distinct, delete-Distinct, delete_where-Distinct, is_among, Unique,
  satisfies, keys_where, length-keys_where, keys_where_lem, keys_where-Unique,
}
use vuhive_cloud.Common.Time.{Time, before}
use vuhive_cloud.Session.{ClientSession}

-- outbound.SessionStore, on a state of any type.
pub record SessionStore (S : Type 0) : Type 0 where
  pub create : Option ClientSession → S → S × Option Error
  pub get : Text → S → Result ClientSession
  pub update : Option ClientSession → S → S × Option Error
  pub delete_id : Text → S → S × Option Error
  pub delete_by_keycloak_sid : Text → S → S × Option Error
  pub delete_by_user_id : Text → S → S × Option Error
  pub delete_expired : Time → S → S × Result ℕ

abbrev pub has_sid : Text → ClientSession → Bool
has_sid sid s = text_eq s.keycloak_sid sid

abbrev pub has_user : Text → ClientSession → Bool
has_user user s = text_eq s.user_id user

abbrev pub expires_before : Time → ClientSession → Bool
expires_before cutoff s = before s.expires_at cutoff

pub record MemorySessionStore : Type 0 where
  pub sessions : Dict ClientSession

abbrev pub new_memory_session_store : MemorySessionStore
new_memory_session_store = record { sessions = [] }

unfoldable pub memory_create :
    Option ClientSession → MemorySessionStore → MemorySessionStore × Option Error
memory_create none s = (s, some invalid_parameter)
memory_create (some x) s = (record s { sessions = insert x.id x s.sessions }, none)

unfoldable pub memory_get : Text → MemorySessionStore → Result ClientSession
memory_get id s = elim (lookup id s.sessions) [ none ↦ err session_not_found | some x ↦ ok x ]

unfoldable pub memory_update :
    Option ClientSession → MemorySessionStore → MemorySessionStore × Option Error
memory_update none s = (s, some invalid_parameter)
memory_update (some x) s =
    if is_some (lookup x.id s.sessions)
    then (record s { sessions = insert x.id x s.sessions }, none)
    else (s, some session_not_found)

unfoldable pub memory_delete : Text → MemorySessionStore → MemorySessionStore × Option Error
memory_delete id s = (record s { sessions = delete id s.sessions }, none)

unfoldable pub memory_delete_by_keycloak_sid :
    Text → MemorySessionStore → MemorySessionStore × Option Error
memory_delete_by_keycloak_sid sid s =
    (record s { sessions = delete_where (has_sid sid) s.sessions }, none)

unfoldable pub memory_delete_by_user_id :
    Text → MemorySessionStore → MemorySessionStore × Option Error
memory_delete_by_user_id user s =
    (record s { sessions = delete_where (has_user user) s.sessions }, none)

unfoldable pub memory_delete_expired : Time → MemorySessionStore → MemorySessionStore × Result ℕ
memory_delete_expired cutoff s = (
  record s { sessions = delete_where (expires_before cutoff) s.sessions },
  ok (count (expires_before cutoff) s.sessions),
)

abbrev pub memory_store : SessionStore MemorySessionStore
memory_store = record {
  create = memory_create;
  get = memory_get;
  update = memory_update;
  delete_id = memory_delete;
  delete_by_keycloak_sid = memory_delete_by_keycloak_sid;
  delete_by_user_id = memory_delete_by_user_id;
  delete_expired = memory_delete_expired;
}

-- A store that is well formed behaves as a map from identifiers to sessions, `view`: each call
-- changes the map and answers as the port promises, and keeps the store well formed. A deletion of
-- what has expired answers how many sessions that was: the length of a list of their identifiers.
pub record IsStore {S : Type 0} (store : SessionStore S) (view : S → Text → Option ClientSession)
    (WellFormed : S → Type 0) : Type 0 where
  pub create_view :
      (x : ClientSession) (s : S) (j : Text)
      → WellFormed s
      → view (store.create (some x) s).0 j ≡ (if text_eq x.id j then some x else view s j)
  pub create_answer : (x : ClientSession) (s : S) → (store.create (some x) s).1 ≡ none
  pub create_nil : (s : S) → store.create none s ≡ (s, some invalid_parameter)
  pub create_kept :
      (x : Option ClientSession) (s : S) → WellFormed s → WellFormed (store.create x s).0
  pub get_missing : (j : Text) (s : S) → view s j ≡ none → store.get j s ≡ err session_not_found
  pub get_present :
      (j : Text) (s : S) (x : ClientSession) → view s j ≡ some x → store.get j s ≡ ok x
  pub update_view :
      (x : ClientSession) (s : S) (j : Text)
      → WellFormed s
      → is_some (view s x.id) ≡ true
      → view (store.update (some x) s).0 j ≡ (if text_eq x.id j then some x else view s j)
  pub update_answer :
      (x : ClientSession) (s : S)
      → is_some (view s x.id) ≡ true
      → (store.update (some x) s).1 ≡ none
  pub update_missing :
      (x : ClientSession) (s : S)
      → is_some (view s x.id) ≡ false
      → store.update (some x) s ≡ (s, some session_not_found)
  pub update_nil : (s : S) → store.update none s ≡ (s, some invalid_parameter)
  pub update_kept :
      (x : Option ClientSession) (s : S) → WellFormed s → WellFormed (store.update x s).0
  pub delete_view :
      (k j : Text) (s : S)
      → WellFormed s
      → view (store.delete_id k s).0 j ≡ (if text_eq k j then none else view s j)
  pub delete_answer : (k : Text) (s : S) → (store.delete_id k s).1 ≡ none
  pub delete_kept : (k : Text) (s : S) → WellFormed s → WellFormed (store.delete_id k s).0
  pub sid_view :
      (sid j : Text) (s : S)
      → WellFormed s
      → view (store.delete_by_keycloak_sid sid s).0 j ≡ spare (has_sid sid) (view s j)
  pub sid_answer : (sid : Text) (s : S) → (store.delete_by_keycloak_sid sid s).1 ≡ none
  pub sid_kept :
      (sid : Text) (s : S) → WellFormed s → WellFormed (store.delete_by_keycloak_sid sid s).0
  pub user_view :
      (user j : Text) (s : S)
      → WellFormed s
      → view (store.delete_by_user_id user s).0 j ≡ spare (has_user user) (view s j)
  pub user_answer : (user : Text) (s : S) → (store.delete_by_user_id user s).1 ≡ none
  pub user_kept :
      (user : Text) (s : S) → WellFormed s → WellFormed (store.delete_by_user_id user s).0
  pub expired_view :
      (cutoff : Time) (j : Text) (s : S)
      → WellFormed s
      → view (store.delete_expired cutoff s).0 j ≡ spare (expires_before cutoff) (view s j)
  pub expired_answer :
      (cutoff : Time) (s : S)
      → WellFormed s
      → (ids : List Text) × Unique ids
        × ((j : Text) → is_among j ids ≡ satisfies (expires_before cutoff) (view s j))
        × ((store.delete_expired cutoff s).1 ≡ ok (length ids))
  pub expired_kept :
      (cutoff : Time) (s : S) → WellFormed s → WellFormed (store.delete_expired cutoff s).0

abbrev pub memory_view : MemorySessionStore → Text → Option ClientSession
memory_view s j = lookup j s.sessions

abbrev pub MemoryWellFormed : MemorySessionStore → Type 0
MemoryWellFormed s = Distinct s.sessions

update_kept_memory :
    (x : Option ClientSession) (s : MemorySessionStore)
    → MemoryWellFormed s
    → MemoryWellFormed (memory_update x s).0
unfolding memory_update
update_kept_memory none s h = h
update_kept_memory (some x) s h = elim (Bool-cases (is_some (lookup x.id s.sessions))) [
  | inl e ↦ rw e (insert-Distinct x.id x s.sessions h)
  | inr e ↦ rw e h
]

get_missing_memory :
    (j : Text) (s : MemorySessionStore)
    → lookup j s.sessions ≡ none
    → memory_get j s ≡ err session_not_found
unfolding memory_get
get_missing_memory j s h = rw (memory_get, h) refl

get_present_memory :
    (j : Text) (s : MemorySessionStore) (x : ClientSession)
    → lookup j s.sessions ≡ some x
    → memory_get j s ≡ ok x
unfolding memory_get
get_present_memory j s x h = rw (memory_get, h) refl

create_kept_memory :
    (x : Option ClientSession) (s : MemorySessionStore)
    → MemoryWellFormed s
    → MemoryWellFormed (memory_create x s).0
unfolding memory_create
create_kept_memory none s h = h
create_kept_memory (some x) s h = insert-Distinct x.id x s.sessions h

-- The store in memory keeps each identifier at most once and behaves as a map from identifiers to
-- sessions: on every call, those with a nil session and an absent identifier included, the map
-- changes and the call answers as the port promises, `DeleteExpired` with the number of the sessions
-- that it deletes.
pub memory_store-IsStore : IsStore memory_store memory_view MemoryWellFormed
unfolding memory_create memory_get memory_update memory_delete memory_delete_by_keycloak_sid
    memory_delete_by_user_id memory_delete_expired
memory_store-IsStore = record {
  create_view = λ x s j h. lookup-insert x.id j x s.sessions;
  create_answer = λ x s. refl;
  create_nil = λ s. refl;
  create_kept = create_kept_memory;
  get_missing = get_missing_memory;
  get_present = get_present_memory;
  update_view = λ x s j h e. rw e (lookup-insert x.id j x s.sessions);
  update_answer = λ x s e. rw e;
  update_missing = λ x s e. rw e;
  update_nil = λ s. refl;
  update_kept = update_kept_memory;
  delete_view = λ k j s h. lookup-delete k j s.sessions;
  delete_answer = λ k s. refl;
  delete_kept = λ k s h. delete-Distinct k s.sessions h;
  sid_view = λ sid j s h. lookup-delete_where (has_sid sid) j s.sessions h;
  sid_answer = λ sid s. refl;
  sid_kept = λ sid s h. delete_where-Distinct (has_sid sid) s.sessions h;
  user_view = λ user j s h. lookup-delete_where (has_user user) j s.sessions h;
  user_answer = λ user s. refl;
  user_kept = λ user s h. delete_where-Distinct (has_user user) s.sessions h;
  expired_view = λ cutoff j s h. lookup-delete_where (expires_before cutoff) j s.sessions h;
  expired_answer = λ cutoff s h. (
    keys_where (expires_before cutoff) s.sessions,
    keys_where-Unique (expires_before cutoff) s.sessions h,
    λ j. keys_where_lem (expires_before cutoff) j s.sessions h,
    ap ok (sym (length-keys_where (expires_before cutoff) s.sessions)),
  );
  expired_kept = λ cutoff s h. delete_where-Distinct (expires_before cutoff) s.sessions h;
}
