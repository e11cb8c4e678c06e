-- ===== src/Caching/Expiry.antt =====
-- internal/bff/adapters/outbound/cache/memory.go: what a reader of the cache gets.
use vuhive_cloud.Common.{
  ◌≡◌, refl, ap, ◌∙◌, false, none, some, List, [], ◌∷◌, Text, text_eq, text_eq_refl, if◌then◌else◌,
}
use vuhive_cloud.Common.Dict.{lookup, lookup-insert, lookup-delete}
use vuhive_cloud.Common.Time.{Time, Duration, add, after}
use vuhive_cloud.Caching.{MemoryCache, get, set, remove, fresh_value}

-- A write, or the removal of a key.
pub data Call : Type 0 where
  sets : Time → Text → Text → Duration → Call
  removes : Text → Call

unfoldable pub perform : Call → MemoryCache → MemoryCache
perform (sets now key content ttl) c = set now key content ttl c
perform (removes key) c = remove key c

unfoldable pub perform_all : List Call → MemoryCache → MemoryCache
perform_all [] c = c
perform_all (call ∷ rest) c = perform_all rest (perform call c)

-- The key of a call.
abbrev pub key_of : Call → Text
key_of (sets now key content ttl) = key
key_of (removes key) = key

abbrev pub Others : Text → List Call → Type 0
Others key [] = Unit
Others key (call ∷ rest) = (text_eq (key_of call) key ≡ false) × Others key rest

get-perform :
    (read : Time) (key : Text) (call : Call) (c : MemoryCache)
    → text_eq (key_of call) key ≡ false
    → get read key (perform call c) ≡ get read key c
unfolding perform get set remove
get-perform read key (sets now k content ttl) c h = ap (fresh_value read) (
    lookup-insert k key (record { value = content; expires_at = add now ttl }) c.items
    ∙ ap
        (λ b.
          if b
          then some (record { value = content; expires_at = add now ttl })
          else lookup key c.items)
        h)
get-perform read key (removes k) c h =
    ap (fresh_value read)
      (lookup-delete k key c.items ∙ ap (λ b. if b then none else lookup key c.items) h)

get-perform_all :
    (read : Time) (key : Text) (calls : List Call) (c : MemoryCache)
    → Others key calls
    → get read key (perform_all calls c) ≡ get read key c
unfolding perform_all
get-perform_all read key [] c h = refl
get-perform_all read key (call ∷ rest) c h =
    get-perform_all read key rest (perform call c) h.1 ∙ get-perform read key call c h.0

get-set :
    (read now : Time) (key content : Text) (ttl : Duration) (c : MemoryCache)
    → get read key (set now key content ttl c)
      ≡ (if after read (add now ttl) then none else some content)
unfolding get set
get-set read now key content ttl c = ap (fresh_value read) (
    lookup-insert key key (record { value = content; expires_at = add now ttl }) c.items
    ∙ ap
        (λ b.
          if b
          then some (record { value = content; expires_at = add now ttl })
          else lookup key c.items)
        (text_eq_refl key))

-- The cache keeps a value for just its time to live: whatever is written under other keys or removed
-- in between, a read returns the value that was last set for its key up to the instant at which the
-- time to live has passed, and nothing after it.
pub cached_until_expiry :
    (read now : Time) (key content : Text) (ttl : Duration) (calls : List Call) (c : MemoryCache)
    → Others key calls
    → get read key (perform_all calls (set now key content ttl c))
      ≡ (if after read (add now ttl) then none else some content)
cached_until_expiry read now key content ttl calls c h =
    get-perform_all read key calls (set now key content ttl c) h
    ∙ get-set read now key content ttl c
