-- ===== src/Service/Resources.antt =====
-- crates/rok-mcp/src/resources.rs, and `list_resources` and `read_resource` of tools.rs: the memories
-- as resources with a URI.
use ethmumbai_rok.Common.{
  ℕ, suc, Bytes, String, ◌≡◌, ◌≢◌, refl, ap, ◌∙◌, not, Option, none, some, false, List, [], ◌∷◌,
  ◌++◌, map, length, take, drop, take-append, drop-append, codes, bytes_eq, if◌then◌else◌,
}
use ethmumbai_rok.Error.{format, str}
use ethmumbai_rok.Text.{starts_with, rfind}
use ethmumbai_rok.Text.Split.{Free}
use ethmumbai_rok.Text.Prefix.{starts_with-append, rfind-append}
use ethmumbai_rok.Crypto.{Crypto}
use ethmumbai_rok.Scope
use ethmumbai_rok.Scope.{Scope, slash}
use ethmumbai_rok.Storage.Backend.{StorageBackend}
use ethmumbai_rok.Memory.{MemoryEntry, reader_read, reader_list}
use ethmumbai_rok.Session.{
  message, Session, Outcome, done, failed, panicked, read_key, memory_reader_with,
}
use ethmumbai_rok.Service.{
  Reply, reply, refused, crashed, ◌>>=◌, invalid_params, internal_error, or_internal, of_result,
  or_invalid, scope_param, no_session, RokService, read,
}

unfoldable pub memory_scheme : Bytes
memory_scheme = codes "rok://memory"

unfoldable pub memory_uri : MemoryEntry → Bytes
memory_uri entry = memory_scheme ++ (entry.scope.path ++ slash ∷ entry.key)

-- What a `Resource` says of a memory; its description names the scope and the size.
pub record Resource : Type 0 where
  pub uri : Bytes
  pub name : Bytes
  pub scope : Scope
  pub size : ℕ

unfoldable pub memory_to_resource : MemoryEntry → Resource
unfolding memory_uri
memory_to_resource entry = record {
  uri = memory_uri entry;
  name = entry.scope.path ++ slash ∷ entry.key;
  scope = entry.scope;
  size = length entry.content;
}

-- `s.strip_prefix(p)`
unfoldable pub strip_prefix : Bytes → Bytes → Option Bytes
strip_prefix s p = if starts_with s p then some (drop (length p) s) else none

-- `s.rsplit_once(c)`
unfoldable pub rsplit_once : Bytes → ℕ → Option (Bytes × Bytes)
rsplit_once s c = elim (rfind s c) [ none ↦ none | some i ↦ some (take i s, drop (suc i) s) ]

-- The scope's path and the key of a URI without its prefix.
unfoldable pub split_target : Bytes → Option (Bytes × Bytes) → Reply (Bytes × Bytes)
split_target uri none =
    refused
      (invalid_params (format "URI must be rok://memory/{scope}/{key}, got: {uri}" (str uri ∷ [])))
split_target uri (some (scope, key)) =
    if not (bytes_eq key [])
    then reply ((if bytes_eq scope [] then slash ∷ [] else scope), key)
    else refused (
        invalid_params (format "URI must be rok://memory/{scope}/{key}, got: {uri}" (str uri ∷ [])))

unfoldable pub target_of : Bytes → Option Bytes → Reply (Bytes × Bytes)
unfolding rsplit_once split_target
target_of uri none = refused (invalid_params (format "invalid URI: {uri}" (str uri ∷ [])))
target_of uri (some path) = split_target uri (rsplit_once path slash)

unfoldable pub resource_target : Bytes → Reply (Bytes × Bytes)
unfolding strip_prefix target_of
resource_target uri = target_of uri (strip_prefix uri memory_scheme)

unfoldable pub session_or_internal : Option Session → Reply Session
session_or_internal none = refused (internal_error "{e}" (message (format "no active session" [])))
session_or_internal (some s) = reply s

module _ (c : Crypto) (b : StorageBackend) where
  unfoldable pub list_resources : RokService b → Reply (List Resource)
  list_resources self = elim self.session [
    | none ↦ reply []
    | some session ↦ or_internal "{e}" (memory_reader_with c b session self.backend) >>= λ reader.
        or_internal "{e}" (read_key c session) >>= λ key.
        or_internal "{e}" (of_result (reader_list c b reader key)) >>= λ entries.
        reply (map memory_to_resource entries)
  ]

  module _ (from_utf8_lossy : Bytes → Bytes) where
    unfoldable pub read_resource : RokService b → Bytes → Reply Bytes
    unfolding resource_target session_or_internal
    read_resource self uri = do
      (scope_text, key) ← resource_target uri
      session ← session_or_internal self.session
      scope ← scope_param (Scope.new scope_text)
      reader ← or_internal "{e}" (memory_reader_with c b session self.backend)
      own_key ← or_internal "{e}" (read_key c session)
      contents ← or_internal "{e}" (of_result (reader_read c b reader own_key scope key))
      reply (from_utf8_lossy contents)

-- What a handler replies, if it does.
abbrev pub replied : {X : Type 0} → Reply X → Option X
replied (reply x) = some x
replied (refused e) = none
replied crashed = none

replied-bind :
    {X Y : Type 0} (r t : Reply X) (f g : X → Reply Y)
    → replied r ≡ replied t
    → ((x : X) → replied (f x) ≡ replied (g x))
    → replied (r >>= f) ≡ replied (t >>= g)
replied-bind (reply x) (reply y) f g e h = let same : x ≡ y = cc in rw same (h y)
replied-bind (reply x) (refused e') f g e h = cc
replied-bind (reply x) crashed f g e h = cc
replied-bind (refused e') (reply y) f g e h = cc
replied-bind (refused e') (refused e2) f g e h = refl
replied-bind (refused e') crashed f g e h = refl
replied-bind crashed (reply y) f g e h = cc
replied-bind crashed (refused e2) f g e h = refl
replied-bind crashed crashed f g e h = refl

replied-or_internal :
    {X : Type 0} (s t : String) (o : Outcome X)
    → replied (or_internal s o) ≡ replied (or_internal t o)
replied-or_internal s t (done x) = refl
replied-or_internal s t (failed e) = refl
replied-or_internal s t panicked = refl

replied-session :
    (o : Option Session) → replied (session_or_internal o) ≡ replied (or_invalid o no_session)
unfolding session_or_internal
replied-session none = refl
replied-session (some s) = refl

bytes_eq-nil : (s : Bytes) → s ≢ [] → bytes_eq s [] ≡ false
unfolding bytes_eq
bytes_eq-nil [] h = absurd (h refl)
bytes_eq-nil (x ∷ s) h = refl

drop_behind : (p : Bytes) (x : ℕ) (w : Bytes) → drop (suc (length p)) (p ++ x ∷ w) ≡ w
drop_behind [] x w = refl
drop_behind (y ∷ p) x w = drop_behind p x w

strip_prefix-append : (p s : Bytes) → strip_prefix (p ++ s) p ≡ some s
unfolding strip_prefix
strip_prefix-append p s = rw (starts_with-append p s, drop-append p s) refl

rsplit_once-append : (p w : Bytes) (x : ℕ) → Free x w → rsplit_once (p ++ x ∷ w) x ≡ some (p, w)
unfolding rsplit_once
rsplit_once-append p w x h =
    let before = take-append p (x ∷ w) in
    let behind = drop_behind p x w in
    rw (rsplit_once, rfind-append p w x h) (rw (before, behind) refl)

split_target-some :
    (uri scope key : Bytes)
    → scope ≢ []
    → key ≢ []
    → split_target uri (some (scope, key)) ≡ reply (scope, key)
unfolding split_target
split_target-some uri scope key hs hk = rw (bytes_eq-nil key hk, bytes_eq-nil scope hs) refl

-- The URI of a memory leads to its scope and its key, if the scope is not the empty text and the key
-- is not empty and without a slash.
resource_target-memory_uri :
    (entry : MemoryEntry)
    → entry.scope.path ≢ []
    → entry.key ≢ []
    → Free slash entry.key
    → resource_target (memory_uri entry) ≡ reply (entry.scope.path, entry.key)
unfolding resource_target target_of memory_uri
resource_target-memory_uri entry hp hk h =
    let uri = memory_uri entry in
    ap (target_of uri) (strip_prefix-append memory_scheme (entry.scope.path ++ slash ∷ entry.key))
    ∙ ap (split_target uri) (rsplit_once-append entry.scope.path entry.key slash h)
    ∙ split_target-some uri entry.scope.path entry.key hp hk

module _ (c : Crypto) (b : StorageBackend) (from_utf8_lossy : Bytes → Bytes) where
  -- Reading the URI of a memory whose scope is not the empty text, and whose key is not empty and
  -- without a slash, replies with a text exactly if `read` of its scope and key does, and with the
  -- same text.
  pub read_resource-memory_uri :
      (self : RokService b) (entry : MemoryEntry)
      → entry.scope.path ≢ []
      → entry.key ≢ []
      → Free slash entry.key
      → replied (read_resource c b from_utf8_lossy self (memory_uri entry))
        ≡ replied
            (read c b from_utf8_lossy self (record { scope = entry.scope.path; key = entry.key }))
  unfolding read_resource read
  read_resource-memory_uri self entry hp hk h = rw (resource_target-memory_uri entry hp hk h) (
      replied-bind (session_or_internal self.session) (or_invalid self.session no_session) _ _
        (replied-session self.session)
        (λ session.
          replied-bind (scope_param (Scope.new entry.scope.path))
            (scope_param (Scope.new entry.scope.path)) _ _ refl
            (λ scope.
              replied-bind (or_internal "{e}" (memory_reader_with c b session self.backend))
                (or_internal "{e}" (memory_reader_with c b session self.backend)) _ _ refl
                (λ reader.
                  replied-bind (or_internal "{e}" (read_key c session))
                    (or_internal "{e}" (read_key c session)) _ _ refl
                    (λ key.
                      replied-bind
                        (or_internal "{e}" (of_result (reader_read c b reader key scope entry.key)))
                        (or_internal "read failed: {e}"
                          (of_result (reader_read c b reader key scope entry.key)))
                        _ _
                        (replied-or_internal "{e}" "read failed: {e}"
                          (of_result (reader_read c b reader key scope entry.key)))
                        (λ contents. refl))))))
