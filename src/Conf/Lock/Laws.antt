-- ===== src/Conf/Lock/Laws.antt =====
-- Who holds the lock: exclusion until it expires, and release.
use cortx_utils.Base.{
  ℕ, ◌+◌, ◌*◌, Text, true, false, ◌||◌, some, [], ◌≡◌, ◌≢◌, refl, sym, ap, ◌∙◌, arith, ok, find,
  find-store_self, ltb, Result-cases, Bool-cases, eq_cases, inl, inr,
}
use cortx_utils.Base.Exec.{continue}
use cortx_utils.Value.{Value, pos, null, int, str}
use cortx_utils.Value.Compare.{value_eq, atom_eq}
use cortx_utils.Payload
use cortx_utils.Payload.Enumerate.Readable.{IsName}
use cortx_utils.Payload.Laws.{IsReadableKey, get-set, get-set_apart}
use cortx_utils.Conf.{ConfStore, cached, set, get, or_default}
use cortx_utils.Conf.Cache
use cortx_utils.Conf.Cache.{ConfCache}
use cortx_utils.Conf.Laws.{set_loaded}
use cortx_utils.Conf.Copying.Loop.{IsPlain-IsReadable}
use cortx_utils.Conf.Lock.{
  Formats, IsExact, owner_key, end_time_key, read, is_unset, test_as, acquire, lock_as,
}
use cortx_utils.Conf.Lock.Keys.{owner_key-IsPlain, end_time_key-IsPlain, end_apart_owner}

-- A loaded index with the delimiter for which the keys of the lock are written.
pub record IsLockable (index : Text) (s : ConfStore) : Type 0 where
  pub found_cache : ConfCache
  pub found : find index s.cache ≡ some found_cache
  pub delim : found_cache.payload.delim ≡ b'>'

or_default_null : (v : Value) → or_default null v ≡ v
unfolding or_default
or_default_null null = refl
or_default_null _ = refl

pub read_loaded :
    (index key : Text) (s : ConfStore) (c : ConfCache)
    → find index s.cache ≡ some c
    → read index key s ≡ Payload.get key true c.payload
unfolding get cached Cache.get
read_loaded index key s c found = elim (Result-cases (Payload.get key true c.payload)) [
  | inl (v, value) ↦ rw (found, get) (rw (value, get) (ap ok (or_default_null v)))
  | inr (e, raised) ↦ rw (found, get) (rw (raised, get))
]

module _ (F : Formats) (E : IsExact F) (index domain : Text) (named : IsName b'>' domain) where
  -- What the two keys of the lock read.
  pub record Holds (owner : Value) (ends : Value) (s : ConfStore) : Type 0 where
    pub owner_read : read index (owner_key domain) s ≡ ok owner
    pub end_read : read index (end_time_key domain) s ≡ ok ends

  -- One write of a lock's key.
  pub write_owner :
      (s : ConfStore) (v : Value)
      → IsLockable index s
      → (set index (owner_key domain) v s).0 ≡ ok tt
      → IsLockable index (set index (owner_key domain) v s).1
        × (read index (owner_key domain) (set index (owner_key domain) v s).1 ≡ ok v)
  unfolding Cache.set Payload.set
  write_owner s v l done =
      let key = owner_key domain in
      let c = l.found_cache in
      let step = set_loaded index key v s c l.found in
      let c' = (Cache.set key v c).1 in
      let here = find-store_self index c' s.cache in
      let readable : IsReadableKey c.payload.delim key =
        rw (l.delim) (IsPlain-IsReadable _ _ (owner_key-IsPlain domain named)) in
      rw step (
        record { found_cache = c'; found = here; delim = l.delim },
        read_loaded index key _ c' here ∙ get-set c.payload key v readable (rw step at done),
      )

  pub write_end :
      (s : ConfStore) (owner v : Value)
      → IsLockable index s
      → read index (owner_key domain) s ≡ ok owner
      → (set index (end_time_key domain) v s).0 ≡ ok tt
      → Holds owner v (set index (end_time_key domain) v s).1
  unfolding Cache.set
  write_end s owner v l before done =
      let key = end_time_key domain in
      let c = l.found_cache in
      let step = set_loaded index key v s c l.found in
      let c' = (Cache.set key v c).1 in
      let here = find-store_self index c' s.cache in
      let written = rw step at done in
      rw step (record {
        owner_read =
            read_loaded index (owner_key domain) _ c' here
            ∙ get-set_apart c.payload key (owner_key domain) v
                (rw (l.delim) (end_apart_owner domain named))
                (rw (l.delim) (owner_key-IsPlain domain named)) written
            ∙ sym (read_loaded index (owner_key domain) s c l.found)
            ∙ before;
        end_read =
            read_loaded index key _ c' here
            ∙ get-set c.payload key v
                (rw (l.delim) (IsPlain-IsReadable _ _ (end_time_key-IsPlain domain named))) written;
      })

  acquire-Holds :
      (owner duration : Value) (now : ℕ) (s : ConfStore)
      → IsLockable index s
      → (acquire F index domain owner duration now (λ t. t) s).0 ≡ ok true
      → Holds owner
          (str (F.end_time now duration))
          (acquire F index domain owner duration now (λ t. t) s).1
  unfolding acquire
  acquire-Holds owner duration now s l done =
      elim (Result-cases (set index (owner_key domain) owner s).0) [
        | inr (e, raised) ↦ absurd (ground arith)
        | inl (u, first) ↦
            let (l', owned) = write_owner s owner l first in
            let s' = (set index (owner_key domain) owner s).1 in
            let ends = str (F.end_time now duration) in
            elim (Result-cases (set index (end_time_key domain) ends s').0) [
              | inr (e, raised) ↦ absurd (ground arith)
              | inl (u', second) ↦
                  let held = write_end s' owner ends l' owned second in
                  rw (first, continue) (rw (second, continue) (rw (held.owner_read, continue) held))
            ]
      ]

  is_unset_text : (t : Text) → t ≢ [] → is_unset (str t) ≡ false
  unfolding is_unset value_eq atom_eq
  is_unset_text t h = elim (eq_cases t []) [ inl e ↦ absurd (h e) | inr differ ↦ differ ]

  -- What `test_lock` answers from the two keys.
  pub test_as_held :
      (owner other : Value) (start n now : ℕ) (s : ConfStore)
      → Holds owner (str (F.end_time start (int (pos n)))) s
      → is_unset owner ≡ false
      → test_as F index domain other now s
        ≡ ok (value_eq owner other || ltb (start + n * F.second) now)
  unfolding test_as
  test_as_held owner other start n now s held set_owner =
      rw (held.owner_read, test_as)
        (rw set_owner (elim (Bool-cases (value_eq owner other)) [
          | inl same ↦ rw same
          | inr differ ↦ rw differ (
              rw (held.end_read, test_as)
                (rw (is_unset_text _ (E.end_not_empty start (int (pos n))))
                  (rw (E.read_end start n, test_as))))
        ]))

  lock_as_acquires :
      (owner duration : Value) (tested now : ℕ) (s : ConfStore)
      → (lock_as F index domain owner duration tested now (λ t. t) s).0 ≡ ok true
      → lock_as F index domain owner duration tested now (λ t. t) s
        ≡ acquire F index domain owner duration now (λ t. t) s
  unfolding lock_as
  lock_as_acquires owner duration tested now s done =
      elim (Result-cases (test_as F index domain owner tested s)) [
        | inr (e, raised) ↦ absurd (ground arith)
        | inl (true, free) ↦ rw (free, lock_as)
        | inl (false, taken) ↦ absurd (ground arith)
      ]

  -- What a lock that was acquired leaves.
  pub lock_as-Holds :
      (owner duration : Value) (tested now : ℕ) (s : ConfStore)
      → IsLockable index s
      → (lock_as F index domain owner duration tested now (λ t. t) s).0 ≡ ok true
      → Holds owner
          (str (F.end_time now duration))
          (lock_as F index domain owner duration tested now (λ t. t) s).1
  lock_as-Holds owner duration tested now s l done =
      let step = lock_as_acquires owner duration tested now s done in
      rw step (acquire-Holds owner duration now s l (rw step at done))
