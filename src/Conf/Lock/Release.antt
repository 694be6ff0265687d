-- ===== src/Conf/Lock/Release.antt =====
-- `unlock` and then `test_lock`.
use cortx_utils.Base.{
  ℕ, Text, Bool, true, false, ◌||◌, none, some, ◌≡◌, ◌≢◌, sym, ◌=ℕ◌, ◌∙◌, arith, ok, find, store,
  find-store_self, Bool-cases, Result-cases, inl, inr,
}
use cortx_utils.Base.Exec.{continue}
use cortx_utils.Key.{split}
use cortx_utils.Value.{Value, null}
use cortx_utils.Value.Compare.{value_eq, atom_eq}
use cortx_utils.Payload
use cortx_utils.Payload.{KvPayload}
use cortx_utils.Payload.Enumerate.Readable.{IsName}
use cortx_utils.Payload.Delete.Gone.{last_index}
use cortx_utils.Payload.Delete.Guard.{verdict, entries_below}
use cortx_utils.Payload.Laws.{
  IsReadableKey, get-delete, get-delete_apart, delete_unchanged, delete-verdict,
}
use cortx_utils.Conf.{ConfStore, on_cache, delete}
use cortx_utils.Conf.Cache
use cortx_utils.Conf.Cache.{ConfCache}
use cortx_utils.Conf.Copying.Loop.{IsPlain-IsReadable}
use cortx_utils.Conf.Lock.{Formats, owner_key, end_time_key, read, is_unset, test_as, unlock_as}
use cortx_utils.Conf.Lock.Keys.{owner_key-bare, owner_key-IsPlain, end_apart_owner}
use cortx_utils.Conf.Lock.Laws.{IsLockable, read_loaded}

verdict_or_raised : (v : Value) → verdict v false ≢ ok false
verdict_or_raised v e = elim (Bool-cases (entries_below v =ℕ 0)) [
  | inl leaf ↦ absurd (ground arith)
  | inr held ↦ absurd (ground arith)
]

-- `delete` of a key with no index on its last segment that does not raise leaves nothing to read.
get-delete_done :
    (p : KvPayload) (key : Text) (v : Value) (b : Bool)
    → IsReadableKey p.delim key
    → last_index (split p.delim key).0 (split p.delim key).1 ≡ none
    → Payload.get key true p ≡ ok v
    → (Payload.delete key false p).0 ≡ ok b
    → Payload.get key true (Payload.delete key false p).1 ≡ ok null
get-delete_done p key v true readable bare found done =
    rw bare at (get-delete p key false readable done)
get-delete_done p key null false readable bare found done =
    rw (delete_unchanged p key false (λ e. ground arith)) found
get-delete_done p key v false readable bare found done =
    absurd (verdict_or_raised v (sym (delete-verdict p key false v bare found (λ e. cc)).0 ∙ done))

-- `delete` where the index is loaded.
delete_loaded :
    (index key : Text) (s : ConfStore) (c : ConfCache)
    → find index s.cache ≡ some c
    → delete index key false s ≡ (
      (Cache.delete key false c).0,
      record s { cache = store index (Cache.delete key false c).1 s.cache },
    )
unfolding delete on_cache
delete_loaded index key s c found = rw (found, on_cache)

module _ (F : Formats) (index domain : Text) (named : IsName b'>' domain) where
  -- The deletion of the owner leaves no owner to read.
  delete_owner :
      (s : ConfStore) (holder : Value) (b : Bool)
      → IsLockable index s
      → read index (owner_key domain) s ≡ ok holder
      → (delete index (owner_key domain) false s).0 ≡ ok b
      → IsLockable index (delete index (owner_key domain) false s).1
        × (read index (owner_key domain) (delete index (owner_key domain) false s).1 ≡ ok null)
  unfolding Cache.delete Payload.delete
  delete_owner s holder b l shown done =
      let key = owner_key domain in
      let c = l.found_cache in
      let step = delete_loaded index key s c l.found in
      let c' = (Cache.delete key false c).1 in
      let here = find-store_self index c' s.cache in
      let readable : IsReadableKey c.payload.delim key =
        rw (l.delim) (IsPlain-IsReadable _ _ (owner_key-IsPlain domain named)) in
      let bare = rw (← l.delim) at (owner_key-bare domain named) in
      rw step (
        record { found_cache = c'; found = here; delim = l.delim },
        read_loaded index key _ c' here
            ∙ get-delete_done c.payload key holder b readable bare
                (sym (read_loaded index key s c l.found) ∙ shown) (rw step at done),
      )

  -- The deletion of the end of the lock leaves what the owner reads.
  delete_end :
      (s : ConfStore) (v : Value)
      → IsLockable index s
      → read index (owner_key domain) s ≡ ok v
      → read index (owner_key domain) (delete index (end_time_key domain) false s).1 ≡ ok v
  unfolding Cache.delete
  delete_end s v l shown =
      let key = end_time_key domain in
      let c = l.found_cache in
      let c' = (Cache.delete key false c).1 in
      rw (delete_loaded index key s c l.found) (
        read_loaded index (owner_key domain) _ c' (find-store_self index c' s.cache)
        ∙ get-delete_apart c.payload key (owner_key domain) false
            (rw (l.delim) (end_apart_owner domain named))
        ∙ sym (read_loaded index (owner_key domain) s c l.found)
        ∙ shown)

  pub unlock_as-Free :
      (owner : Value) (force : Bool) (s : ConfStore)
      → IsLockable index s
      → (unlock_as F index domain owner force s).0 ≡ ok true
      → read index (owner_key domain) (unlock_as F index domain owner force s).1 ≡ ok null
  unfolding unlock_as
  unlock_as-Free owner force s l done = elim (Result-cases (read index (owner_key domain) s)) [
    | inr (e, raised) ↦ absurd (ground arith)
    | inl (holder, shown) ↦ elim (Bool-cases (value_eq holder owner || force)) [
      | inr refused ↦ absurd (ground arith)
      | inl allowed ↦ elim (Result-cases (delete index (owner_key domain) false s).0) [
        | inr (e, raised) ↦ absurd (ground arith)
        | inl (b, first) ↦
            let (l', free) = delete_owner s holder b l shown first in
            let s' = (delete index (owner_key domain) false s).1 in
            elim (Result-cases (delete index (end_time_key domain) false s').0) [
              | inr (e, raised) ↦ absurd (ground arith)
              | inl (b', second) ↦
                  rw (shown, unlock_as)
                    (rw allowed
                      (rw (first, continue) (rw (second, continue) (delete_end s' null l' free))))
            ]
      ]
    ]
  ]

  -- `test_as` where there is no owner.
  pub test_as_free :
      (other : Value) (now : ℕ) (s : ConfStore)
      → read index (owner_key domain) s ≡ ok null
      → test_as F index domain other now s ≡ ok true
  unfolding test_as is_unset value_eq atom_eq
  test_as_free other now s shown = rw (shown, test_as)
