-- ===== src/Conf/Lock/Race.antt =====
-- Two lockers that test the lock before either of them writes.
use cortx_utils.Base.{
  ℕ, Text, Bool, true, ◌≡◌, ap, ◌∙◌, arith, ok, find-store_self, eq_refl, Result-cases, inl, inr,
}
use cortx_utils.Base.Exec.{continue}
use cortx_utils.Value.{Value, str}
use cortx_utils.Value.Compare.{value_eq, atom_eq}
use cortx_utils.Payload
use cortx_utils.Payload.Enumerate.Readable.{IsName}
use cortx_utils.Conf.{ConfStore, set}
use cortx_utils.Conf.Cache
use cortx_utils.Conf.Laws.{set_loaded}
use cortx_utils.Conf.Lock.{Formats, IsExact, owner_key, end_time_key, test_as, acquire}
use cortx_utils.Conf.Lock.Laws.{IsLockable, write_owner, write_end}

set-IsLockable :
    (index key : Text) (v : Value) (s : ConfStore)
    → IsLockable index s
    → IsLockable index (set index key v s).1
unfolding Cache.set Payload.set
set-IsLockable index key v s l =
    rw (set_loaded index key v s l.found_cache l.found)
      (record { found_cache = _; found = find-store_self index _ s.cache; delim = l.delim })

value_eq_text : (t : Text) → value_eq (str t) (str t) ≡ true
unfolding value_eq atom_eq
value_eq_text t = eq_refl t

module _ (F : Formats) (E : IsExact F) (index domain : Text) (named : IsName b'>' domain) where
  -- The writes of `lock` succeed whoever holds the lock.
  acquire_over :
      (owner : Text) (duration : Value) (now : ℕ) (s : ConfStore) (b : Bool)
      → IsLockable index s
      → (acquire F index domain (str owner) duration now (λ t. t) s).0 ≡ ok b
      → (b ≡ true) × IsLockable index (acquire F index domain (str owner) duration now (λ t. t) s).1
  unfolding acquire
  acquire_over owner duration now s b l done =
      elim (Result-cases (set index (owner_key domain) (str owner) s).0) [
        | inr (e, raised) ↦ absurd (ground arith)
        | inl (u, first) ↦
            let (l', owned) = write_owner F E index domain named s (str owner) l first in
            let s' = (set index (owner_key domain) (str owner) s).1 in
            let ends = str (F.end_time now duration) in
            elim (Result-cases (set index (end_time_key domain) ends s').0) [
              | inr (e, raised) ↦ absurd (ground arith)
              | inl (u', second) ↦
                  let held = write_end F E index domain named s' (str owner) ends l' owned second in
                  let shown =
                    rw (held.owner_read, continue) at
                      (rw (second, continue) at (rw (first, continue) at done)) in
                  (
                    cc (value_eq_text owner),
                    rw (first, continue)
                        (rw (second, continue)
                          (rw (held.owner_read, continue) (set-IsLockable index _ ends s' l'))),
                  )
            ]
      ]

  -- Two lockers with texts for owners test a free lock in turn, and then each makes its writes and
  -- its check in turn. If none of this raises, both are told that they
  -- have the lock. The configuration has the delimiter `>`, and the domain can be written in a key.
  pub both_acquire :
      (a b : Text) (duration : Value) (now : ℕ) (s : ConfStore) (got_a got_b : Bool)
      → IsLockable index s
      → test_as F index domain (str a) now s ≡ ok true
      → test_as F index domain (str b) now s ≡ ok true
      → (acquire F index domain (str a) duration now (λ t. t) s).0 ≡ ok got_a
      → (acquire F index domain
          (str b)
          duration
          now
          (λ t. t)
          (acquire F index domain (str a) duration now (λ t. t) s).1).0
        ≡ ok got_b
      → ((acquire F index domain (str a) duration now (λ t. t) s).0 ≡ ok true)
        × ((acquire F index domain
              (str b)
              duration
              now
              (λ t. t)
              (acquire F index domain (str a) duration now (λ t. t) s).1).0
            ≡ ok true)
  both_acquire a b duration now s got_a got_b l free_a free_b done_a done_b =
      let (first, l') = acquire_over a duration now s got_a l done_a in
      let (second, _) = acquire_over b duration now _ got_b l' done_b in
      (done_a ∙ ap ok first, done_b ∙ ap ok second)
