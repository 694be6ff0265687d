-- ===== src/Conf/Lock/Calls.antt =====
-- `lock` and then `test_lock`, as they are called with keyword arguments.
use cortx_utils.Base.{
  ℕ, ◌+◌, ◌*◌, Text, true, false, ◌||◌, some, [], ◌∷◌, ◌≡◌, ap, ◌∙◌, arith, ok, Assoc, find, codes,
  ltb, Bool-cases, Option-cases, Result-cases, inl, inr,
}
use cortx_utils.Value.{Value, pos, null, bool, int, str}
use cortx_utils.Value.Compare.{value_eq}
use cortx_utils.Payload.Enumerate.Readable.{IsName}
use cortx_utils.Conf.{ConfStore, is_loaded, cached, get}
use cortx_utils.Conf.Lock.{
  Formats, IsExact, default_domain, default_duration, check_args, fits_lock, fits_any, arg, read,
  is_unset, test_as, lock_as, test_lock, lock, unlock, unlock_as, fits_unlock, is_true,
}
use cortx_utils.Conf.Lock.Laws.{IsLockable, lock_as-Holds, test_as_held}
use cortx_utils.Conf.Lock.Release.{unlock_as-Free, test_as_free}

-- An index that can be read is loaded.
is_loaded_of_read :
    (index key : Text) (v : Value) (s : ConfStore)
    → read index key s ≡ ok v
    → is_loaded index s ≡ true
unfolding get cached is_loaded
is_loaded_of_read index key v s shown = elim (Option-cases (find index s.cache)) [
  | inl missing ↦ absurd (ground arith)
  | inr (c, found) ↦ rw (found, is_loaded)
]

arg_given :
    (key : Text) (default v : Value) (args : Assoc Value)
    → find key args ≡ some v
    → arg key default args ≡ v
unfolding arg
arg_given key default v args given = rw (given, arg)

module _ (F : Formats) (E : IsExact F) (index domain : Text) (named : IsName b'>' domain) where
  -- A call of `lock` that takes the lock has sound arguments.
  lock_taken :
      (args : Assoc Value) (duration : Value) (tested now : ℕ) (s : ConfStore)
      → arg (codes "domain") default_domain args ≡ str domain
      → arg (codes "duration") default_duration args ≡ duration
      → (lock F index args tested now (λ t. t) s).0 ≡ ok true
      → lock F index args tested now (λ t. t) s
        ≡ lock_as F index domain
            (arg (codes "owner") s.lock_owner args)
            duration
            tested
            now
            (λ t. t)
            s
  unfolding lock
  lock_taken args duration tested now s in_domain lasts done =
      elim (Bool-cases (is_loaded index s)) [
        | inr missing ↦ absurd (ground arith)
        | inl present ↦
            elim (Result-cases (
              check_args (codes "domain" ∷ codes "owner" ∷ codes "duration" ∷ []) fits_lock args)) [
                | inr (e, bad) ↦ absurd (ground arith)
                | inl (u, sound) ↦
                    rw present (rw (sound, lock) (rw in_domain (rw (E.show_str domain) (rw lasts))))
              ]
      ]

  test_lock_as :
      (args : Assoc Value) (now : ℕ) (s : ConfStore)
      → is_loaded index s ≡ true
      → check_args (codes "domain" ∷ codes "owner" ∷ []) fits_any args ≡ ok tt
      → arg (codes "domain") default_domain args ≡ str domain
      → test_lock F index args now s
        ≡ test_as F index domain (arg (codes "owner") s.lock_owner args) now s
  unfolding test_lock
  test_lock_as args now s present sound in_domain =
      rw present (rw (sound, test_lock) (rw in_domain (rw (E.show_str domain))))

  -- `lock` returned `True` for a duration of `n` seconds, with nothing else at work in the pause,
  -- to an owner that is neither `None` nor empty. Then, while the store stays as it is, `test_lock`
  -- of the same domain, called by a given owner, answers that the lock is free exactly to an owner
  -- equal to the holder, and to every owner once the clock is past the end of the duration. How
  -- Python writes and reads the end of the lock is taken to be exact, the configuration has the
  -- delimiter `>`, and the domain is a text that can be written in a key.
  pub test_lock-lock :
      (mine theirs : Assoc Value) (other : Value) (tested start n now : ℕ) (s : ConfStore)
      → IsLockable index s
      → arg (codes "domain") default_domain mine ≡ str domain
      → arg (codes "duration") default_duration mine ≡ int (pos n)
      → is_unset (arg (codes "owner") s.lock_owner mine) ≡ false
      → check_args (codes "domain" ∷ codes "owner" ∷ []) fits_any theirs ≡ ok tt
      → arg (codes "domain") default_domain theirs ≡ str domain
      → find (codes "owner") theirs ≡ some other
      → (lock F index mine tested start (λ t. t) s).0 ≡ ok true
      → test_lock F index theirs now (lock F index mine tested start (λ t. t) s).1
        ≡ ok (
            value_eq (arg (codes "owner") s.lock_owner mine) other
            || ltb (start + n * F.second) now)
  test_lock-lock mine theirs other tested start n now s l in_domain lasts set_owner sound same given
        done =
      let owner = arg (codes "owner") s.lock_owner mine in
      let after = (lock_as F index domain owner (int (pos n)) tested start (λ t. t) s).1 in
      let step = lock_taken mine (int (pos n)) tested start s in_domain lasts done in
      let held =
        lock_as-Holds F E index domain named owner (int (pos n)) tested start s l
          (rw step at done) in
      rw step (
        test_lock_as theirs now _ (is_loaded_of_read index _ owner _ (held.owner_read)) sound same
        ∙ ap (λ v. test_as F index domain v now after) (arg_given _ _ other theirs given)
        ∙ test_as_held F E index domain named owner other start n now _ held set_owner)

  -- A call of `unlock` that releases the lock has sound arguments.
  unlock_done :
      (args : Assoc Value) (s : ConfStore)
      → arg (codes "domain") default_domain args ≡ str domain
      → (unlock F index args s).0 ≡ ok true
      → unlock F index args s
        ≡ unlock_as F index domain
            (arg (codes "owner") s.lock_owner args)
            (is_true (arg (codes "force") (bool false) args))
            s
  unfolding unlock
  unlock_done args s in_domain done = elim (Bool-cases (is_loaded index s)) [
    | inr missing ↦ absurd (ground arith)
    | inl present ↦
        elim (Result-cases
          (check_args (codes "domain" ∷ codes "owner" ∷ codes "force" ∷ []) fits_unlock args)) [
            | inr (e, bad) ↦ absurd (ground arith)
            | inl (u, sound) ↦
                rw present (rw (sound, unlock) (rw in_domain (rw (E.show_str domain))))
          ]
  ]

  -- If `unlock` returns `True`, by the holder or by force, then `test_lock` of the same domain
  -- answers, to whoever calls it with sound arguments and at any time, that the lock is free. The
  -- configuration has the delimiter `>`, and the domain is a text that can be written in a key.
  pub test_lock-unlock :
      (mine theirs : Assoc Value) (now : ℕ) (s : ConfStore)
      → IsLockable index s
      → arg (codes "domain") default_domain mine ≡ str domain
      → check_args (codes "domain" ∷ codes "owner" ∷ []) fits_any theirs ≡ ok tt
      → arg (codes "domain") default_domain theirs ≡ str domain
      → (unlock F index mine s).0 ≡ ok true
      → test_lock F index theirs now (unlock F index mine s).1 ≡ ok true
  test_lock-unlock mine theirs now s l in_domain sound same done =
      let step = unlock_done mine s in_domain done in
      let free = unlock_as-Free F index domain named _ _ s l (rw step at done) in
      rw step (
        test_lock_as theirs now _ (is_loaded_of_read index _ null _ free) sound same
        ∙ test_as_free F index domain named _ now _ free)
