-- ===== src/Conf/Lock.antt =====
-- The lock of a configuration: `lock`, `unlock` and `test_lock` of `ConfStore`.
pub mod Keys
pub mod Calls
pub mod Laws
pub mod Race
pub mod Release
use cortx_utils.Base.{
  ℕ, ◌+◌, ◌*◌, Text, Bool, true, false, not, ◌&&◌, ◌||◌, Option, none, some, List, [], ◌∷◌, ◌++◌,
  ◌≡◌, ◌≢◌, Result, ok, err, Error, conf_error, einval, Assoc, find, contains, codes, ◌==◌, ltb,
  if◌then◌else◌,
}
use cortx_utils.Base.Exec.{Exec, pure, raise, lift, ◌>>=◌, ◌>>◌}
use cortx_utils.Value.{Value, pos, null, bool, int, str}
use cortx_utils.Value.Compare.{value_eq}
use cortx_utils.Conf.{ConfStore, is_loaded, get, set, delete}

-- How Python writes and reads what the lock stores: `"%s" % v`, `str(time.time() + duration)` and
-- `float(v)`. Time is counted in ticks, of which `second` make a second.
pub record Formats : Type 0 where
  pub show : Value → Text
  pub second : ℕ
  pub end_time : ℕ → Value → Text
  pub time_of : Value → Result ℕ

-- A text is written as it is, and the end of a lock is a text that is read back.
pub record IsExact (F : Formats) : Type 0 where
  pub show_str : (s : Text) → F.show (str s) ≡ s
  pub read_end :
      (now n : ℕ) → F.time_of (str (F.end_time now (int (pos n)))) ≡ ok (now + n * F.second)
  pub end_not_empty : (now : ℕ) (v : Value) → F.end_time now v ≢ []

-- `const.LOCK_OWNER_KEY_PREFIX % domain` and `const.LOCK_END_TIME_KEY_PREFIX % domain`
unfoldable pub owner_key : Text → Text
owner_key domain = codes "lock>" ++ (domain ++ codes ">owner")

unfoldable pub end_time_key : Text → Text
end_time_key domain = codes "lock>" ++ (domain ++ codes ">end_time")

abbrev pub default_domain : Value
default_domain = str (codes "default")

abbrev pub default_duration : Value
default_duration = int (pos 10)

-- The loop over the keyword arguments, with the test that a value must pass.
unfoldable pub check_args : List Text → (Text → Value → Bool) → Assoc Value → Result (Unit {0})
check_args allowed fits [] = ok tt
check_args allowed fits ((key, val) ∷ args) =
    if not (contains key allowed)
    then err (conf_error einval)
    else if fits key val
    then check_args allowed fits args
    else err (conf_error einval)

is_int : Value → Bool
is_int (int n) = true
is_int (bool b) = true
is_int _ = false

is_bool : Value → Bool
is_bool (bool b) = true
is_bool _ = false

unfoldable pub fits_lock : Text → Value → Bool
unfolding is_int
fits_lock key val = not (key == codes "duration") || is_int val

unfoldable pub fits_unlock : Text → Value → Bool
unfolding is_bool
fits_unlock key val = not (key == codes "force") || is_bool val

abbrev pub fits_any : Text → Value → Bool
fits_any key val = true

-- `kwargs[key]` if it is given.
unfoldable pub arg : Text → Value → Assoc Value → Value
arg key default args = elim (find key args) [ none ↦ default | some v ↦ v ]

-- `self.get(index, key)`
abbrev pub read : Text → Text → ConfStore → Result Value
read index key s = get index (some key) null true s

-- `v in [None, ""]`
unfoldable pub is_unset : Value → Bool
is_unset v = value_eq v null || value_eq v (str [])

-- `force` as the code tests it, which is checked to be `True` or `False`.
abbrev pub is_true : Value → Bool
is_true v = value_eq v (bool true)

module _ (F : Formats) where
  -- The rest of `test_lock`, for the domain and the owner in question.
  unfoldable pub test_as : Text → Text → Value → ℕ → ConfStore → Result Bool
  test_as index domain owner now s = elim (read index (owner_key domain) s) [
    | err e ↦ err e
    | ok current ↦
        if is_unset current || value_eq current owner
        then ok true
        else elim (read index (end_time_key domain) s) [
          | err e ↦ err e
          | ok end_time ↦
              if is_unset end_time
              then ok true
              else elim (F.time_of end_time) [ err e ↦ err e | ok t ↦ ok (ltb t now) ]
        ]
  ]

  unfoldable pub test_lock : Text → Assoc Value → ℕ → ConfStore → Result Bool
  test_lock index args now s =
      if not (is_loaded index s)
      then err (conf_error einval)
      else elim (check_args (codes "domain" ∷ codes "owner" ∷ []) fits_any args) [
        | err e ↦ err e
        | ok _ ↦
            test_as index (F.show (arg (codes "domain") default_domain args))
              (arg (codes "owner") s.lock_owner args) now s
      ]

  -- The two writes of `lock`, the pause, in which others may change the store, and the check.
  unfoldable pub acquire :
      Text → Text → Value → Value → ℕ → (ConfStore → ConfStore) → Exec ConfStore Bool
  acquire index domain owner duration now pause = do
    set index (owner_key domain) owner
    set index (end_time_key domain) (str (F.end_time now duration))
    holder ← λ s. (read index (owner_key domain) (pause s), pause s)
    pure (value_eq holder owner)

  -- The rest of `lock`; it reads the clock once in `test_lock` and once for the end of the lock.
  unfoldable pub lock_as :
      Text → Text → Value → Value → ℕ → ℕ → (ConfStore → ConfStore) → Exec ConfStore Bool
  lock_as index domain owner duration tested now pause s =
      elim (test_as index domain owner tested s) [
        | err e ↦ (err e, s)
        | ok free ↦ if free then acquire index domain owner duration now pause s else (ok false, s)
      ]

  unfoldable pub lock : Text → Assoc Value → ℕ → ℕ → (ConfStore → ConfStore) → Exec ConfStore Bool
  lock index args tested now pause s =
      if not (is_loaded index s)
      then (err (conf_error einval), s)
      else elim (check_args (codes "domain" ∷ codes "owner" ∷ codes "duration" ∷ []) fits_lock
          args) [
            | err e ↦ (err e, s)
            | ok _ ↦
                lock_as index (F.show (arg (codes "domain") default_domain args))
                  (arg (codes "owner") s.lock_owner args)
                  (arg (codes "duration") default_duration args) tested now pause s
          ]

  -- The rest of `unlock`.
  unfoldable pub unlock_as : Text → Text → Value → Bool → Exec ConfStore Bool
  unlock_as index domain owner force s = elim (read index (owner_key domain) s) [
    | err e ↦ (err e, s)
    | ok holder ↦
        if value_eq holder owner || force
        then (do
          delete index (owner_key domain) false
          delete index (end_time_key domain) false
          pure true)
            s
        else (ok false, s)
  ]

  unfoldable pub unlock : Text → Assoc Value → Exec ConfStore Bool
  unlock index args s =
      if not (is_loaded index s)
      then (err (conf_error einval), s)
      else elim (check_args (codes "domain" ∷ codes "owner" ∷ codes "force" ∷ []) fits_unlock
          args) [
            | err e ↦ (err e, s)
            | ok _ ↦
                unlock_as index (F.show (arg (codes "domain") default_domain args))
                  (arg (codes "owner") s.lock_owner args)
                  (is_true (arg (codes "force") (bool false) args)) s
          ]
