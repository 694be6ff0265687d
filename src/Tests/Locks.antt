-- ===== src/Tests/Locks.antt =====
-- The lock of a configuration at concrete data.
use cortx_utils.Base.{
  Bool, Result, some, ℕ, ◌+◌, ◌*◌, true, false, ◌||◌, codes, [], ◌∷◌, ◌≡◌, refl, arith, ok, err,
  value_error, find, store, ltb, ◌==◌, Assoc, contains,
}
use cortx_utils.Key.{is_blank, split, key_index_split, find_index, match_index}
use cortx_utils.Value.Dict.{lookup, put, remove}
use cortx_utils.Payload.Read.{get_path}
use cortx_utils.Payload.Write.{set_path}
use cortx_utils.Payload.Delete.{delete_path}
use cortx_utils.Value.{Value, pos, str, int}
use cortx_utils.Value.Compare.{value_eq, atom_eq}
use cortx_utils.Payload
use cortx_utils.Payload.Enumerate.Readable.{IsName}
use cortx_utils.Conf
use cortx_utils.Conf.{ConfStore, is_loaded}
use cortx_utils.Conf.Cache.{ConfCache}
use cortx_utils.Conf.Lock.{
  Formats, IsExact, owner_key, end_time_key, acquire, test_as, lock_as, is_unset, arg, check_args,
  fits_any, fits_lock, default_domain, default_duration, lock, test_lock, unlock, unlock_as,
  fits_unlock,
}
use cortx_utils.Conf.Lock.Laws.{IsLockable}
use cortx_utils.Conf.Lock.Race.{both_acquire}
use cortx_utils.Conf.Lock.Calls.{test_lock-lock, test_lock-unlock}
use cortx_utils.Tests.Samples.{blank}

abbrev seconds : Value → ℕ
seconds (int (pos n)) = n
seconds _ = 0

-- The end of a lock as one character.
abbrev stamps : Formats
stamps = record {
  show = λ v. elim v [ str s ↦ s | _ ↦ [] ];
  second = 1;
  end_time = λ now v. (now + seconds v) ∷ [];
  time_of =
      λ v. elim v [ str s ↦ elim s [ [] ↦ err value_error | t ∷ ts ↦ ok t ] | _ ↦ err value_error ];
}

stamps-IsExact : IsExact stamps
stamps-IsExact = record {
  show_str = λ s. refl;
  read_end = λ now n. ground arith;
  end_not_empty = λ now v e. ground arith;
}

abbrev cache : ConfCache
cache = record { payload = blank; dirty = false; url = codes "json:///a"; recurse = true }

abbrev conf : ConfStore
conf = record {
  delim = b'>';
  cache = (codes "a", cache) ∷ [];
  callbacks = [];
  lock_owner = str (codes "m1");
}

abbrev owner : Value
owner = str (codes "m1")

abbrev other : Value
other = str (codes "m2")

named : IsName b'>' (codes "default")
unfolding is_blank
named = ground arith

lockable : IsLockable (codes "a") conf
unfolding find ◌==◌
lockable = record { found_cache = cache; found = refl; delim = refl }

abbrev mine : Assoc Value
mine = (codes "owner", owner) ∷ (codes "duration", int (pos 20)) ∷ []

abbrev theirs : Assoc Value
theirs = (codes "owner", other) ∷ []

arguments_read :
    (arg (codes "domain") default_domain mine ≡ str (codes "default"))
    × (arg (codes "duration") default_duration mine ≡ int (pos 20))
    × (is_unset (arg (codes "owner") conf.lock_owner mine) ≡ false)
unfolding arg find is_unset value_eq atom_eq ◌==◌
arguments_read = (refl, refl, refl)

theirs_read :
    (check_args (codes "domain" ∷ codes "owner" ∷ []) fits_any theirs ≡ ok tt)
    × (arg (codes "domain") default_domain theirs ≡ str (codes "default"))
    × (find (codes "owner") theirs ≡ some other)
unfolding check_args contains arg find ◌==◌
theirs_read = (refl, refl, refl)

locked : (lock stamps (codes "a") mine 5 5 (λ t. t) conf).0 ≡ ok true
unfolding lock is_loaded check_args fits_lock contains arg lock_as test_as acquire owner_key
    end_time_key Conf.get Conf.cached Conf.or_default Conf.set Conf.on_cache Conf.Cache.get
    Conf.Cache.set find store ◌==◌ Payload.get Payload.set get_path set_path split is_blank
    key_index_split find_index match_index lookup is_unset value_eq atom_eq put
locked = refl

test_lock-lock_example :
    test_lock stamps (codes "a") theirs 9 (lock stamps (codes "a") mine 5 5 (λ t. t) conf).1
    ≡ ok (
        value_eq (arg (codes "owner") conf.lock_owner mine) other || ltb (5 + 20 * stamps.second) 9)
test_lock-lock_example =
    test_lock-lock stamps stamps-IsExact (codes "a") (codes "default") named mine theirs other 5 5
      20 9 conf lockable (arguments_read.0) (arguments_read.1) (arguments_read.2) (theirs_read.0)
      (theirs_read.1) (theirs_read.2) locked

abbrev held : ConfStore
held = (lock stamps (codes "a") mine 5 5 (λ t. t) conf).1

held-IsLockable : IsLockable (codes "a") held
unfolding lock is_loaded check_args fits_lock contains arg lock_as test_as acquire owner_key
    end_time_key Conf.get Conf.cached Conf.or_default Conf.set Conf.on_cache Conf.Cache.get
    Conf.Cache.set find store ◌==◌ Payload.get Payload.set get_path set_path split is_blank
    key_index_split find_index match_index lookup is_unset value_eq atom_eq put
held-IsLockable = record { found_cache = _; found = refl; delim = refl }

abbrev holder : Assoc Value
holder = (codes "owner", owner) ∷ []

holder_domain : arg (codes "domain") default_domain holder ≡ str (codes "default")
unfolding arg find ◌==◌
holder_domain = refl

released : (unlock stamps (codes "a") holder held).0 ≡ ok true
unfolding unlock unlock_as fits_unlock delete_path Conf.delete Conf.Cache.delete Payload.delete
    remove lock is_loaded check_args fits_lock contains arg lock_as test_as acquire owner_key
    end_time_key Conf.get Conf.cached Conf.or_default Conf.set Conf.on_cache Conf.Cache.get
    Conf.Cache.set find store ◌==◌ Payload.get Payload.set get_path set_path split is_blank
    key_index_split find_index match_index lookup is_unset value_eq atom_eq put
released = refl

test_lock-unlock_example :
    test_lock stamps (codes "a") theirs 9 (unlock stamps (codes "a") holder held).1 ≡ ok true
test_lock-unlock_example =
    test_lock-unlock stamps stamps-IsExact (codes "a") (codes "default") named holder theirs 9 held
      held-IsLockable holder_domain (theirs_read.0) (theirs_read.1) released

abbrev first_run : Result Bool × ConfStore
first_run = acquire stamps (codes "a") (codes "default") owner (int (pos 10)) 5 (λ t. t) conf

free_to_both :
    (test_as stamps (codes "a") (codes "default") owner 5 conf ≡ ok true)
    × (test_as stamps (codes "a") (codes "default") other 5 conf ≡ ok true)
unfolding lock_as test_as acquire owner_key end_time_key Conf.get Conf.cached Conf.or_default
    Conf.set Conf.on_cache Conf.Cache.get Conf.Cache.set find store ◌==◌ Payload.get Payload.set
    get_path set_path split is_blank key_index_split find_index match_index lookup is_unset value_eq
    atom_eq put
free_to_both = (refl, refl)

both_written :
    (first_run.0 ≡ ok true)
    × ((acquire stamps (codes "a") (codes "default") other (int (pos 10)) 5 (λ t. t) first_run.1).0
        ≡ ok true)
unfolding lock_as test_as acquire owner_key end_time_key Conf.get Conf.cached Conf.or_default
    Conf.set Conf.on_cache Conf.Cache.get Conf.Cache.set find store ◌==◌ Payload.get Payload.set
    get_path set_path split is_blank key_index_split find_index match_index lookup is_unset value_eq
    atom_eq put
both_written = (refl, refl)

both_acquire_example :
    (first_run.0 ≡ ok true)
    × ((acquire stamps (codes "a") (codes "default") other (int (pos 10)) 5 (λ t. t) first_run.1).0
        ≡ ok true)
both_acquire_example =
    both_acquire stamps stamps-IsExact (codes "a") (codes "default") named (codes "m1") (codes "m2")
      (int (pos 10)) 5 conf true true lockable (free_to_both.0) (free_to_both.1) (both_written.0)
      (both_written.1)
