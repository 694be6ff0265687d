-- ===== src/Payload/Laws.antt =====
-- `KvPayload` as its callers see it: `get` after `set` and `delete`, and what they leave alone.
use cortx_utils.Base.{
  ℕ, Text, Bool, true, false, Option, none, some, List, [], ◌∷◌, ◌≡◌, ◌≢◌, refl, ap, Result, ok,
  err, key_error,
}
use cortx_utils.Key.{key_index_split, split, is_blank, is_empty}
use cortx_utils.Value.{Value, null, dict, Fields}
use cortx_utils.Value.Dict.{lookup}
use cortx_utils.Payload.{KvPayload, get, set, delete, forget}
use cortx_utils.Payload.Read.{get_path, get_down, shallow_get_path, shallow_step}
use cortx_utils.Payload.Write.SetGet.{IsReadable, get_path-set_path, set_path-set_path}
use cortx_utils.Payload.Write.Frame.{Apart, IsPlain, get_path-set_path-Apart}
use cortx_utils.Payload.Write.Success.{AreTextual, set_path_succeeds}
use cortx_utils.Payload.Delete.Keeps.{delete_path_keeps}
use cortx_utils.Payload.Delete.Gone.{last_index, IsGone, get_path-delete_path}
use cortx_utils.Payload.Delete.Frame.{get_path-delete_path-Apart}
use cortx_utils.Payload.Delete.Guard.{verdict, delete_path-verdict}

-- `get` accepts every segment of the key: no name is blank, and nothing but a further index stands
-- behind the index of a segment.
abbrev pub IsReadableKey : ℕ → Text → Type 0
IsReadableKey d key = IsReadable (split d key).0 (split d key).1

-- Such a key with an index at most on its last segment.
abbrev pub IsPlainKey : ℕ → Text → Type 0
IsPlainKey d key = IsPlain (split d key).0 (split d key).1

-- The names of two keys differ at some segment, up to which the segments are equal and have no
-- index.
abbrev pub AreApart : ℕ → Text → Text → Type 0
AreApart d key other = Apart (split d key).0 (split d key).1 (split d other).0 (split d other).1

forget_nothing :
    (key : Text) (r : Result Bool) (keys : List (Option Text))
    → r ≢ ok true
    → forget key r keys ≡ keys
unfolding forget
forget_nothing key (ok true) keys h = absurd (h refl)
forget_nothing key (ok false) keys h = refl
forget_nothing key (err e) keys h = refl

module _ (p : KvPayload) where
  -- If `set` does not raise, and the key is one that `get` accepts, then `get` returns the value
  -- that was set.
  pub get-set :
      (key : Text) (val : Value)
      → IsReadableKey p.delim key
      → (set key val p).0 ≡ ok tt
      → get key true (set key val p).1 ≡ ok val
  unfolding get set
  get-set key val readable done =
      get_path-set_path (split p.delim key).0 (split p.delim key).1 val p.node readable done

  -- If `set` does not raise, `get` of every plain key that lies apart from the one that was set has
  -- the outcome that it had before.
  pub get-set_apart :
      (key other : Text) (val : Value)
      → AreApart p.delim key other
      → IsPlainKey p.delim other
      → (set key val p).0 ≡ ok tt
      → get other true (set key val p).1 ≡ get other true p
  unfolding get set
  get-set_apart key other val apart plain done =
      get_path-set_path-Apart (split p.delim key).0 (split p.delim key).1 (split p.delim other).0
        (split p.delim other).1 val p.node apart plain done

  -- Two calls of `set` with one key leave the data, and have the outcome, of the second alone,
  -- whether or not the first one raised.
  pub set-set :
      (key : Text) (a b : Value)
      → ((set key b (set key a p).1).1.node ≡ (set key b p).1.node)
        × ((set key b (set key a p).1).0 ≡ (set key b p).0)
  unfolding set
  set-set key a b =
      let (k, ks) = split p.delim key in
      (
        ap (λ (s : Result (Unit {0}) × Value). s.1) (set_path-set_path k ks a b p.node),
        ap (λ (s : Result (Unit {0}) × Value). s.0) (set_path-set_path k ks a b p.node),
      )

  -- If `delete` returns `True` for a key that `get` accepts, then `get` returns `None`; if the last
  -- segment has an index it may return the empty string instead.
  pub get-delete :
      (key : Text) (force : Bool)
      → IsReadableKey p.delim key
      → (delete key force p).0 ≡ ok true
      → IsGone
          (last_index (split p.delim key).0 (split p.delim key).1)
          (get key true (delete key force p).1)
  unfolding get delete
  get-delete key force readable done =
      get_path-delete_path (split p.delim key).0 (split p.delim key).1 force p.node readable done

  -- A call of `delete`, whatever its outcome, leaves the outcome of `get` of every key that lies
  -- apart from the one that it was given.
  pub get-delete_apart :
      (key other : Text) (force : Bool)
      → AreApart p.delim key other
      → get other true (delete key force p).1 ≡ get other true p
  unfolding get delete
  get-delete_apart key other force apart =
      get_path-delete_path-Apart (split p.delim key).0 (split p.delim key).1 (split p.delim other).0
        (split p.delim other).1 force p.node apart

  -- A call of `delete` that raises or returns `False` leaves the payload as it was.
  pub delete_unchanged :
      (key : Text) (force : Bool) → (delete key force p).0 ≢ ok true → (delete key force p).1 ≡ p
  unfolding delete
  delete_unchanged key force refused =
      let (k, ks) = split p.delim key in
      rw (delete_path_keeps k ks force p.node refused) (rw (forget_nothing key _ p.keys refused))

  -- For a key with no index on its last segment at which `get` finds a value, `delete` returns
  -- `True` if the value is no list or dict, or an empty one, or `force` is given, and raises
  -- `KvError` with `EINVAL` otherwise; where it does not return `True` the payload is as it was.
  pub delete-verdict :
      (key : Text) (force : Bool) (w : Value)
      → last_index (split p.delim key).0 (split p.delim key).1 ≡ none
      → get key true p ≡ ok w
      → w ≢ null
      → ((delete key force p).0 ≡ verdict w force)
        × ((delete key force p).0 ≢ ok true → (delete key force p).1 ≡ p)
  unfolding get delete
  delete-verdict key force w bare found some_value = (
    delete_path-verdict (split p.delim key).0 (split p.delim key).1 force p.node w bare found
        some_value,
    delete_unchanged key force,
  )

  -- Where the data are a dict that holds strings, lists and dicts alone, at every depth, `set` of a
  -- key that `get` accepts does not raise.
  pub set_succeeds :
      (key : Text) (val : Value) (fs : Fields)
      → IsReadableKey p.delim key
      → p.node ≡ dict fs
      → AreTextual fs
      → (set key val p).0 ≡ ok tt
  unfolding set
  set_succeeds key val fs readable is_fs textual =
      rw is_fs
        (set_path_succeeds (split p.delim key).0 (split p.delim key).1 val fs readable textual)

-- If the dict lacks the name of an indexed first segment that is not the last one, `get` raises a
-- `KeyError`, where the shallow `get` returns `None`.
get_missing_index :
    (fs : Fields) (k k' : Text) (ks : List Text) (n : ℕ)
    → (key_index_split k).index ≡ some (n, [])
    → is_blank (key_index_split k).name ≡ false
    → lookup (key_index_split k).name fs ≡ none
    → (get_path k (k' ∷ ks) (dict fs) ≡ err key_error)
      × (shallow_get_path k (k' ∷ ks) (dict fs) ≡ ok null)
unfolding get_path get_down is_empty shallow_get_path shallow_step
get_missing_index fs k k' ks n indexed named missing = (
  rw named (rw indexed (rw (missing, get_down))),
  rw indexed (rw named (rw (missing, shallow_step))),
)
