-- ===== src/Conf/Copying/Loop.antt =====
-- The loop of `copy`: what it has copied, and that a later key leaves an earlier one.
use cortx_utils.Base.{
  ℕ, Text, true, some, List, [], ◌∷◌, ◌≡◌, ◌≢◌, refl, ◌∙◌, sym, arith, Result, ok, find,
  find-store_self, find-store_ne, Result-cases, inl, inr,
}
use mathlib.Core.Path.{subst}
use cortx_utils.Value.{Value}
use cortx_utils.Payload
use cortx_utils.Payload.{KvPayload}
use cortx_utils.Payload.Laws.{IsPlainKey, AreApart, get-set, get-set_apart}
use cortx_utils.Payload.Write.Frame.{IsPlain}
use cortx_utils.Payload.Write.SetGet.{IsReadable}
use cortx_utils.Conf.{ConfStore, cached, set}
use cortx_utils.Conf.Laws.{set_loaded}
use cortx_utils.Conf.Cache
use cortx_utils.Conf.Cache.{ConfCache}
use cortx_utils.Conf.Copying.{value_at, copy_key, copy_keys}

pub IsPlain-IsReadable : (k : Text) (ks : List Text) → IsPlain k ks → IsReadable k ks
IsPlain-IsReadable k [] h = h
IsPlain-IsReadable k (k' ∷ ks) (named, bare, rest) = (rw bare named, IsPlain-IsReadable k' ks rest)

value_at_loaded :
    (index key : Text) (s : ConfStore) (c : ConfCache)
    → find index s.cache ≡ some c
    → value_at index key s ≡ Payload.get key true c.payload
unfolding value_at cached Cache.get
value_at_loaded index key s c found = rw (found, value_at)

value_at_same :
    (index key : Text) (s t : ConfStore)
    → find index t.cache ≡ find index s.cache
    → value_at index key t ≡ value_at index key s
unfolding value_at cached
value_at_same index key s t same = rw (same, value_at)

-- The keys are apart from `key`, and every one of the keys from those behind it.
abbrev pub AllApart : ℕ → List Text → Text → Type 0
AllApart d [] key = Unit
AllApart d (k ∷ ks) key = AreApart d k key × AllApart d ks key

abbrev pub ArePlainApart : ℕ → List Text → Type 0
ArePlainApart d [] = Unit
ArePlainApart d (k ∷ ks) = IsPlainKey d k × AllApart d ks k × ArePlainApart d ks

-- What each key reads in an index of the second store is what it reads in an index of the first.
abbrev pub ReadAlike : Text → ConfStore → Text → ConfStore → List Text → Type 0
ReadAlike src s dst t [] = Unit
ReadAlike src s dst t (k ∷ ks) = (value_at dst k t ≡ value_at src k s) × ReadAlike src s dst t ks

module _ (src dst : Text) (other : dst ≢ src) (d : ℕ) where
  -- One copied key.
  record IsCopied (k : Text) (s t : ConfStore) : Type 0 where
    after : ConfCache
    loaded : find dst t.cache ≡ some after
    same_delim : after.payload.delim ≡ d
    copied : IsPlainKey d k → value_at dst k t ≡ value_at src k s
    frame : (j : Text) → AreApart d k j → IsPlainKey d j → value_at dst j t ≡ value_at dst j s
    source : find src t.cache ≡ find src s.cache

  set_copies :
      (k : Text) (v : Value) (s : ConfStore) (c : ConfCache)
      → find dst s.cache ≡ some c
      → c.payload.delim ≡ d
      → value_at src k s ≡ ok v
      → (set dst k v s).0 ≡ ok tt
      → IsCopied k s (set dst k v s).1
  unfolding Cache.set Payload.set
  set_copies k v s c found delim value done =
      let step = set_loaded dst k v s c found in
      let c' = (Cache.set k v c).1 in
      let here = find-store_self dst c' s.cache in
      let written : (Payload.set k v c.payload).0 ≡ ok tt = rw step at done in
      rw step (record {
        after = c';
        loaded = here;
        same_delim = delim;
        copied = λ plain.
            value_at_loaded dst k _ c' here
            ∙ get-set c.payload k v (IsPlain-IsReadable _ _ (rw delim plain)) written
            ∙ sym value;
        frame = λ j apart plain.
            value_at_loaded dst j _ c' here
            ∙ get-set_apart c.payload k j v (rw delim apart) (rw delim plain) written
            ∙ sym (value_at_loaded dst j s c found);
        source = find-store_ne dst src c' s.cache other;
      })

  copy_key-IsCopied :
      (k : Text) (s : ConfStore) (c : ConfCache)
      → find dst s.cache ≡ some c
      → c.payload.delim ≡ d
      → (copy_key src dst k s).0 ≡ ok tt
      → IsCopied k s (copy_key src dst k s).1
  unfolding copy_key
  copy_key-IsCopied k s c found delim done = elim (Result-cases (value_at src k s)) [
    | inl (v, value) ↦
        rw (value, copy_key) (set_copies k v s c found delim value (rw (value, copy_key) at done))
    | inr (e, raised) ↦ absurd (ground arith)
  ]

  -- The loop goes on after a key that was copied.
  copy_keys-cons :
      (k : Text) (ks : List Text) (s : ConfStore)
      → (copy_keys src dst (k ∷ ks) s).0 ≡ ok tt
      → ((copy_key src dst k s).0 ≡ ok tt)
        × (copy_keys src dst (k ∷ ks) s ≡ copy_keys src dst ks (copy_key src dst k s).1)
  unfolding copy_keys
  copy_keys-cons k ks s done = elim (Result-cases (copy_key src dst k s).0) [
    | inl (u, copied) ↦ (copied, rw (copied, copy_keys))
    | inr (e, raised) ↦ absurd (ground arith)
  ]

  copy_keys-apart :
      (ks : List Text) (j : Text) (s : ConfStore) (c : ConfCache)
      → find dst s.cache ≡ some c
      → c.payload.delim ≡ d
      → AllApart d ks j
      → IsPlainKey d j
      → (copy_keys src dst ks s).0 ≡ ok tt
      → value_at dst j (copy_keys src dst ks s).1 ≡ value_at dst j s
  copy_keys-apart [] j s c found delim apart plain done = unfold copy_keys in refl
  copy_keys-apart (k ∷ ks) j s c found delim (apart, rest) plain done =
      let (first, step) = copy_keys-cons k ks s done in
      let copied = copy_key-IsCopied k s c found delim first in
      rw step (
        copy_keys-apart ks j _ (copied.after) (copied.loaded) (copied.same_delim) rest plain
          (rw step at done)
        ∙ copied.frame j apart plain)

  ReadAlike-source :
      (ks : List Text) (s s' t : ConfStore)
      → find src s'.cache ≡ find src s.cache
      → ReadAlike src s' dst t ks
      → ReadAlike src s dst t ks
  ReadAlike-source [] s s' t same h = tt
  ReadAlike-source (k ∷ ks) s s' t same (hk, hs) =
      (hk ∙ value_at_same src k s s' same, ReadAlike-source ks s s' t same hs)

  pub copy_keys-ReadAlike :
      (ks : List Text) (s : ConfStore) (c : ConfCache)
      → find dst s.cache ≡ some c
      → c.payload.delim ≡ d
      → ArePlainApart d ks
      → (copy_keys src dst ks s).0 ≡ ok tt
      → ReadAlike src s dst (copy_keys src dst ks s).1 ks
  copy_keys-ReadAlike [] s c found delim apart done = tt
  copy_keys-ReadAlike (k ∷ ks) s c found delim (plain, apart, rest) done =
      let (first, step) = copy_keys-cons k ks s done in
      let copied = copy_key-IsCopied k s c found delim first in
      let done' = rw step at done in
      (
        rw step (
            copy_keys-apart ks k _ (copied.after) (copied.loaded) (copied.same_delim) apart plain
              done'
            ∙ copied.copied plain),
        subst (λ (end : Result (Unit {0}) × ConfStore). ReadAlike src s dst end.1 ks) (sym step)
            (ReadAlike-source ks s _ _ (copied.source) (
              copy_keys-ReadAlike ks _ (copied.after) (copied.loaded) (copied.same_delim) rest
                done')),
      )

  -- The destination stays loaded.
  pub copy_keys-loaded :
      (ks : List Text) (s : ConfStore) (c : ConfCache)
      → find dst s.cache ≡ some c
      → c.payload.delim ≡ d
      → (copy_keys src dst ks s).0 ≡ ok tt
      → (e : ConfCache) × (find dst (copy_keys src dst ks s).1.cache ≡ some e)
  copy_keys-loaded [] s c found delim done = unfold copy_keys in (c, found)
  copy_keys-loaded (k ∷ ks) s c found delim done =
      let (first, step) = copy_keys-cons k ks s done in
      let copied = copy_key-IsCopied k s c found delim first in
      rw step
        (copy_keys-loaded ks _ (copied.after) (copied.loaded) (copied.same_delim) (rw step at done))
