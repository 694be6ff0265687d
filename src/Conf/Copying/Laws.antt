-- ===== src/Conf/Copying/Laws.antt =====
-- What `copy` leaves in the destination, as `get` of the store returns it.
use cortx_utils.Base.{
  ℕ, Text, Bool, true, Option, none, some, Option-cases, Bool-cases, err, List, [], ◌∷◌, ◌≡◌, ◌≢◌,
  refl, ◌∙◌, sym, arith, Result, ok, find, inl, inr,
}
use cortx_utils.Value.{Value, null}
use cortx_utils.Conf
use cortx_utils.Conf.{ConfStore, cached, is_loaded, set}
use cortx_utils.Conf.Cache
use cortx_utils.Conf.Cache.{ConfCache}
use cortx_utils.Conf.Copying.{value_at, keys_at, copy_keys, copy}
use cortx_utils.Conf.Copying.Loop.{ArePlainApart, ReadAlike, copy_keys-ReadAlike, copy_keys-loaded}

-- `get` of each key in an index of the second store is what it was in an index of the first.
abbrev pub GotAlike : Text → ConfStore → Text → ConfStore → List Text → Type 0
GotAlike src s dst t [] = Unit
GotAlike src s dst t (k ∷ ks) =
    (Conf.get dst (some k) null true t ≡ Conf.get src (some k) null true s)
    × GotAlike src s dst t ks

-- The keys that `copy` is to copy.
abbrev pub keys_to_copy : Text → Option (List Text) → Bool → ConfStore → Result (List Text)
keys_to_copy src (some ks) recurse s = ok ks
keys_to_copy src none recurse s = Conf.get_keys src recurse s

is_loaded-find :
    (index : Text) (s : ConfStore)
    → is_loaded index s ≡ true
    → (c : ConfCache) × (find index s.cache ≡ some c)
unfolding is_loaded
is_loaded-find index s there = elim (Option-cases (find index s.cache)) [
  | inl missing ↦ absurd (ground arith)
  | inr found ↦ found
]

-- `get` of a loaded index gives what its payload has.
get_at :
    (index key : Text) (s : ConfStore) (c : ConfCache)
    → find index s.cache ≡ some c
    → Conf.get index (some key) null true s ≡ value_at index key s
unfolding Conf.get cached Conf.or_default value_at
get_at index key s c found = rw (found, Conf.get, value_at) (same (Cache.get key true c))
  where
    same :
        (r : Result Value)
        → (elim r as (λ x. Result Value) [ err e ↦ err e | ok v ↦ ok (Conf.or_default null v) ]) ≡ r
    same (err e) = refl
    same (ok null) = refl
    same (ok _) = refl

ReadAlike-GotAlike :
    (src dst : Text) (s t : ConfStore) (c e : ConfCache) (ks : List Text)
    → find src s.cache ≡ some c
    → find dst t.cache ≡ some e
    → ReadAlike src s dst t ks
    → GotAlike src s dst t ks
ReadAlike-GotAlike src dst s t c e [] there here alike = tt
ReadAlike-GotAlike src dst s t c e (k ∷ ks) there here (same, alike) = (
  get_at dst k t e here ∙ same ∙ sym (get_at src k s c there),
  ReadAlike-GotAlike src dst s t c e ks there here alike,
)

module _ (src dst : Text) where
  copy_chosen :
      (key_list : Option (List Text)) (recurse : Bool) (ks : List Text) (s : ConfStore)
      → keys_to_copy src key_list recurse s ≡ ok ks
      → (elim key_list as (λ x. Result (Unit {0}) × ConfStore) [
        | some keys ↦ copy_keys src dst keys s
        | none ↦ elim (keys_at src recurse s) [
          | err e ↦ (err e, s)
          | ok keys ↦ copy_keys src dst keys s
        ]
      ])
        ≡ copy_keys src dst ks s
  copy_chosen (some keys) recurse ks s chosen = let same : keys ≡ ks = cc in rw same refl
  copy_chosen none recurse ks s chosen =
      let run : keys_at src recurse s ≡ ok ks = unfold Conf.get_keys keys_at in chosen in
      rw run refl

  -- `copy` that returns has run its loop, over the given keys or those of the source.
  copy_runs :
      (key_list : Option (List Text)) (recurse : Bool) (ks : List Text) (s : ConfStore)
      → keys_to_copy src key_list recurse s ≡ ok ks
      → (copy src dst key_list recurse s).0 ≡ ok tt
      → (is_loaded src s ≡ true)
        × (is_loaded dst s ≡ true)
        × (copy src dst key_list recurse s ≡ copy_keys src dst ks s)
  unfolding copy
  copy_runs key_list recurse ks s chosen done = elim (Bool-cases (is_loaded src s)) [
    | inr absent ↦ absurd (ground arith)
    | inl there ↦ elim (Bool-cases (is_loaded dst s)) [
      | inr absent ↦ absurd (ground arith)
      | inl here ↦ (there, here, rw there (rw here (copy_chosen key_list recurse ks s chosen)))
    ]
  ]

  -- If `copy` from one index to another returns, then every key that it was given, or that the source
  -- lists if it was given none, has in the destination the value that it had in the source, as `get` of the store
  -- returns it, where the keys have an index at most on
  -- their last segment, are accepted by `get`, and each lies apart from those before it.
  pub copy-GotAlike :
      (other : dst ≢ src) (d : ℕ) (key_list : Option (List Text)) (recurse : Bool) (ks : List Text)
      (s : ConfStore) (c : ConfCache)
      → find dst s.cache ≡ some c
      → c.payload.delim ≡ d
      → keys_to_copy src key_list recurse s ≡ ok ks
      → ArePlainApart d ks
      → (copy src dst key_list recurse s).0 ≡ ok tt
      → GotAlike src s dst (copy src dst key_list recurse s).1 ks
  copy-GotAlike other d key_list recurse ks s c found delim chosen apart done =
      let (there, here, runs) = copy_runs key_list recurse ks s chosen done in
      let (c', at_src) = is_loaded-find src s there in
      let done' = rw runs at done in
      let (e, at_dst) = copy_keys-loaded src dst other d ks s c found delim done' in
      rw runs (
        ReadAlike-GotAlike src dst s _ c' e ks at_src at_dst
          (copy_keys-ReadAlike src dst other d ks s c found delim apart done'))
