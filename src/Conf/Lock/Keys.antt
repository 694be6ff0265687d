-- ===== src/Conf/Lock/Keys.antt =====
-- The two keys of a lock, at the delimiter `>` for which they are written.
use cortx_utils.Base.{Text, none, [], ◌∷◌, ◌++◌, ◌≡◌, ◌≢◌, refl, sym, ap, ◌∙◌, codes, arith}
use cortx_utils.Key.{Part, split, key_index_split, is_blank}
use cortx_utils.Key.Shape.{IsFree, split_free, split-append, key_index_split_free}
use cortx_utils.Payload.Delete.Gone.{last_index}
use cortx_utils.Payload.Enumerate.Readable.{IsName}
use cortx_utils.Payload.Write.Frame.{here, below}
use cortx_utils.Payload.Laws.{IsPlainKey, AreApart}
use cortx_utils.Conf.Lock.{owner_key, end_time_key}

split_lock_key :
    (domain last : Text)
    → IsFree b'>' domain
    → IsFree b'>' last
    → split b'>' (codes "lock>" ++ (domain ++ (b'>' ∷ last))) ≡ (codes "lock", domain ∷ last ∷ [])
split_lock_key domain last hd hl =
    split-append b'>' (codes "lock") (domain ++ (b'>' ∷ last)) (ground arith)
    ∙ rw (split-append b'>' domain last hd) (rw (split_free b'>' last hl))

lock_part : key_index_split (codes "lock") ≡ record { name = codes "lock"; index = none }
lock_part = key_index_split_free (codes "lock") (ground arith)

owner_part : key_index_split (codes "owner") ≡ record { name = codes "owner"; index = none }
owner_part = key_index_split_free (codes "owner") (ground arith)

end_part : key_index_split (codes "end_time") ≡ record { name = codes "end_time"; index = none }
end_part = key_index_split_free (codes "end_time") (ground arith)

module _ (domain : Text) (named : IsName b'>' domain) where
  split_owner : split b'>' (owner_key domain) ≡ (codes "lock", domain ∷ codes "owner" ∷ [])
  unfolding owner_key
  split_owner = split_lock_key domain (codes "owner") (named.1) (ground arith)

  split_end : split b'>' (end_time_key domain) ≡ (codes "lock", domain ∷ codes "end_time" ∷ [])
  unfolding end_time_key
  split_end = split_lock_key domain (codes "end_time") (named.1) (ground arith)

  domain_part : key_index_split domain ≡ record { name = domain; index = none }
  domain_part = key_index_split_free domain (named.2)

  pub owner_key-IsPlain : IsPlainKey b'>' (owner_key domain)
  unfolding is_blank
  owner_key-IsPlain =
      rw split_owner
        (rw lock_part (rw domain_part (rw owner_part ((refl, refl, (named.0, refl, refl))))))

  pub end_time_key-IsPlain : IsPlainKey b'>' (end_time_key domain)
  unfolding is_blank
  end_time_key-IsPlain =
      rw split_end
        (rw lock_part (rw domain_part (rw end_part ((refl, refl, (named.0, refl, refl))))))

  pub owner_key-bare :
      last_index (split b'>' (owner_key domain)).0 (split b'>' (owner_key domain)).1 ≡ none
  owner_key-bare = rw split_owner (ap (λ (p : Part). p.index) owner_part)

  pub end_apart_owner : AreApart b'>' (end_time_key domain) (owner_key domain)
  end_apart_owner =
      rw (split_end, split_owner)
        (below refl (ap (λ (p : Part). p.index) lock_part)
          (below refl (ap (λ (p : Part). p.index) domain_part) (here names_differ)))
    where
      names_differ :
          (key_index_split (codes "end_time")).name ≢ (key_index_split (codes "owner")).name
      names_differ e =
          cc (sym (ap (λ (p : Part). p.name) end_part) ∙ e ∙ ap (λ (p : Part). p.name) owner_part)
