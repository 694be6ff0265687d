-- ===== src/Data/Consul/Deletion.antt =====
-- What `delete` leaves in the store.
use cortx_utils.Base.{
  ℕ, Text, codes, List, [], ◌∷◌, ◌++◌, Bool, true, false, not, ◌&&◌, ◌||◌, contains, ◌==◌, none,
  Result, ok, err, Error, Result-cases, ◌≡◌, ◌≢◌, refl, ap, sym, ◌∙◌, inl, inr, ◌>>=◌,
}
use cortx_utils.Value.{Value}
use cortx_utils.Key.Words.{lower}
use cortx_utils.Activity.Checks.{Json}
use cortx_utils.Data.Filters.{Filter}
use cortx_utils.Data.Models.{Model}
use cortx_utils.Data.Templates.{get_object_dir}
use cortx_utils.Data.Converter.{Entry}
use cortx_utils.Data.Converter.Entries.{
  keys, keep, All-map, AreDistinct, AreDistinct-keep, keep_cong, keep_ext, keep_all, keep-keep,
  contains-keys_keep,
}
use cortx_utils.Data.Converter.Visit.{>>=-ok}
use cortx_utils.Data.Converter.Laws.{satisfies, build-satisfies}
use cortx_utils.Data.Consul.{Client, ConsulDb, get_all_raw, selected, delete_all, all_done, delete}
use cortx_utils.Data.Consul.Sorting.{length}
use cortx_utils.Data.Consul.Store.{IsStore, is_under, get_all_raw-keep}

not_or : (a b : Bool) → (not a && not b) ≡ not (a || b)
not_or true b = refl
not_or false b = refl

all_done_iff :
    (C : Client) (M : Model) (J : Json) (shown : Value → Text) (a : Result Bool)
    (as' : List (Result Bool))
    → all_done C M J shown (a ∷ as') ≡ ok tt
    → (a ≡ ok true) × (all_done C M J shown as' ≡ ok tt)
unfolding all_done
all_done_iff C M J shown (ok true) as' h = (refl, h)
all_done_iff C M J shown (ok false) as' h = absurd cc
all_done_iff C M J shown (err e) as' h = absurd cc

module _ (C : Client) (M : Model) (J : Json) (shown : Value → Text) where
  pub selected-satisfies :
      (f : Filter) (raw kept : List Entry)
      → AreDistinct raw
      → selected C M J shown f raw ≡ ok kept
      → kept ≡ keep (satisfies J M f) raw
  unfolding selected
  selected-satisfies f [] kept d h = cc
  selected-satisfies f (e ∷ es) kept d h = build-satisfies J M f (e ∷ es) kept d h

  module _ (S : IsStore C) where
    delete_all-keep :
        (es : List Entry) (w : C.World)
        → all_done C M J shown (delete_all C M J shown es w).0 ≡ ok tt
        → S.entries (delete_all C M J shown es w).1
          ≡ keep (λ e. not (contains e.key (keys es))) (S.entries w)
    unfolding delete_all contains
    delete_all-keep [] w h = sym (keep_all (S.entries w))
    delete_all-keep (e ∷ es) w h =
        let (removed, rest) = all_done_iff C M J shown (C.delete_key e.key w).0 _ h in
        delete_all-keep es (C.delete_key e.key w).1 rest
        ∙ rw (S.delete_key_gone e.key w removed) (
            keep-keep (λ x. not (contains x.key (keys es))) (λ x. not (x.key == e.key))
              (S.entries w)
            ∙ keep_ext _ _ (S.entries w) (λ x. not_or (x.key == e.key) (contains x.key (keys es))))

    -- The entries that `delete` is to remove: objects of the collection that satisfy the filter.
    abbrev pub is_target : Text → Filter → Entry → Bool
    is_target dir f e = is_under (lower dir ++ codes "/") e && satisfies J M f e

    removed_are :
        (db : ConsulDb) (f : Filter) (w w' : C.World) (n : ℕ) (raw kept : List Entry)
        → get_all_raw C M J shown db w ≡ ok raw
        → selected C M J shown f raw ≡ ok kept
        → delete C M J shown db f w ≡ (ok n, w')
        → (n ≡ length kept)
          × (S.entries w' ≡ keep (λ e. not (contains e.key (keys kept))) (S.entries w))
    unfolding delete
    removed_are db f w w' n raw kept read found h =
        let run = rw found at (rw (delete, read, ◌>>=◌) at h) in
        let tasks = delete_all C M J shown kept w in
        let (_, done, counted) = >>=-ok (all_done C M J shown tasks.0) _ (ap (λ p. p.0) run) in
        (cc, ap S.entries (sym (ap (λ p. p.1) run)) ∙ delete_all-keep kept w done)

    not_selected :
        (db : ConsulDb) (f : Filter) (w w' : C.World) (n : ℕ) (raw : List Entry) (e : Error)
        → get_all_raw C M J shown db w ≡ ok raw
        → selected C M J shown f raw ≡ err e
        → delete C M J shown db f w ≢ (ok n, w')
    unfolding delete
    not_selected db f w w' n raw e read failed h =
        let run = rw failed at (rw (delete, read, ◌>>=◌) at h) in cc (ap (λ p. p.0) run)

    -- A call of `delete` that returns has removed the objects of the collection that satisfy the
    -- filter, and no other entry, and returns their number; if the keys of the store are distinct.
    pub delete_leaves :
        (db : ConsulDb) (f : Filter) (w w' : C.World) (n : ℕ) (dir : Text)
        → AreDistinct (S.entries w)
        → get_object_dir none db.templates ≡ ok dir
        → delete C M J shown db f w ≡ (ok n, w')
        → (n ≡ length (keep (is_target dir f) (S.entries w)))
          × (S.entries w' ≡ keep (λ e. not (is_target dir f e)) (S.entries w))
    delete_leaves db f w w' n dir d found h =
        let es = S.entries w in
        let under = is_under (lower dir ++ codes "/") in
        let raw = keep under es in
        let read = get_all_raw-keep C M J shown S db w dir found in
        elim (Result-cases (selected C M J shown f raw)) [
          | inl (kept, sel) ↦
              let (counted, left) = removed_are db f w w' n raw kept read sel h in
              let same =
                selected-satisfies f raw kept (AreDistinct-keep under es d) sel
                ∙ keep-keep (satisfies J M f) under es in
              (
                counted ∙ ap length same,
                left
                    ∙ ap (λ (ks : List Entry). keep (λ e. not (contains e.key (keys ks))) es) same
                    ∙ keep_cong _ _ es (
                        All-map (λ e same'. ap not same') es
                          (contains-keys_keep (is_target dir f) es d)),
              )
          | inr (e, failed) ↦ absurd (not_selected db f w w' n raw e read failed h)
        ]
