-- ===== src/Tests/Bundles.antt =====
-- The newest bytes of two logs.
use cortx_utils.Base.{
  true, false, codes, some, List, [], ◌∷◌, ◌+◌, ◌≤◌, ◌≡◌, refl, starts_with, store, ◌==◌,
}
use cortx_utils.Logs.{Entry, limit_size, files_of, sort, insert, keep, truncate, without_star}
use cortx_utils.Logs.Laws.{total, limit_size-total}

abbrev source : List Entry
source =
    record { name = codes "s3.1"; is_file = true; mtime = 4; bytes = codes "older" }
    ∷ record { name = codes "old"; is_file = false; mtime = 9; bytes = [] }
    ∷ record { name = codes "s3.2"; is_file = true; mtime = 6; bytes = codes "new" }
    ∷ []

newest_kept :
    (limit_size (some source) (codes "s3*") 5 []).1
    ≡ (codes "s3.2", codes "new") ∷ (codes "s3.1", codes "er") ∷ []
unfolding limit_size files_of sort insert keep truncate without_star starts_with store ◌==◌
newest_kept = refl

limit_size-total_example : total (limit_size (some source) (codes "s3*") 5 []).1 ≤ 5 + 0
limit_size-total_example = limit_size-total (some source) (codes "s3*") 5 []
