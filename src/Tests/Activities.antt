-- ===== src/Tests/Activities.antt =====
-- An activity in a store with one payload.
use cortx_utils.Base.{
  Text, false, codes, List, [], ◌∷◌, ◌≡◌, refl, ok, err, activity_error, einval, ◌==◌,
  if◌then◌else◌, arith, ◌||◌, not,
}
use cortx_utils.Key.{split, key_index_split, find_index, match_index, is_blank, is_empty}
use cortx_utils.Value.{str, pos}
use cortx_utils.Value.Dict.{lookup}
use cortx_utils.Payload
use cortx_utils.Payload.{KvPayload}
use cortx_utils.Payload.Write.{set_path}
use cortx_utils.KvStore
use cortx_utils.KvStore.{Backend}
use cortx_utils.Activity
use cortx_utils.Activity.Entry.{ActivityEntry, set_progress}
use cortx_utils.Activity.Spec.{State, Steps, IsSound, IsLater}
use cortx_utils.Activity.Shown.{Shows}
use cortx_utils.Activity.Life.{
  Call, update_call, finish_call, suspend_call, run_calls, is_blocked, update-verdict,
  run_calls-Steps, run_calls-IsLater,
}
use cortx_utils.Activity.Stored.{entry, create_writes, get-create}
use cortx_utils.Tests.Codec.{codec, codec-IsExactJson}
use cortx_utils.Payload.Laws.{IsReadableKey}
use cortx_utils.Tests.Samples.{blank}
use cortx_utils.Tests.Stores.{memory, memory-IsFaithful}

abbrev fresh : Text
fresh = codes "7f"

abbrev a : ActivityEntry
a = entry fresh 5 (codes "backup") (codes "node/disk") (codes "copies")

abbrev begun : State
begun = record { status = codes "NEW"; pct = 0 }

a-Shows : Shows a begun
unfolding lookup ◌==◌
a-Shows = record {
  fields = _;
  held = record { is_fields = refl; is_delim = refl };
  same_status = refl;
  same_pct = refl;
}

begun-IsSound : IsSound begun
begun-IsSound = record { bounded = ground arith; all_done = λ e. absurd (ground arith) }

abbrev url : Text
url = codes "json:///a"

update-verdict_example :
    Activity.update codec memory url (pos 100) (codes "too far") 6 (a, blank) ≡ (
      if is_blocked (pos 100) begun || not false
      then (err (activity_error einval), (a, blank))
      else Activity.write_shared codec memory url
          ((set_progress (pos 100) (codes "too far") 6 a).1, blank))
update-verdict_example =
    update-verdict codec codec-IsExactJson memory url (pos 100) (codes "too far") 6 a blank begun
      a-Shows

abbrev calls : List Call
calls =
    update_call (pos 30) (codes "copying") 6
    ∷ suspend_call (codes "paused") 7
    ∷ finish_call (pos 0) (codes "done") 8
    ∷ update_call (pos 40) (codes "again") 9
    ∷ []

run_calls-IsLater_example :
    (t : State) × Shows (run_calls codec memory url calls (a, blank)).0 t × IsLater begun t
run_calls-IsLater_example =
    run_calls-IsLater codec codec-IsExactJson memory url calls a blank begun a-Shows begun-IsSound

run_calls-Steps_example :
    (t : State) × Shows (run_calls codec memory url calls (a, blank)).0 t × Steps begun t
run_calls-Steps_example =
    run_calls-Steps codec codec-IsExactJson memory url calls a blank begun a-Shows

fresh_readable : IsReadableKey b'>' fresh
unfolding split key_index_split find_index match_index is_blank is_empty
fresh_readable = refl

create_done :
    (Activity.create codec memory url fresh 5
      (str (codes "backup"))
      (str (codes "node/disk"))
      (str (codes "copies"))
      blank).0
    ≡ ok a
unfolding Activity.write KvStore.set KvStore.set_each Payload.set set_path key_index_split
    find_index match_index split
create_done =
    rw
      (create_writes fresh 5 (codes "backup") (codes "node/disk") (codes "copies") codec memory url
        blank)
      refl

get-create_example :
    (Activity.get codec memory url
      (codes "80")
      9
      fresh
      (Activity.create codec memory url fresh 5
        (str (codes "backup"))
        (str (codes "node/disk"))
        (str (codes "copies"))
        blank).1).0
    ≡ ok a
get-create_example =
    get-create fresh 5 (codes "backup") (codes "node/disk") (codes "copies") codec memory url
      memory-IsFaithful blank blank a (codes "80") 9 codec-IsExactJson refl fresh_readable tt
      create_done
