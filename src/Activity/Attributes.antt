-- ===== src/Activity/Attributes.antt =====
-- What `assign` does to a dict when the names of the attributes are plain: they are put in turn.
use cortx_utils.Base.{
  Text, Option, none, some, [], ◌≡◌, refl, arith, ok, ◌==◌, eq_iff, if◌then◌else◌,
}
use cortx_utils.Base.Exec.{continue}
use cortx_utils.Key.{split, key_index_split}
use cortx_utils.Value.{Value, dict, Fields, end, field}
use cortx_utils.Value.Dict.{lookup, put, lookup-put}
use cortx_utils.Payload
use cortx_utils.Payload.{KvPayload}
use cortx_utils.Payload.Write.{set_path, set_step, set_at}
use cortx_utils.Activity.Entry.{assign}

-- The name is one segment, without an index.
abbrev pub IsPlainName : Text → Type 0
IsPlainName k = (split b'>' k ≡ (k, [])) × (key_index_split k ≡ record { name = k; index = none })

abbrev pub ArePlainNames : Fields → Type 0
ArePlainNames end = Unit
ArePlainNames (field k v fs) = IsPlainName k × ArePlainNames fs

-- The payload is a dict, with the delimiter that a new one has.
pub record Holds (p : KvPayload) (fs : Fields) : Type 0 where
  pub is_fields : p.node ≡ dict fs
  pub is_delim : p.delim ≡ b'>'

unfoldable pub put_all : Fields → Fields → Fields
put_all end fs = fs
put_all (field k v gs) fs = put_all gs (put k v fs)

-- The last value of a name.
unfoldable pub latest : Text → Fields → Option Value
latest j end = none
latest j (field k v gs) =
    let later = latest j gs in
    elim later [ some w ↦ some w | none ↦ if k == j then some v else none ]

abbrev pub or_else {ℓ} : {A : Type ℓ} → Option A → Option A → Option A
or_else none o = o
or_else (some v) o = some v

pub lookup-put_all :
    (j : Text) (gs fs : Fields) → lookup j (put_all gs fs) ≡ or_else (latest j gs) (lookup j fs)
unfolding put_all latest
lookup-put_all j end fs = refl
lookup-put_all j (field k v gs) fs =
    ground (arith, lookup-put_all j gs (put k v fs), lookup-put k j v fs, eq_iff k j)

set_plain :
    (k : Text) (v : Value) (p : KvPayload) (fs : Fields)
    → IsPlainName k
    → Holds p fs
    → ((Payload.set k v p).0 ≡ ok tt) × Holds (Payload.set k v p).1 (put k v fs)
unfolding Payload.set set_path set_step set_at
set_plain k v p fs (one, plain) h =
    rw (h.is_delim)
      (rw one (rw (h.is_fields) (rw plain (refl, record { is_fields = refl; is_delim = refl }))))

pub assign_plain :
    (gs : Fields) (p : KvPayload) (fs : Fields)
    → ArePlainNames gs
    → Holds p fs
    → ((assign gs p).0 ≡ ok tt) × Holds (assign gs p).1 (put_all gs fs)
unfolding assign put_all
assign_plain end p fs plain h = (refl, h)
assign_plain (field k v gs) p fs (plain, rest) h =
    let (done, held) = set_plain k v p fs plain h in
    rw (done, continue) (assign_plain gs (Payload.set k v p).1 (put k v fs) rest held)
