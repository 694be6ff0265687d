-- ===== src/KvStore/Files/Properties/Laws.antt =====
-- What a properties file reads back.
use cortx_utils.Base.{
  ℕ, Text, codes, true, false, some, [], ◌∷◌, ◌++◌, append_assoc, ◌≡◌, refl, sym, ap, ◌∙◌, ok,
  ◌>>=◌, Assoc, store, find-store_self,
}
use cortx_utils.Key.{split, split_once}
use cortx_utils.Key.Shape.{IsFree, IsFree-append, split-append}
use cortx_utils.Key.Words.{strip, strip_left, strip_right}
use cortx_utils.Value.{Value, str, dict, Fields, end, field}
use cortx_utils.Value.Dict.{put}
use cortx_utils.Payload
use cortx_utils.Payload.{KvPayload}
use cortx_utils.KvStore.Files.{FileStore}
use cortx_utils.KvStore.Files.Faithful.{init_dict}
use cortx_utils.KvStore.Files.Properties.{
  universal, lines, is_skipped, read_line, read_entry, read_lines, parse, load, print, dump,
}
use cortx_utils.KvStore.Files.Properties.Entries.{AreDistinct, all_put, all_put_end}
use cortx_utils.KvStore.Files.Properties.Lines.{
  StartsSolid, EndsSolid, EndsSolid-append, strip-between, strip-behind, strip-before,
  split_once-append,
}

-- A text with no end of a line in it, and no spaces at its ends, which is not empty.
pub record IsWord (s : Text) : Type 0 where
  pub no_newline : IsFree 10 s
  pub no_return : IsFree 13 s
  pub starts : StartsSolid s
  pub ends : EndsSolid s

-- A name that can stand before the equals sign.
pub record IsName (k : Text) : Type 0 where
  pub word : IsWord k
  pub no_equals : IsFree b'=' k
  pub no_comment : is_skipped k ≡ false

-- The entries are words under names.
abbrev pub ArePlain : Fields → Type 0
ArePlain end = Unit
ArePlain (field k (str s) fs) = IsName k × IsWord s × ArePlain fs
ArePlain (field k _ fs) = ⊥

-- The line of an entry.
abbrev line : Text → Text → Text
line k s = k ++ (codes " = " ++ s)

line_whole : (k s : Text) → IsName k → IsWord s → strip (line k s) ≡ line k s
line_whole k s name word =
    strip-between k (codes " = " ++ s) name.word.starts (EndsSolid-append (codes " = ") s word.ends)

line_split :
    (k s : Text) → IsName k → split_once b'=' (line k s) ≡ (k ++ codes " ", some (codes " " ++ s))
line_split k s name =
    ap (split_once b'=') (sym (append_assoc k (codes " ") (codes "= " ++ s)))
    ∙ split_once-append b'=' (k ++ codes " ") (codes " " ++ s)
        (IsFree-append b'=' k (codes " ") name.no_equals (refl, tt))

line_read : (k t : Text) → StartsSolid k → is_skipped k ≡ false → is_skipped (k ++ t) ≡ false
unfolding is_skipped
line_read [] t starts plain = absurd starts
line_read (c ∷ k) t starts plain = plain

read_line-entry :
    (k s : Text) (fs : Fields)
    → IsName k
    → IsWord s
    → read_line (strip (line k s)) fs ≡ ok (put k (str s) fs)
unfolding read_line read_entry
read_line-entry k s fs name word = rw (line_whole k s name word) (
    rw (line_read k (codes " = " ++ s) name.word.starts name.no_comment) (
      rw (line_split k s name) (
        rw (strip-behind k name.word.starts name.word.ends)
          (rw (strip-before s word.starts word.ends) refl))))

-- Without carriage returns, what is read is what was written.
universal_free : (t : Text) → IsFree 13 t → universal t ≡ t
unfolding universal
universal_free [] free = refl
universal_free (c ∷ []) (h, hs) = rw h refl
universal_free (c ∷ d ∷ s) (h, hs) = rw h (ap (λ t. c ∷ t) (universal_free (d ∷ s) hs))

line-IsFree :
    (d : ℕ) (k s : Text) → IsFree d k → IsFree d (codes " = ") → IsFree d s → IsFree d (line k s)
line-IsFree d k s free sign rest =
    IsFree-append d k (codes " = " ++ s) free (IsFree-append d (codes " = ") s sign rest)

module _ (show : Value → Text) (show_str : (s : Text) → show (str s) ≡ s) where
  print-entry :
      (k s : Text) (fs : Fields)
      → print show (field k (str s) fs) ≡ line k s ++ (10 ∷ print show fs)
  unfolding print
  print-entry k s fs = rw (show_str s) refl

  print-IsFree : (fs : Fields) → ArePlain fs → IsFree 13 (print show fs)
  unfolding print
  print-IsFree end plain = tt
  print-IsFree (field k (str s) fs) (name, word, rest) = rw (show_str s) (
      IsFree-append 13 (line k s) (10 ∷ print show fs)
        (line-IsFree 13 k s name.word.no_return (refl, (refl, (refl, tt))) word.no_return)
        (refl, print-IsFree fs rest))
  print-IsFree (field k _ fs) plain = absurd plain

  nothing_read : (gs : Fields) → (read_line (strip []) gs >>= read_lines []) ≡ ok gs
  unfolding read_line read_lines strip strip_left strip_right is_skipped
  nothing_read gs = refl

  -- The lines are read into the entries that are there already.
  read_lines-print :
      (fs gs : Fields)
      → ArePlain fs
      → (let (line, rest) = split 10 (print show fs) in read_lines (line ∷ rest) gs)
        ≡ ok (all_put fs gs)
  unfolding read_lines print split
  read_lines-print end gs plain = nothing_read gs
  read_lines-print (field k (str s) fs) gs (name, word, rest) = rw (print-entry k s fs) (
      rw
        (split-append 10 (line k s) (print show fs)
          (line-IsFree 10 k s name.word.no_newline (refl, (refl, (refl, tt))) word.no_newline))
        (rw (read_line-entry k s gs name word) (read_lines-print fs (put k (str s) gs) rest)))
  read_lines-print (field k _ fs) gs plain = absurd plain

  -- A dict of words under distinct names, dumped to a properties file, is what the file is read as.
  parse-print : (fs : Fields) → ArePlain fs → AreDistinct fs → parse (print show fs) ≡ ok fs
  unfolding parse lines
  parse-print fs plain distinct =
      rw (universal_free (print show fs) (print-IsFree fs plain))
        (rw (read_lines-print fs end plain) (rw (all_put_end fs distinct) refl))

  load_printed :
      (st : FileStore) (fs : Fields) (files : Assoc Text)
      → ArePlain fs
      → AreDistinct fs
      → load st (store st.path (print show fs) files)
        ≡ Payload.init (some (dict fs)) (st.delim ∷ []) true
  unfolding load
  load_printed st fs files plain distinct =
      rw (find-store_self st.path (print show fs) files, load)
        (rw (parse-print fs plain distinct, load) refl)

  -- A payload that was dumped to a properties file is loaded with the same data, if they are a dict
  -- of words under distinct names, and `%s` prints a text as it is: no end of a line is in a word,
  -- no space at its ends, and it is not empty; a name has no equals sign and begins with no `#`.
  pub properties_load-dump :
      (st : FileStore) (p : KvPayload) (fs : Fields) (files : Assoc Text)
      → p.node ≡ dict fs
      → ArePlain fs
      → AreDistinct fs
      → (q : KvPayload) × ((dump show st p files).0 ≡ ok tt)
        × (load st (dump show st p files).1 ≡ ok q)
        × (q.node ≡ p.node)
  unfolding dump
  properties_load-dump st p fs files is_fields plain distinct =
      let (q, made, same_node, _) = init_dict fs st.delim true in
      (
        q,
        rw is_fields refl,
        rw is_fields (load_printed st fs files plain distinct ∙ made),
        same_node ∙ sym is_fields,
      )
