-- ===== src/Index/Serial/Entries.antt =====
-- src/index/index_page.cpp: the loop of `serialize` over the entries of a node.
use somedb.Base.{
  ℕ, zero, suc, ◌+◌, ◌-◌, ◌*◌, ◌<◌, ◌≤◌, ◌≡◌, refl, sym, ap, subst, Option, some, List, [], ◌∷◌,
  length, drop, arith,
}
use somedb.Index.Codec.{Codec}
use somedb.Index.Page.{at}
use somedb.Index.Page.Shift.{Entry, keys_of, values_of}
use somedb.Index.Serial.{page_size, write_entries}
use somedb.Index.Serial.Stored.{FitsEntry, entry_size, total_size, AllFit, Stored}
use somedb.Index.Serial.Written.{with_entry, write_entry-eq, with_entry-Stored}
use somedb.Utils.Serialize.{Buf}

module _ {V : Type 0} (codec : Codec V) where
  -- The entry at an index.
  record Picked (es : List (Entry V)) (i : ℕ) : Type 0 where
    entry : Entry V
    split : drop i es ≡ entry ∷ drop (suc i) es
    key : at (keys_of es) i ≡ some entry.0
    val : at (values_of es) i ≡ some entry.1
    fits : FitsEntry codec entry
    small : total_size codec (drop i es) ≤ total_size codec es

  pick : (i : ℕ) (es : List (Entry V)) → i < length es → AllFit codec es → Picked es i
  pick i [] h fit = absurd (omega arith)
  pick zero (e ∷ es) h fit = record {
    entry = e;
    split = refl;
    key = refl;
    val = refl;
    fits = fit.0;
    small = omega arith;
  }
  pick (suc i) (e ∷ es) h fit =
      let r = pick i es (omega arith) fit.1 in
      record {
        entry = r.entry;
        split = r.split;
        key = r.key;
        val = r.val;
        fits = r.fits;
        small = omega (arith, r.small);
      }

  -- What the loop leaves: all entries stored, from where the space ends.
  pub record WrittenAll (es : List (Entry V)) (result : Option (Buf × ℕ × ℕ)) (start : ℕ)
      : Type 0 where
    pub buf : Buf
    pub space_end : ℕ
    pub returns : result ≡ some (buf, start, space_end)
    pub stored : Stored codec buf space_end es
    pub ends : space_end + total_size codec es ≡ page_size

  pub write_entries-Stored :
      (i : ℕ) (es : List (Entry V)) (buf : Buf) (start p : ℕ)
      → i ≤ length es
      → AllFit codec es
      → Stored codec buf p (drop i es)
      → p + total_size codec (drop i es) ≡ page_size
      → start + 4 * i + total_size codec es ≤ page_size
      → WrittenAll es
          (write_entries codec i (keys_of es) (values_of es) (buf, start, p))
          (start + 4 * i)
  unfolding write_entries
  write_entries-Stored zero es buf start p h fit s t room =
      let z : start ≡ start + 4 * 0 = omega arith in
      record {
        buf = buf;
        space_end = p;
        returns = ap (λ n. some (buf, n, p)) z;
        stored = s;
        ends = t;
      }
  write_entries-Stored (suc i) es buf start p h fit s t room =
      let r = pick i es (omega arith) fit in
      let e = r.entry in
      let tail = drop (suc i) es in
      let kv = p - entry_size codec e in
      let whole : total_size codec (drop i es) ≡ entry_size codec e + total_size codec tail =
        ap (total_size codec) r.split in
      let top : kv + entry_size codec e ≡ p = omega (arith, whole, r.small) in
      let step =
        write_entry-eq codec e buf start p kv top (omega arith) (omega (arith, whole, r.small)) in
      let stored : Stored codec (with_entry codec e buf start kv) kv (drop i es) =
        subst (Stored codec (with_entry codec e buf start kv) kv) (sym r.split) (
          with_entry-Stored codec e tail buf start p kv r.fits top (omega (arith, whole, r.small))
            s) in
      let rest =
        write_entries-Stored i es (with_entry codec e buf start kv) (start + 4) kv (omega arith) fit
          stored (omega (arith, whole)) (omega arith) in
      let n : start + 4 + 4 * i ≡ start + 4 * suc i = omega arith in
      rw (r.key, r.val, step) (rw (sym n) rest)
