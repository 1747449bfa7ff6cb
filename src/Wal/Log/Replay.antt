-- ===== src/Wal/Log/Replay.antt =====
-- A whole log under the reader: what `append_batch` of nanograph-wal/src/writer.rs wrote, after a
-- clean end and after a crash.
use nanograph.Prelude.{
  ℕ, ◌+◌, ◌≤◌, ◌<◌, ◌≡◌, refl, sym, subst, ap, ◌∙◌, none, some, ok, err, ◌⊎◌, List, [], ◌∷◌, ◌++◌,
  length, take, leb, true, arith, length-append,
}
use mathlib.Core.List.{append_assoc, append-nil}
use nanograph.Bytes.{Bytes}
use nanograph.BTree.Entries.{All}
use nanograph.Util.Integrity.{Hashes, IntegrityAlgorithm}
use nanograph.Vfs.MemoryFile.{
  MemoryFile, bytes, get_size, put_bytes, write_to_offset, sync_all, sync_data,
}
use nanograph.Vfs.MemoryFile.Contents.{put_bytes_end}
use nanograph.Wal.Lsn.{LogSequenceNumber, zero_lsn, corruption}
use nanograph.Wal.Header.{ByteOrder}
use nanograph.Wal.Segment.{WriteAheadLogFile, WriteAheadLogRecord, record_bytes, append}
use nanograph.Wal.Segment
use nanograph.Wal.Reader.{WriteAheadLogReader, WriteAheadLogEntry, at, next, reader_from_offset}
use nanograph.Wal.Writer.{Durability, unsynced, buffered, synced, settle, append_all, append_batch}
use nanograph.Wal.Log.Records.{IsInRange, next-record_bytes}
use nanograph.Wal.Log.Torn.{next_torn}

-- Calls of `next` that return these entries take the reader from its first to its last state.
pub data Reads (B : ByteOrder) (H : Hashes) (f : MemoryFile) (r' : WriteAheadLogReader)
    : WriteAheadLogReader → List WriteAheadLogEntry → Type 0 where
  done : Reads B H f r' r' []
  entry :
      {r s : WriteAheadLogReader} {e : WriteAheadLogEntry} {es : List WriteAheadLogEntry}
      → next B H r f ≡ some (ok (some e), s)
      → Reads B H f r' s es
      → Reads B H f r' r (e ∷ es)

-- The invariant of a segment: the next record goes to the end of the file.
abbrev pub IsOpen : WriteAheadLogFile → Type 0
IsOpen s = s.write_offset ≡ get_size s.file

module _ (B : ByteOrder) (H : Hashes) (a : IntegrityAlgorithm) where
  unfoldable pub log_bytes : List WriteAheadLogRecord → Bytes
  log_bytes [] = []
  log_bytes (c ∷ cs) = record_bytes B H a c ++ log_bytes cs

  -- The entries of records that stand one behind the other from an offset on.
  unfoldable pub entries : ℕ → ℕ → List WriteAheadLogRecord → List WriteAheadLogEntry
  entries segment_id offset [] = []
  entries segment_id offset (c ∷ cs) =
      record {
        lsn = record { segment_id = segment_id; offset = offset };
        kind = c.kind;
        payload = c.payload;
      }
      ∷ entries segment_id (offset + length (record_bytes B H a c)) cs

  abbrev pub moved : WriteAheadLogReader → ℕ → WriteAheadLogReader
  moved r offset = record r { offset = offset }

  -- A reader at the first of some whole records returns them in their order, whatever stands
  -- before and behind them.
  pub log_bytes-Reads :
      (cs : List WriteAheadLogRecord) (r : WriteAheadLogReader) (f : MemoryFile)
      (before after : Bytes) (end : ℕ)
      → All IsInRange cs
      → r.integrity ≡ a
      → bytes f ≡ before ++ (log_bytes cs ++ after)
      → r.offset ≡ length before
      → end ≡ r.offset + length (log_bytes cs)
      → Reads B H f (moved r end) r (entries r.segment_id r.offset cs)
  unfolding log_bytes entries
  log_bytes-Reads [] r f before after end i same e l m =
      let back : r.offset ≡ end = omega arith in subst (λ n. Reads B H f (moved r n) r []) back done
  log_bytes-Reads (c ∷ cs) r f before after end (i, is) same e l m =
      let one = record_bytes B H a c in
      let first : bytes f ≡ before ++ (one ++ (log_bytes cs ++ after)) =
        e ∙ ap (λ b. before ++ b) (append_assoc one (log_bytes cs) after) in
      let rest : bytes f ≡ (before ++ one) ++ (log_bytes cs ++ after) =
        first ∙ sym (append_assoc before one (log_bytes cs ++ after)) in
      entry (next-record_bytes B H a c r f before (log_bytes cs ++ after) i same first l) (
        log_bytes-Reads cs (moved r (r.offset + length one)) f (before ++ one) after end is same
          rest (omega (arith, length-append before one))
          (omega (arith, length-append one (log_bytes cs))))

module _ (B : ByteOrder) (H : Hashes) where
  -- Appending to an open segment adds the record's bytes at the end of the file and keeps the
  -- segment open.
  pub append-IsOpen :
      (s : WriteAheadLogFile) (c : WriteAheadLogRecord)
      → IsOpen s
      → (bytes (append B H s c).1.file ≡ bytes s.file ++ record_bytes B H s.integrity c)
        × IsOpen (append B H s c).1
  unfolding append write_to_offset get_size
  append-IsOpen s c h =
      let buffer = record_bytes B H s.integrity c in
      let e : put_bytes (bytes s.file) s.write_offset buffer ≡ bytes s.file ++ buffer =
        rw h (put_bytes_end (bytes s.file) buffer) in
      (e, rw e (omega (arith, length-append (bytes s.file) buffer)))

  pub append_all-IsOpen :
      (cs : List WriteAheadLogRecord) (s : WriteAheadLogFile) (lsn : LogSequenceNumber)
      → IsOpen s
      → (bytes (append_all B H s lsn cs).1.file ≡ bytes s.file ++ log_bytes B H s.integrity cs)
        × IsOpen (append_all B H s lsn cs).1
        × ((append_all B H s lsn cs).1.integrity ≡ s.integrity)
        × ((append_all B H s lsn cs).1.segment_id ≡ s.segment_id)
  unfolding append_all log_bytes append
  append_all-IsOpen [] s lsn h = (sym (append-nil (bytes s.file)), h, refl, refl)
  append_all-IsOpen (c ∷ cs) s lsn h =
      let (e, h') = append-IsOpen s c h in
      let (s_lsn, s') = append B H s c in
      let (es, hs, is, ids) = append_all-IsOpen cs s' s_lsn h' in
      (
        es
            ∙ ap (λ b. b ++ log_bytes B H s.integrity cs) e
            ∙ append_assoc (bytes s.file) (record_bytes B H s.integrity c)
                (log_bytes B H s.integrity cs),
        hs,
        is,
        ids,
      )

  -- Appending changes the file and the offset of a segment and nothing else.
  pub append_all_same :
      (cs : List WriteAheadLogRecord) (s : WriteAheadLogFile) (lsn : LogSequenceNumber)
      → record s {
        file = (append_all B H s lsn cs).1.file;
        write_offset = (append_all B H s lsn cs).1.write_offset;
      }
        ≡ (append_all B H s lsn cs).1
  unfolding append_all append
  append_all_same [] s lsn = refl
  append_all_same (c ∷ cs) s lsn = append_all_same cs (append B H s c).1 (append B H s c).0

  next_end :
      (r : WriteAheadLogReader) (f : MemoryFile)
      → get_size f ≤ r.offset
      → next B H r f ≡ some (ok none, r)
  unfolding next
  next_end r f h = let past : leb (get_size f) r.offset ≡ true = ground arith in rw past

  pub settle_lem : (d : Durability) (s : WriteAheadLogFile) → settle d s ≡ s
  unfolding settle Segment.flush Segment.sync sync_all sync_data
  settle_lem unsynced s = refl
  settle_lem buffered s = refl
  settle_lem synced s = refl

  -- A batch appended to an open segment, under any durability, is read back: a reader at the
  -- offset where the segment ended before returns the records in their order, each at its own
  -- position, and then the end of the log; the segment is open again.
  pub append_batch-Reads :
      (s : WriteAheadLogFile) (cs : List WriteAheadLogRecord) (d : Durability)
      → IsOpen s
      → All IsInRange cs
      → (r' : WriteAheadLogReader) × Reads B H
          (append_batch B H s cs d).1.file
          r'
          (reader_from_offset (append_batch B H s cs d).1 s.write_offset)
          (entries B H s.integrity s.segment_id s.write_offset cs)
        × (next B H r' (append_batch B H s cs d).1.file ≡ some (ok none, r'))
        × IsOpen (append_batch B H s cs d).1
  unfolding append_batch reader_from_offset get_size
  append_batch-Reads s cs d h i =
      let a = s.integrity in
      let (e, h', is, ids) = append_all-IsOpen cs s zero_lsn h in
      let t = (append_all B H s zero_lsn cs).1 in
      let end = s.write_offset + length (log_bytes B H a cs) in
      let r = reader_from_offset t s.write_offset in
      let whole : bytes t.file ≡ bytes s.file ++ (log_bytes B H a cs ++ []) =
        e ∙ ap (λ b. bytes s.file ++ b) (sym (append-nil (log_bytes B H a cs))) in
      let size : get_size t.file ≡ end =
        rw e (omega (arith, length-append (bytes s.file) (log_bytes B H a cs))) in
      let reads = log_bytes-Reads B H a cs r t.file (bytes s.file) [] end i is whole h refl in
      let r' = moved B H a r end in
      let found : Reads B H t.file r' r (entries B H a s.segment_id s.write_offset cs) =
        subst (λ n. Reads B H t.file r' r (entries B H a n s.write_offset cs)) ids reads in
      rw (settle_lem d t) (r', found, next_end r' t.file (omega (arith, size)), h')

  -- After a crash in the middle of appending a record, the records before it are all read back in
  -- their order, and then the reader returns the end of the log or corruption where the torn
  -- record begins, and never an entry made of its bytes.
  pub torn-Reads :
      (r : WriteAheadLogReader) (f : MemoryFile) (before : Bytes) (cs : List WriteAheadLogRecord)
      (c : WriteAheadLogRecord) (n : ℕ)
      → All IsInRange cs
      → IsInRange c
      → n < length (record_bytes B H r.integrity c)
      → bytes f
        ≡ before ++ (log_bytes B H r.integrity cs ++ take n (record_bytes B H r.integrity c))
      → r.offset ≡ length before
      → (r' : WriteAheadLogReader) × Reads B H f r' r
          (entries B H r.integrity r.segment_id r.offset cs)
        × ((next B H r' f ≡ some (ok none, r'))
            ⊎ (next B H r' f ≡ some (err (corruption (at r')), r')))
  torn-Reads r f before cs c n i j h e l =
      let a = r.integrity in
      let log = log_bytes B H a cs in
      let part = take n (record_bytes B H a c) in
      let r' = moved B H a r (r.offset + length log) in
      (
        r',
        log_bytes-Reads B H a cs r f before part _ i refl e l refl,
        next_torn B H a c r' f (before ++ log) n j h (e ∙ sym (append_assoc before log part))
            (omega (arith, length-append before log)),
      )
