-- ===== src/Wal/Manager/Head.antt =====
-- The head of a new log: `head_lsn` of nanograph-wal/src/manager.rs under the reader.
use nanograph.Prelude.{
  ℕ, ◌≤◌, ◌≡◌, refl, ap, sym, ◌∙◌, none, some, ok, err, true, false, not, leb, ltb, ◌==◌, List,
  ◌++◌, length, take, slice, replicate, arith, length-append,
}
use nanograph.Prelude.Slices.{take-take, take-append_short}
use nanograph.Bytes.{Bytes}
use nanograph.BTree.Entries.{All}
use nanograph.Util.Integrity.{Hashes}
use nanograph.Vfs.MemoryFile.{MemoryFile, bytes, get_size}
use nanograph.Vfs.MemoryFile.Contents.{read_at_offset_within}
use nanograph.Wal.Lsn.{LogSequenceNumber, header_size, corruption, zero_lsn}
use nanograph.Wal.Header.{ByteOrder, encode, segment_magic}
use nanograph.Wal.Header.RoundTrip.{encode_magic, length-encode}
use nanograph.Wal.Segment.{WriteAheadLogFile, WriteAheadLogRecord, new_header, create, record_magic}
use nanograph.Wal.Segment
use nanograph.Wal.Reader.{WriteAheadLogReader, next, reader_from_offset, at}
use nanograph.Wal.Writer.{Durability, append_batch, append_all}
use nanograph.Wal.Manager.{
  WriteAheadLogManager, WriteAheadLogConfig, new, reader_from, head_lsn, empty_file, with_active,
}
use nanograph.Wal.Log.Records.{IsInRange}
use nanograph.Wal.Log.Replay.{
  Reads, IsOpen, entries, log_bytes, append_all-IsOpen, append_all_same, append_batch-Reads,
  settle_lem,
}
use nanograph.Wal.Log.Restart.{create-IsOpen}

-- Where a file begins with a segment header, a reader at offset 0 finds corruption.
next_header :
    (B : ByteOrder) (H : Hashes) (f : MemoryFile) (r : WriteAheadLogReader)
    → r.offset ≡ 0
    → header_size ≤ get_size f
    → slice 0 4 (bytes f) ≡ B.write 4 segment_magic
    → next B H r f ≡ some (err (corruption (at r)), r)
unfolding next
next_header B H f r z size magic =
    let (header, e, l, is_header) = read_at_offset_within f r.offset 10 (omega arith) in
    let started : leb (get_size f) r.offset ≡ false = ground arith in
    let full : ltb (length header) 10 ≡ false = ground (arith, l) in
    let first : take 4 header ≡ B.write 4 segment_magic =
      rw (is_header, z, take-take 4 10 (bytes f) (omega arith)) magic in
    let read : B.read (slice 0 4 header) ≡ segment_magic =
      rw first (B.read-write 4 segment_magic (omega arith)) in
    let wrong : not (B.read (slice 0 4 header) == record_magic) ≡ true = rw read refl in
    rw (started, e, full, wrong)

-- The manager after a batch is written to its log.
abbrev pub written :
    ByteOrder
    → Hashes
    → WriteAheadLogManager
    → List WriteAheadLogRecord
    → Durability
    → WriteAheadLogManager
written B H m cs d = record m { active_segment = (append_batch B H m.active_segment cs d).1 }

abbrev pub first_lsn : ℕ → LogSequenceNumber
first_lsn offset = record { segment_id = 0; offset = offset }

module _ (B : ByteOrder) (H : Hashes) (now : ℕ) (config : WriteAheadLogConfig) where
  abbrev first_segment : WriteAheadLogFile
  first_segment =
      create B H now empty_file config.shard_id 0 0 config.checksum config.compression
        config.encryption 0

  abbrev header_bytes : Bytes
  header_bytes =
      encode B H
        (new_header now config.shard_id 0 0 config.checksum config.compression config.encryption 0)
        (replicate header_size 0)

  first_segment-IsOpen : (bytes first_segment.file ≡ header_bytes) × IsOpen first_segment
  first_segment-IsOpen =
      create-IsOpen B H now empty_file config.shard_id 0 0 config.checksum config.compression
        config.encryption 0 refl

  -- The file of the first segment begins with its header, whatever is appended.
  first_segment_begins :
      (cs : List WriteAheadLogRecord)
      → (header_size ≤ get_size (append_all B H first_segment zero_lsn cs).1.file)
        × (slice 0 4 (bytes (append_all B H first_segment zero_lsn cs).1.file)
            ≡ B.write 4 segment_magic)
  unfolding get_size
  first_segment_begins cs =
      let (e, ends) = first_segment-IsOpen in
      let (es, _, _, _) = append_all-IsOpen B H cs first_segment zero_lsn ends in
      let log = log_bytes B H first_segment.integrity cs in
      let whole = es ∙ ap (λ b. b ++ log) e in
      let header =
        new_header now config.shard_id 0 0 config.checksum config.compression config.encryption 0 in
      let long : length header_bytes ≡ header_size =
        length-encode B H header (replicate header_size 0) refl in
      (
        rw whole (omega (arith, length-append header_bytes log, long)),
        ap (λ b. slice 0 4 b) whole
            ∙ take-append_short 4 header_bytes log (omega (arith, long))
            ∙ encode_magic B H header (replicate header_size 0) refl,
      )

  -- The log of a new manager has its head at offset 0 of segment 0, where the header stands, also
  -- after a batch is written to it. A reader that starts at the head then finds corruption there,
  -- whereas one that starts behind the header returns the records of the batch from the first on.
  pub new-head_lsn :
      (cs : List WriteAheadLogRecord) (d : Durability)
      → All IsInRange cs
      → (m : WriteAheadLogManager) × (r s s' : WriteAheadLogReader) × (new B H now none config
          ≡ some (ok m))
        × (head_lsn m ≡ first_lsn 0)
        × (head_lsn (written B H m cs d) ≡ first_lsn 0)
        × (reader_from (written B H m cs d) (first_lsn 0) ≡ ok r)
        × (next B H r (written B H m cs d).active_segment.file
            ≡ some (err (corruption (first_lsn 0)), r))
        × (reader_from (written B H m cs d) (first_lsn header_size) ≡ ok s)
        × Reads B H
            (written B H m cs d).active_segment.file
            s'
            s
            (entries B H config.checksum 0 header_size cs)
  unfolding new head_lsn Segment.start_lsn reader_from reader_from_offset append_batch create
  new-head_lsn cs d i =
      let t = (append_all B H first_segment zero_lsn cs).1 in
      let (_, ends) = first_segment-IsOpen in
      let same : _ ≡ t = append_all_same B H cs first_segment zero_lsn in
      let settled = settle_lem B H d t in
      let id : (append_batch B H first_segment cs d).1.segment_id ≡ 0 =
        ap (λ u. u.segment_id) (settled ∙ sym same) in
      let start : (append_batch B H first_segment cs d).1.start_offset ≡ 0 =
        ap (λ u. u.start_offset) (settled ∙ sym same) in
      let (s', reads, _, _) = append_batch-Reads B H first_segment cs d ends i in
      let (size, magic) = first_segment_begins cs in
      let r = reader_from_offset (append_batch B H first_segment cs d).1 0 in
      (
        with_active first_segment,
        r,
        reader_from_offset (append_batch B H first_segment cs d).1 header_size,
        s',
        refl,
        refl,
        rw (id, start) refl,
        rw id refl,
        next_header B H _ r refl (rw settled size) (rw settled magic)
            ∙ ap (λ n. some (err (corruption (record { segment_id = n; offset = 0 })), r)) id,
        rw id refl,
        reads,
      )
