-- ===== src/Wal/Log/Restart.antt =====
-- A segment closed and opened again: `create` and `open_existing` of nanograph-wal/src/walfile.rs.
use nanograph.Prelude.{ℕ, ◌≡◌, refl, sym, ap, ◌∙◌, some, ok, List, [], ◌++◌, length, replicate}
use mathlib.Core.List.{append-nil}
use nanograph.Bytes.{Bytes}
use nanograph.Util.Integrity.{Hashes, IntegrityAlgorithm}
use nanograph.Util.Compression.{CompressionAlgorithm}
use nanograph.Util.Encryption.{EncryptionAlgorithm}
use nanograph.Vfs.MemoryFile.{
  MemoryFile, bytes, get_size, put_bytes, read_at_offset, write_to_offset,
}
use nanograph.Vfs.MemoryFile.Contents.{put_bytes_end, read_at_offset_chunk}
use nanograph.Wal.Lsn.{header_size, zero_lsn}
use nanograph.Wal.Header.{ByteOrder, SegmentHeader, encode, decode}
use nanograph.Wal.Header.RoundTrip.{IsInRange, sealed, decode-encode, length-encode}
use nanograph.Wal.Segment.{
  WriteAheadLogFile, WriteAheadLogRecord, new_header, create, open_existing, open_decoded,
}
use nanograph.Wal.Writer.{Durability, append_batch, append_all}
use nanograph.Wal.Log.Replay.{IsOpen, log_bytes, append_all-IsOpen, append_all_same, settle_lem}

-- What `open_existing` returns where the header is found and is good.
open_decoded_found :
    (B : ByteOrder) (H : Hashes) (f : MemoryFile) (b : Bytes) (h : SegmentHeader)
    → decode B H b ≡ ok h
    → open_decoded B H f b
      ≡ ok (record {
        file = f;
        shard_id = h.shard_id;
        segment_id = h.segment_id;
        start_offset = h.start_offset;
        write_offset = get_size f;
        integrity = h.integrity;
      })
unfolding open_decoded
open_decoded_found B H f b h d = rw (open_decoded, d)

open_existing_found :
    (B : ByteOrder) (H : Hashes) (f : MemoryFile) (found : Bytes)
    → read_at_offset f 0 header_size ≡ some found
    → length found ≡ header_size
    → open_existing B H f ≡ some (open_decoded B H f found)
unfolding open_existing
open_existing_found B H f found e l =
    rw e (ap (λ b. some (open_decoded B H f b)) (rw (l, append-nil found)))

module _ (B : ByteOrder) (H : Hashes) (now : ℕ) (file : MemoryFile)
    (shard_id segment_id start_offset : ℕ) (integrity : IntegrityAlgorithm)
    (compression : CompressionAlgorithm) (encryption : EncryptionAlgorithm) (key_id : ℕ) where
  abbrev fresh : WriteAheadLogFile
  fresh =
      create B H now file shard_id segment_id start_offset integrity compression encryption key_id

  abbrev first_header : SegmentHeader
  first_header =
      new_header now shard_id segment_id start_offset integrity compression encryption key_id

  abbrev header_bytes : Bytes
  header_bytes = encode B H first_header (replicate header_size 0)

  length-header_bytes : length header_bytes ≡ header_size
  length-header_bytes = length-encode B H first_header (replicate header_size 0) refl

  -- A new segment in an empty file holds its header alone, and is open.
  pub create-IsOpen : bytes file ≡ [] → (bytes fresh.file ≡ header_bytes) × IsOpen fresh
  unfolding create write_to_offset get_size
  create-IsOpen empty =
      let e : bytes fresh.file ≡ header_bytes =
        ap (λ b. put_bytes b 0 header_bytes) empty ∙ put_bytes_end [] header_bytes in
      (e, rw e (sym length-header_bytes))

  -- A segment that was created in an empty file, with numbers in the ranges of their machine
  -- integers, and then written to is opened again from its file as it was: under the same
  -- identifiers and the same integrity algorithm, with the next record going to the end of the
  -- file.
  pub open_existing-append_batch :
      (cs : List WriteAheadLogRecord) (d : Durability)
      → bytes file ≡ []
      → IsInRange first_header
      → open_existing B H (append_batch B H fresh cs d).1.file
        ≡ some (ok (append_batch B H fresh cs d).1)
  unfolding append_batch create new_header sealed
  open_existing-append_batch cs d empty i =
      let (e, h) = create-IsOpen empty in
      let t = (append_all B H fresh zero_lsn cs).1 in
      let log = log_bytes B H integrity cs in
      let (es, hs, _, _) = append_all-IsOpen B H cs fresh zero_lsn h in
      let whole : bytes t.file ≡ [] ++ (header_bytes ++ log) = es ∙ ap (λ b. b ++ log) e in
      let found : read_at_offset t.file 0 header_size ≡ some header_bytes =
        read_at_offset_chunk t.file 0 header_size [] header_bytes log whole refl
          (sym length-header_bytes) in
      let header = decode-encode B H first_header (replicate header_size 0) i refl in
      let opened = open_existing_found B H t.file header_bytes found length-header_bytes in
      let decoded = open_decoded_found B H t.file header_bytes _ header in
      let same : _ ≡ t = append_all_same B H cs fresh zero_lsn in
      ap (λ s. open_existing B H s.file) (settle_lem B H d t)
      ∙ opened
      ∙ ap some decoded
      ∙ ap (λ n. some (ok (record fresh { file = t.file; write_offset = n }))) (sym hs)
      ∙ ap (λ s. some (ok s)) (same ∙ sym (settle_lem B H d t))
