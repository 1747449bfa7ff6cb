-- ===== src/Wal/Log/Records.antt =====
-- One record under the reader of nanograph-wal/src/reader.rs: whole, and torn by a crash.
use nanograph.Prelude.{
  ◌+◌, ◌%◌, ◌^◌, ◌≤◌, ◌<◌, ◌≡◌, refl, sym, ◌∙◌, ap, some, ok, List, [], ◌∷◌, ◌++◌, false, not, ltb,
  leb, ◌==◌, ==_iff, and_false, length, take, drop, slice, arith, length-append, length-take,
  take-append-drop,
}
use nanograph.Prelude.Slices.{take-append_at}
use mathlib.Core.List.{append_assoc, append-nil}
use nanograph.Bytes.{Bytes}
use nanograph.Bytes.Chunks.{concat, slice-chunk, HasWidths, length-concat}
use nanograph.Util.Integrity.{Hashes, IntegrityAlgorithm}
use nanograph.Vfs.MemoryFile.{MemoryFile, bytes, read_at_offset, get_size}
use nanograph.Vfs.MemoryFile.Contents.{read_at_offset_chunk}
use nanograph.Wal.Header.{ByteOrder, checksum_of, checksum_of_bound, is_checked}
use nanograph.Wal.Segment.{WriteAheadLogRecord, record_magic, record_body, record_bytes}
use nanograph.Wal.Reader.{WriteAheadLogReader, at, next, read_rest, finish}

-- The kind is a u16 and the length of the payload a u32.
pub record IsInRange (r : WriteAheadLogRecord) : Type 0 where
  pub kind_u16 : r.kind < 2 ^ 16
  pub length_u32 : length r.payload < 2 ^ 32

module _ (B : ByteOrder) (H : Hashes) (a : IntegrityAlgorithm) (r : WriteAheadLogRecord) where
  -- The ten bytes before the payload, and the four behind it.
  abbrev pub head_chunks : List Bytes
  head_chunks =
      B.write 4 record_magic ∷ B.write 2 r.kind ∷ B.write 4 (length r.payload % 2 ^ 32) ∷ []

  abbrev pub head : Bytes
  head = concat head_chunks

  abbrev pub tail : Bytes
  tail = B.write 4 (checksum_of H a (record_body B r))

  head-HasWidths : HasWidths head_chunks (4 ∷ 2 ∷ 4 ∷ [])
  unfolding HasWidths
  head-HasWidths = (B.length-write 4 _, (B.length-write 2 _, (B.length-write 4 _, _)))

  pub length-head : length head ≡ 10
  length-head = length-concat head_chunks (4 ∷ 2 ∷ 4 ∷ []) head-HasWidths

  pub body-head : record_body B r ≡ head ++ r.payload
  unfolding record_body
  body-head =
      let k = B.write 2 r.kind in
      let l = B.write 4 (length r.payload % 2 ^ 32) in
      rw (
        append-nil l,
        append_assoc (B.write 4 record_magic) (k ++ l) r.payload,
        append_assoc k l r.payload,
      )

  pub record_bytes-parts : record_bytes B H a r ≡ head ++ (r.payload ++ tail)
  unfolding record_bytes
  record_bytes-parts = ap (λ b. b ++ tail) body-head ∙ append_assoc head r.payload tail

  pub length-record_bytes : length (record_bytes B H a r) ≡ 10 + length r.payload + 4
  length-record_bytes = rw record_bytes-parts (
      omega (
        arith,
        length-head,
        length-append head (r.payload ++ tail),
        length-append r.payload tail,
        B.length-write 4 (checksum_of H a (record_body B r)),
      ))

  pub magic_field : B.read (slice 0 4 head) ≡ record_magic
  magic_field =
      rw (slice-chunk 0 head_chunks _ head-HasWidths _ refl) (B.read-write 4 _ (omega arith))

  pub kind_field : IsInRange r → B.read (slice 4 6 head) ≡ r.kind
  kind_field h =
      rw (slice-chunk 1 head_chunks _ head-HasWidths _ refl)
        (B.read-write 2 _ (omega (arith, h.kind_u16)))

  pub len_field : IsInRange r → B.read (slice 6 10 head) ≡ length r.payload
  len_field h =
      rw (slice-chunk 2 head_chunks _ head-HasWidths _ refl)
        (B.read-write 4 _ (omega arith) ∙ omega (arith, h.length_u32))

module _ (B : ByteOrder) (H : Hashes) (a : IntegrityAlgorithm) (c : WriteAheadLogRecord) where
  -- Where the file goes on with the head of a record, `next` goes on to read the record.
  pub next-head :
      (r : WriteAheadLogReader) (f : MemoryFile) (before rest : Bytes)
      → bytes f ≡ before ++ rest
      → r.offset ≡ length before
      → 10 ≤ length rest
      → take 10 rest ≡ head B H a c
      → next B H r f ≡ read_rest B H r f (head B H a c)
  unfolding next get_size
  next-head r f before rest e l m t =
      let size : length (bytes f) ≡ length before + length rest =
        rw e (length-append before rest) in
      let split : bytes f ≡ before ++ (take 10 rest ++ drop 10 rest) =
        e ∙ ap (λ b. before ++ b) (sym (take-append-drop 10 rest)) in
      let n : 10 ≡ length (take 10 rest) = omega (arith, length-take 10 rest) in
      let found =
        read_at_offset_chunk f r.offset 10 before (take 10 rest) (drop 10 rest) split l n in
      let started : leb (length (bytes f)) r.offset ≡ false = ground arith in
      let full : ltb (length (head B H a c)) 10 ≡ false = rw (length-head B H a c) refl in
      let magic : not (B.read (slice 0 4 (head B H a c)) == record_magic) ≡ false =
        rw (magic_field B H a c) refl in
      rw (started, found, t, full, magic)

  finish-tail :
      (r : WriteAheadLogReader)
      → IsInRange c
      → r.integrity ≡ a
      → finish B H r (head B H a c) (length c.payload) c.payload (tail B H a c)
        ≡ some (
          ok (some (record { lsn = at r; kind = c.kind; payload = c.payload })),
          record r { offset = r.offset + (10 + length c.payload + 4) },
        )
  unfolding finish
  finish-tail r i same =
      let sum = checksum_of H a (record_body B c) in
      let read_sum : B.read (tail B H a c) ≡ sum =
        B.read-write 4 sum (omega (arith, checksum_of_bound H a (record_body B c))) in
      let sure : not (sum == sum) ≡ false = rw ((==_iff sum sum).1 refl) in
      rw (same, read_sum, ← body-head B H a c, sure, and_false (is_checked a), kind_field B H a c i)

  -- A reader that stands at a record, wherever the record is in the file and whatever comes before
  -- and after it, returns the record's kind and payload at its own position and then stands right
  -- behind the record.
  pub next-record_bytes :
      (r : WriteAheadLogReader) (f : MemoryFile) (before after : Bytes)
      → IsInRange c
      → r.integrity ≡ a
      → bytes f ≡ before ++ (record_bytes B H a c ++ after)
      → r.offset ≡ length before
      → next B H r f
        ≡ some (
          ok (some (record { lsn = at r; kind = c.kind; payload = c.payload })),
          record r { offset = r.offset + length (record_bytes B H a c) },
        )
  unfolding read_rest finish
  next-record_bytes r f before after i same e l =
      let h = head B H a c in
      let t = tail B H a c in
      let len = length c.payload in
      let behind = c.payload ++ (t ++ after) in
      let parts : record_bytes B H a c ++ after ≡ h ++ behind =
        ap (λ b. b ++ after) (record_bytes-parts B H a c)
        ∙ append_assoc h (c.payload ++ t) after
        ∙ ap (λ b. h ++ b) (append_assoc c.payload t after) in
      let whole : bytes f ≡ before ++ (h ++ behind) = e ∙ ap (λ b. before ++ b) parts in
      let past_head : bytes f ≡ (before ++ h) ++ behind =
        whole ∙ sym (append_assoc before h behind) in
      let past_payload : bytes f ≡ ((before ++ h) ++ c.payload) ++ (t ++ after) =
        past_head ∙ sym (append_assoc (before ++ h) c.payload (t ++ after)) in
      let ten = length-head B H a c in
      let sum_head = length-append before h in
      let started =
        next-head r f before (h ++ behind) whole l (omega (arith, length-append h behind, ten))
          (take-append_at 10 h behind (sym ten)) in
      let found : read_at_offset f (r.offset + 10) len ≡ some c.payload =
        read_at_offset_chunk f _ len (before ++ h) c.payload (t ++ after) past_head (omega arith)
          refl in
      let four : length t ≡ 4 = B.length-write 4 _ in
      let sealed : read_at_offset f (r.offset + 10 + len) 4 ≡ some t =
        read_at_offset_chunk f _ 4 ((before ++ h) ++ c.payload) t after past_payload
          (omega (arith, length-append (before ++ h) c.payload)) (sym four) in
      let full : ltb len len ≡ false = ground arith in
      rw (started, len_field B H a c i, found, full, sealed, four, length-record_bytes B H a c)
        (finish-tail r i same)
