-- ===== src/Wal/Header/RoundTrip.antt =====
-- Segment headers of nanograph-wal/src/walfile.rs, written and read back.
use nanograph.Prelude.{
  ℕ, ◌<◌, ◌^◌, ◌≡◌, refl, ap, sym, ◌∙◌, some, ok, false, not, ◌==◌, ==_iff, and_false, List, [],
  ◌∷◌, length, get_elem?, slice, drop, subst, suc, ◌-◌, arith, take,
}
use nanograph.Prelude.Slices.{take-copy_at_before, get_elem?-slice}
use nanograph.Bytes.{Bytes}
use nanograph.Bytes.Chunks.{
  concat, sum, HasWidths, copy_all_filled, length-copy_all, slice-chunk, length-concat,
  take-HasWidths,
}
use nanograph.Util.Integrity.{Hashes}
use nanograph.Util.Integrity
use nanograph.Util.Compression
use nanograph.Util.Encryption
use nanograph.Wal.Lsn.{header_size}
use nanograph.Wal.Header.{
  ByteOrder, SegmentHeader, segment_magic, encode, encode_fields, decode, checksum_of,
  checksum_of_bound, is_checked, byte_at,
}

-- Every field lies in the range of its machine integer.
pub record IsInRange (h : SegmentHeader) : Type 0 where
  pub version_u16 : h.version < 2 ^ 16
  pub shard_id_u128 : h.shard_id < 2 ^ 128
  pub segment_id_u64 : h.segment_id < 2 ^ 64
  pub start_offset_u64 : h.start_offset < 2 ^ 64
  pub created_at_u64 : h.created_at_unix_ms < 2 ^ 64
  pub encryption_key_id_u128 : h.encryption_key_id < 2 ^ 128

module _ (B : ByteOrder) (H : Hashes) (h : SegmentHeader) (buffer : Bytes) where
  abbrev widths : List ℕ
  widths = 4 ∷ 2 ∷ 16 ∷ 8 ∷ 8 ∷ 8 ∷ 1 ∷ 1 ∷ 1 ∷ 16 ∷ 4 ∷ []

  abbrev chunks : List Bytes
  chunks =
      B.write 4 segment_magic
      ∷ B.write 2 h.version
      ∷ B.write 16 h.shard_id
      ∷ B.write 8 h.segment_id
      ∷ B.write 8 h.start_offset
      ∷ B.write 8 h.created_at_unix_ms
      ∷ (Integrity.as_u8 h.integrity ∷ [])
      ∷ (Compression.as_u8 h.compression ∷ [])
      ∷ (Encryption.as_u8 h.encryption ∷ [])
      ∷ B.write 16 h.encryption_key_id
      ∷ B.write 4 (checksum_of H h.integrity (slice 0x00 0x31 (encode_fields B h buffer)))
      ∷ []

  chunks-HasWidths : HasWidths chunks widths
  unfolding HasWidths
  chunks-HasWidths = (
    B.length-write 4 _,
    (
      B.length-write 2 _,
      (
        B.length-write 16 _,
        (
          B.length-write 8 _,
          (
            B.length-write 8 _,
            (
              B.length-write 8 _,
              (refl, (refl, (refl, (B.length-write 16 _, (B.length-write 4 _, _))))),
            ),
          ),
        ),
      ),
    ),
  )

  encode-chunks : length buffer ≡ header_size → encode B H h buffer ≡ concat chunks
  unfolding encode encode_fields
  encode-chunks l = copy_all_filled widths chunks buffer chunks-HasWidths (sym l)

byte_at_found : (i : ℕ) (b : Bytes) (v : ℕ) → get_elem? b i ≡ some v → byte_at b i ≡ v
byte_at_found i b v e = rw (byte_at, e)

module _ (B : ByteOrder) (H : Hashes) (h : SegmentHeader) (buffer : Bytes) where
  pub encode_magic :
      length buffer ≡ header_size → slice 0 4 (encode B H h buffer) ≡ B.write 4 segment_magic
  encode_magic l =
      rw (encode-chunks B H h buffer l)
        (slice-chunk 0 _ _ (chunks-HasWidths B H h buffer) (B.write 4 segment_magic) refl)

  pub length-encode : length buffer ≡ header_size → length (encode B H h buffer) ≡ header_size
  length-encode l =
      rw (encode-chunks B H h buffer l) (length-concat _ _ (chunks-HasWidths B H h buffer))

  take-encode :
      length buffer ≡ header_size
      → take 0x31 (encode B H h buffer) ≡ take 0x31 (encode_fields B h buffer)
  unfolding encode encode_fields
  take-encode l =
      let ws = take 10 (widths B H h buffer) in
      let cs = take 10 (chunks B H h buffer) in
      let ok_widths = take-HasWidths 10 _ _ (chunks-HasWidths B H h buffer) in
      let b = encode_fields B h buffer in
      let full : length b ≡ length buffer =
        length-copy_all 0 ws cs buffer ok_widths (omega arith) in
      take-copy_at_before 0x31 0x41 (B.write 4 (checksum_of H h.integrity (slice 0x00 0x31 b))) b
        (omega arith) (omega arith)

  -- What is read from the place of a number, and from that of a byte.
  read_field :
      (i w v : ℕ)
      → get_elem? (chunks B H h buffer) i ≡ some (B.write w v)
      → v < 256 ^ w
      → B.read (
          slice
            (sum (take i (widths B H h buffer)))
            (sum (take (suc i) (widths B H h buffer)))
            (concat (chunks B H h buffer)))
        ≡ v
  read_field i w v e l =
      rw (slice-chunk i _ _ (chunks-HasWidths B H h buffer) (B.write w v) e) (B.read-write w v l)

  byte_field :
      (i v : ℕ)
      → get_elem? (chunks B H h buffer) i ≡ some (v ∷ [])
      → sum (take (suc i) (widths B H h buffer)) ≡ suc (sum (take i (widths B H h buffer)))
      → byte_at (concat (chunks B H h buffer)) (sum (take i (widths B H h buffer))) ≡ v
  byte_field i v e l =
      let start = sum (take i (widths B H h buffer)) in
      let one : suc start - start ≡ 1 = omega arith in
      byte_at_found start _ v (
        get_elem?-slice start _ v (
          subst (λ n. take n (drop start (concat (chunks B H h buffer))) ≡ v ∷ []) one
            (subst (λ n. slice start n (concat (chunks B H h buffer)) ≡ v ∷ []) l
              (slice-chunk i _ _ (chunks-HasWidths B H h buffer) (v ∷ []) e))))

-- What `decode` returns is put together from what it reads.
decode_fields :
    (B : ByteOrder) (H : Hashes) (h : SegmentHeader) (b : Bytes)
    → length b ≡ header_size
    → B.read (slice 0 4 b) ≡ segment_magic
    → B.read (slice 0x04 0x06 b) ≡ h.version
    → B.read (slice 0x06 0x16 b) ≡ h.shard_id
    → B.read (slice 0x16 0x1E b) ≡ h.segment_id
    → B.read (slice 0x1E 0x26 b) ≡ h.start_offset
    → B.read (slice 0x26 0x2E b) ≡ h.created_at_unix_ms
    → Integrity.from_u8 (byte_at b 0x2E) ≡ some h.integrity
    → Compression.from_u8 (byte_at b 0x2F) ≡ some h.compression
    → Encryption.from_u8 (byte_at b 0x30) ≡ some h.encryption
    → B.read (slice 0x31 0x41 b) ≡ h.encryption_key_id
    → B.read (slice 0x41 0x45 b) ≡ h.checksum
    → checksum_of H h.integrity (slice 0x00 0x31 b) ≡ h.checksum
    → decode B H b ≡ ok h
unfolding decode
decode_fields B H h b l m v s i o t a c e k x y =
    let sure : not (h.checksum == h.checksum) ≡ false =
      rw ((==_iff h.checksum h.checksum).1 refl) in
    rw (l, m, a, c, e, x, y, sure, v, s, i, o, t, k, and_false (is_checked h.integrity))

-- The header that is in the segment after `encode`: the caller's, with the checksum of the bytes
-- from the magic number to the encryption algorithm.
unfoldable pub sealed : ByteOrder → Hashes → SegmentHeader → Bytes → SegmentHeader
sealed B H h buffer = record h {
  checksum = checksum_of H h.integrity (slice 0x00 0x31 (encode_fields B h buffer));
}

-- A header whose fields lie in the ranges of their machine integers, encoded into a buffer of 69
-- bytes, is decoded as the same header with the checksum that was computed for it.
pub decode-encode :
    (B : ByteOrder) (H : Hashes) (h : SegmentHeader) (buffer : Bytes)
    → IsInRange h
    → length buffer ≡ header_size
    → decode B H (encode B H h buffer) ≡ ok (sealed B H h buffer)
unfolding sealed
decode-encode B H h buffer r l =
    let b = concat (chunks B H h buffer) in
    let field = read_field B H h buffer in
    let byte = byte_field B H h buffer in
    let e = encode-chunks B H h buffer l in
    rw e (
      decode_fields B H (sealed B H h buffer) b (length-concat _ _ (chunks-HasWidths B H h buffer))
        (field 0 4 _ refl (omega arith)) (field 1 2 _ refl (omega (arith, r.version_u16)))
        (field 2 16 _ refl (omega (arith, r.shard_id_u128)))
        (field 3 8 _ refl (omega (arith, r.segment_id_u64)))
        (field 4 8 _ refl (omega (arith, r.start_offset_u64)))
        (field 5 8 _ refl (omega (arith, r.created_at_u64)))
        (ap Integrity.from_u8 (byte 6 _ refl refl) ∙ Integrity.from_u8-as_u8 h.integrity)
        (ap Compression.from_u8 (byte 7 _ refl refl) ∙ Compression.from_u8-as_u8 h.compression)
        (ap Encryption.from_u8 (byte 8 _ refl refl) ∙ Encryption.from_u8-as_u8 h.encryption)
        (field 9 16 _ refl (omega (arith, r.encryption_key_id_u128)))
        (field 10 4 _ refl (
          omega
            (arith, checksum_of_bound H h.integrity (slice 0x00 0x31 (encode_fields B h buffer)))))
        (ap (checksum_of H h.integrity) (ap (take 0x31) (sym e) ∙ take-encode B H h buffer l)))
