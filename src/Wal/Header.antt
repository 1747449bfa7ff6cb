-- ===== src/Wal/Header.antt =====
-- `WriteAheadLogSegmentHeader` of nanograph-wal/src/walfile.rs: the header at the beginning of a
-- segment, written into a buffer and read from one.
pub mod RoundTrip
use nanograph.Prelude.{
  ℕ, ◌<◌, ◌^◌, ◌≡◌, Option, none, some, arith, Result, ok, err, Bool, true, false, not, ◌&&◌, ◌==◌,
  ltb, [], ◌∷◌, length, get_elem?, slice, copy_at, if◌then◌else◌,
}
use nanograph.Bytes.{Bytes}
use nanograph.Util.Integrity.{
  Hashes, IntegrityAlgorithm, no_integrity, crc32c, xx_hash32, hash, as_u32,
}
use nanograph.Util.Compression.{CompressionAlgorithm}
use nanograph.Util.Encryption.{EncryptionAlgorithm}
use nanograph.Util.Integrity
use nanograph.Util.Compression
use nanograph.Util.Encryption
use nanograph.Wal.Lsn.{
  LogSequenceNumber, WriteAheadLogError, invalid_lsn, version_mismatch, checksum_mismatch,
  header_size,
}

-- The package `byteorder`: `write w v` are the `w` bytes that `BigEndian` writes for `v`, and
-- `read` is the number that it reads from a slice.
pub record ByteOrder : Type 0 where
  pub write : ℕ → ℕ → Bytes
  pub read : Bytes → ℕ
  pub length-write : (w v : ℕ) → length (write w v) ≡ w
  pub read-write : (w v : ℕ) → v < 256 ^ w → read (write w v) ≡ v

abbrev pub segment_magic : ℕ
segment_magic = 0x474e414e

pub record SegmentHeader : Type 0 where
  pub version : ℕ
  pub shard_id : ℕ
  pub segment_id : ℕ
  pub start_offset : ℕ
  pub created_at_unix_ms : ℕ
  pub integrity : IntegrityAlgorithm
  pub compression : CompressionAlgorithm
  pub encryption : EncryptionAlgorithm
  pub encryption_key_id : ℕ
  pub checksum : ℕ

unfoldable pub start_lsn : SegmentHeader → LogSequenceNumber
start_lsn h = record { segment_id = h.segment_id; offset = h.start_offset }

-- `integrity.hash(data).as_u32().unwrap_or(0)`
unfoldable pub checksum_of : Hashes → IntegrityAlgorithm → Bytes → ℕ
checksum_of H a d = elim (as_u32 (hash H a d)) [ none ↦ 0 | some v ↦ v ]

-- A checksum is a u32.
pub checksum_of_bound :
    (H : Hashes) (a : IntegrityAlgorithm) (d : Bytes) → checksum_of H a d < 2 ^ 32
unfolding checksum_of hash as_u32
checksum_of_bound H no_integrity d = omega arith
checksum_of_bound H crc32c d = H.crc32_bound d
checksum_of_bound H xx_hash32 d = H.xxh32_bound d

-- The fields before the checksum, in a buffer of at least 69 bytes.
unfoldable pub encode_fields : ByteOrder → SegmentHeader → Bytes → Bytes
encode_fields B h buffer =
    let b1 = copy_at 0x00 (B.write 4 segment_magic) buffer in
    let b2 = copy_at 0x04 (B.write 2 h.version) b1 in
    let b3 = copy_at 0x06 (B.write 16 h.shard_id) b2 in
    let b4 = copy_at 0x16 (B.write 8 h.segment_id) b3 in
    let b5 = copy_at 0x1E (B.write 8 h.start_offset) b4 in
    let b6 = copy_at 0x26 (B.write 8 h.created_at_unix_ms) b5 in
    let b7 = copy_at 0x2E (Integrity.as_u8 h.integrity ∷ []) b6 in
    let b8 = copy_at 0x2F (Compression.as_u8 h.compression ∷ []) b7 in
    let b9 = copy_at 0x30 (Encryption.as_u8 h.encryption ∷ []) b8 in
    copy_at 0x31 (B.write 16 h.encryption_key_id) b9

unfoldable pub encode : ByteOrder → Hashes → SegmentHeader → Bytes → Bytes
encode B H h buffer =
    let b = encode_fields B h buffer in
    copy_at 0x41 (B.write 4 (checksum_of H h.integrity (slice 0x00 0x31 b))) b

-- `integrity != IntegrityAlgorithm::None`
unfoldable pub is_checked : IntegrityAlgorithm → Bool
is_checked no_integrity = false
is_checked _ = true

-- `buffer[i]` for an index within the buffer.
abbrev pub byte_at : Bytes → ℕ → ℕ
byte_at b i = elim (get_elem? b i) [ none ↦ 0 | some v ↦ v ]

unfoldable pub decode : ByteOrder → Hashes → Bytes → Result SegmentHeader WriteAheadLogError
decode B H b =
    if ltb (length b) header_size
    then err invalid_lsn
    else if not (B.read (slice 0 4 b) == segment_magic)
    then err version_mismatch
    else elim (Integrity.from_u8 (byte_at b 0x2E)) [
      | none ↦ err version_mismatch
      | some integrity ↦ elim (Compression.from_u8 (byte_at b 0x2F)) [
        | none ↦ err version_mismatch
        | some compression ↦ elim (Encryption.from_u8 (byte_at b 0x30)) [
          | none ↦ err version_mismatch
          | some encryption ↦
              let read_checksum = B.read (slice 0x41 0x45 b) in
              if is_checked integrity
                && not (read_checksum == checksum_of H integrity (slice 0x00 0x31 b))
              then err checksum_mismatch
              else ok (record {
                version = B.read (slice 0x04 0x06 b);
                shard_id = B.read (slice 0x06 0x16 b);
                segment_id = B.read (slice 0x16 0x1E b);
                start_offset = B.read (slice 0x1E 0x26 b);
                created_at_unix_ms = B.read (slice 0x26 0x2E b);
                integrity = integrity;
                compression = compression;
                encryption = encryption;
                encryption_key_id = B.read (slice 0x31 0x41 b);
                checksum = read_checksum;
              })
        ]
      ]
    ]
