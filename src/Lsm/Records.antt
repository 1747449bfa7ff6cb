-- ===== src/Lsm/Records.antt =====
-- The payloads of nanograph-lsm/src/wal_record.rs. An index or slice beyond the payload is a
-- panic, which is `none`. Timestamps, i64 in the source, are given by their two's complement.
pub mod Fields
pub mod RoundTrip
pub mod Markers
pub mod Total
pub mod Logged
use nanograph.Prelude.{
  ℕ, ◌+◌, ◌-◌, ◌%◌, ◌^◌, Option, none, some, Result, ok, err, List, [], ◌∷◌, ◌++◌, Bool, ltb, ◌==◌,
  length, slice, if◌then◌else◌,
}
use nanograph.Prelude.Options.{◌>>=◌}
use nanograph.Bytes.{Bytes}
use nanograph.Bytes.Endian.{to_le_bytes, from_le_bytes}

pub data WalRecordKind : Type 0 where
  put : WalRecordKind
  delete : WalRecordKind
  put_committed : WalRecordKind
  delete_committed : WalRecordKind
  commit : WalRecordKind
  checkpoint : WalRecordKind
  flush_complete : WalRecordKind

unfoldable pub to_u16 : WalRecordKind → ℕ
to_u16 put = 1
to_u16 delete = 2
to_u16 put_committed = 3
to_u16 delete_committed = 4
to_u16 commit = 5
to_u16 checkpoint = 6
to_u16 flush_complete = 7

unfoldable pub from_u16 : ℕ → Option WalRecordKind
from_u16 v =
    if v == 1
    then some put
    else if v == 2
    then some delete
    else if v == 3
    then some put_committed
    else if v == 4
    then some delete_committed
    else if v == 5
    then some commit
    else if v == 6
    then some checkpoint
    else if v == 7
    then some flush_complete
    else none

pub data KeyValueError : Type 0 where
  storage_corruption : KeyValueError

-- `&payload[off..off + n]`
unfoldable pub get_slice : Bytes → ℕ → ℕ → Option Bytes
get_slice b off n = if ltb (length b) (off + n) then none else some (slice off (off + n) b)

-- `from_le_bytes([payload[off], ..., payload[off + w - 1]])`
unfoldable pub get_le : Bytes → ℕ → ℕ → Option ℕ
unfolding get_slice
get_le b off w = get_slice b off w >>= λ s. some (from_le_bytes s)

-- `(b.len() as u32).to_le_bytes()`
unfoldable pub length_bytes : Bytes → Bytes
length_bytes b = to_le_bytes 4 (length b % 2 ^ 32)

unfoldable pub encode_put : Bytes → Bytes → Bytes
encode_put key value = length_bytes key ++ (key ++ (length_bytes value ++ (value ++ [])))

abbrev corrupt : {A : Type 0} → Option (Result A KeyValueError)
corrupt = some (err storage_corruption)

unfoldable pub decode_put : Bytes → Option (Result (Bytes × Bytes) KeyValueError)
decode_put payload =
    if ltb (length payload) 8
    then corrupt
    else get_le payload 0 4 >>= λ key_len.
        if ltb (length payload) (4 + key_len)
        then corrupt
        else get_slice payload 4 key_len >>= λ key.
            if ltb (length payload) (4 + key_len + 4)
            then corrupt
            else get_le payload (4 + key_len) 4 >>= λ value_len.
                if ltb (length payload) (4 + key_len + 4 + value_len)
                then corrupt
                else get_slice payload (4 + key_len + 4) value_len >>= λ value.
                    some (ok (key, value))

unfoldable pub encode_delete : Bytes → Bytes
encode_delete key = length_bytes key ++ (key ++ [])

unfoldable pub decode_delete : Bytes → Option (Result Bytes KeyValueError)
decode_delete payload =
    if ltb (length payload) 4
    then corrupt
    else get_le payload 0 4 >>= λ key_len.
        if ltb (length payload) (4 + key_len)
        then corrupt
        else get_slice payload 4 key_len >>= λ key. some (ok key)

unfoldable pub encode_put_committed : Bytes → Bytes → ℕ → Bytes
encode_put_committed key value commit_ts =
    length_bytes key ++ (key ++ (length_bytes value ++ (value ++ (to_le_bytes 8 commit_ts ++ []))))

unfoldable pub decode_put_committed : Bytes → Option (Result (Bytes × Bytes × ℕ) KeyValueError)
decode_put_committed payload =
    if ltb (length payload) 16
    then corrupt
    else get_le payload 0 4 >>= λ key_len.
        if ltb (length payload) (4 + key_len)
        then corrupt
        else get_slice payload 4 key_len >>= λ key.
            if ltb (length payload) (4 + key_len + 4)
            then corrupt
            else get_le payload (4 + key_len) 4 >>= λ value_len.
                if ltb (length payload) (4 + key_len + 4 + value_len + 8)
                then corrupt
                else get_slice payload (4 + key_len + 4) value_len >>= λ value.
                    get_le payload (4 + key_len + 4 + value_len) 8 >>= λ commit_ts.
                    some (ok (key, value, commit_ts))

unfoldable pub encode_delete_committed : Bytes → ℕ → Bytes
encode_delete_committed key commit_ts = length_bytes key ++ (key ++ (to_le_bytes 8 commit_ts ++ []))

unfoldable pub decode_delete_committed : Bytes → Option (Result (Bytes × ℕ) KeyValueError)
decode_delete_committed payload =
    if ltb (length payload) 12
    then corrupt
    else get_le payload 0 4 >>= λ key_len.
        if ltb (length payload) (4 + key_len + 8)
        then corrupt
        else get_slice payload 4 key_len >>= λ key.
            get_le payload (4 + key_len) 8 >>= λ commit_ts. some (ok (key, commit_ts))

unfoldable pub encode_commit : ℕ → Bytes
encode_commit commit_ts = to_le_bytes 8 commit_ts ++ []

unfoldable pub decode_commit : Bytes → Option (Result ℕ KeyValueError)
decode_commit payload =
    if ltb (length payload) 8
    then corrupt
    else get_le payload 0 8 >>= λ commit_ts. some (ok commit_ts)

unfoldable pub encode_checkpoint : ℕ → ℕ → Bytes
encode_checkpoint sequence file_number = to_le_bytes 8 sequence ++ (to_le_bytes 8 file_number ++ [])

unfoldable pub decode_checkpoint : Bytes → Option (Result (ℕ × ℕ) KeyValueError)
decode_checkpoint payload =
    if ltb (length payload) 16
    then corrupt
    else get_le payload 0 8 >>= λ sequence.
        get_le payload 8 8 >>= λ file_number. some (ok (sequence, file_number))

unfoldable pub encode_flush_complete : ℕ → ℕ → Bytes
encode_flush_complete file_number level = to_le_bytes 8 file_number ++ (to_le_bytes 4 level ++ [])

unfoldable pub decode_flush_complete : Bytes → Option (Result (ℕ × ℕ) KeyValueError)
decode_flush_complete payload =
    if ltb (length payload) 12
    then corrupt
    else get_le payload 0 8 >>= λ file_number.
        get_le payload 8 4 >>= λ level. some (ok (file_number, level))
