-- ===== src/Util/Encryption.antt =====
-- `EncryptionAlgorithm` of nanograph-util/src/encryption.rs: the byte that names it.
use nanograph.Prelude.{ℕ, ◌≡◌, refl, Option, none, some, ◌==◌, if◌then◌else◌}

pub data EncryptionAlgorithm : Type 0 where
  no_encryption : EncryptionAlgorithm
  aes256_gcm : EncryptionAlgorithm
  cha_cha20_poly1305 : EncryptionAlgorithm

unfoldable pub as_u8 : EncryptionAlgorithm → ℕ
as_u8 no_encryption = 0
as_u8 aes256_gcm = 1
as_u8 cha_cha20_poly1305 = 2

unfoldable pub from_u8 : ℕ → Option EncryptionAlgorithm
from_u8 v =
    if v == 0
    then some no_encryption
    else if v == 1
    then some aes256_gcm
    else if v == 2
    then some cha_cha20_poly1305
    else none

pub from_u8-as_u8 : (a : EncryptionAlgorithm) → from_u8 (as_u8 a) ≡ some a
unfolding from_u8 as_u8
from_u8-as_u8 no_encryption = refl
from_u8-as_u8 aes256_gcm = refl
from_u8-as_u8 cha_cha20_poly1305 = refl
