-- ===== src/Web/Transfer/Encrypted.antt =====
-- An encrypted export, picked as the file of an import and decrypted.
use passwd.Crypto.Platform.{Platform}
