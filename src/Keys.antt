-- ===== src/Keys.antt =====
-- apps/bot-engine/app/security/keys.py: the envelope of an exchange's API key. AES-GCM, base64 and UTF-8 are
-- parameters, and so is what `generate_key` and `urandom` return. `B` is the type of bytes.
pub mod Envelope
mod Tests
use xbottrader.Strategy.Value.{
  text, number, Fields, end, field, Coercions, get_item, to_str, to_int,
}
use xbottrader.Prelude.{◌==◌, value_error, Result, ok, raise_if, ◌>>=◌, ◌>>◌, ℕ, String, not}

pub record EncryptedEnvelope : Type 0 where
  pub v : ℕ
  pub dek_iv : String
  pub dek_ct : String
  pub data_iv : String
  pub data_ct : String

pub record Cryptography (B : Type 0) : Type 0 where
  pub b64decode : String → Result B
  pub b64encode : B → String
  pub size : B → ℕ
  -- `AESGCM(key).encrypt(iv, data, None)` and `AESGCM(key).decrypt(iv, data, None)`
  pub seal : B → B → B → B
  pub open_sealed : B → B → B → Result B
  pub encode : String → B
  pub decode : B → Result String

-- `EncryptedEnvelope.from_dict`
unfoldable pub envelope_from_dict : {D : Type 0} → Coercions D → Fields D → Result EncryptedEnvelope
envelope_from_dict py d = do
  version ← get_item "v" d
  v ← to_int py version
  dek_iv ← get_item "dek_iv" d
  dek_ct ← get_item "dek_ct" d
  data_iv ← get_item "data_iv" d
  data_ct ← get_item "data_ct" d
  ok (record {
    v = v;
    dek_iv = to_str py dek_iv;
    dek_ct = to_str py dek_ct;
    data_iv = to_str py data_iv;
    data_ct = to_str py data_ct;
  })

module _ {B : Type 0} (lib : Cryptography B) where
  -- `EnvelopeCipher.__init__`, which returns `_kek`
  unfoldable pub envelope_cipher : String → Result B
  envelope_cipher kek_base64 = do
    kek ← lib.b64decode kek_base64
    raise_if (not (lib.size kek == 32)) (value_error "KEK must be 32 bytes")
    ok kek

  -- `AESGCM(key).decrypt(base64.b64decode(iv), base64.b64decode(ct), None)`
  abbrev pub open_text : B → String → String → Result B
  open_text key iv ct = do
    iv_bytes ← lib.b64decode iv
    ct_bytes ← lib.b64decode ct
    lib.open_sealed key iv_bytes ct_bytes

  -- `decrypt`
  unfoldable pub decrypt : B → EncryptedEnvelope → Result String
  decrypt kek env = do
    raise_if (not (env.v == 1)) (value_error "Unsupported envelope version")
    dek ← open_text kek env.dek_iv env.dek_ct
    plaintext ← open_text dek env.data_iv env.data_ct
    lib.decode plaintext

  -- `encrypt`, with the data key and the two nonces that it draws
  unfoldable pub encrypt : B → B → B → B → String → EncryptedEnvelope
  encrypt kek dek dek_iv data_iv plaintext = record {
    v = 1;
    dek_iv = lib.b64encode dek_iv;
    dek_ct = lib.b64encode (lib.seal kek dek_iv dek);
    data_iv = lib.b64encode data_iv;
    data_ct = lib.b64encode (lib.seal dek data_iv (lib.encode plaintext));
  }

-- the dict of an envelope
abbrev pub dump_envelope : {D : Type 0} → EncryptedEnvelope → Fields D
dump_envelope env = field "v" (number env.v) (
    field "dek_iv" (text env.dek_iv) (
      field "dek_ct" (text env.dek_ct)
        (field "data_iv" (text env.data_iv) (field "data_ct" (text env.data_ct) end))))
