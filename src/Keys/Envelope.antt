-- ===== src/Keys/Envelope.antt =====
-- apps/bot-engine/app/security/keys.py: an envelope opens to what was sealed in it.
use xbottrader.Keys.{Cryptography, envelope_from_dict, open_text, decrypt, encrypt, dump_envelope}
use xbottrader.Strategy.Value.{Coercions}
use xbottrader.Prelude.{ok, ◌>>=◌, bind-returns, String, ◌≡◌, ◌∙◌}

-- What is encoded decodes, and what is sealed with a key and a nonce opens with them.
pub record IsInvertible {B : Type 0} (lib : Cryptography B) : Type 0 where
  pub b64_back : (bytes : B) → lib.b64decode (lib.b64encode bytes) ≡ ok bytes
  pub opens : (key iv body : B) → lib.open_sealed key iv (lib.seal key iv body) ≡ ok body
  pub decodes : (s : String) → lib.decode (lib.encode s) ≡ ok s

module _ {B : Type 0} (lib : Cryptography B) (laws : IsInvertible lib) where
  opens-text :
      (key iv body : B)
      → open_text lib key (lib.b64encode iv) (lib.b64encode (lib.seal key iv body)) ≡ ok body
  opens-text key iv body =
      rw (laws.b64_back iv) (rw (laws.b64_back (lib.seal key iv body)) (laws.opens key iv body))

  -- An envelope that has been sealed, dumped as a dict and read again is opened, under the same key, to the
  -- text that was sealed in it, whatever data key and nonces were drawn.
  pub decrypt-encrypt :
      {D : Type 0} (py : Coercions D) (kek dek dek_iv data_iv : B) (plaintext : String)
      → (envelope_from_dict py (dump_envelope (encrypt lib kek dek dek_iv data_iv plaintext))
          >>= decrypt lib kek)
        ≡ ok plaintext
  unfolding envelope_from_dict decrypt encrypt
  decrypt-encrypt py kek dek dek_iv data_iv plaintext =
      bind-returns
        (open_text lib kek (lib.b64encode dek_iv) (lib.b64encode (lib.seal kek dek_iv dek)))
        (λ key.
          open_text lib key (lib.b64encode data_iv)
            (lib.b64encode (lib.seal dek data_iv (lib.encode plaintext)))
          >>= lib.decode)
        dek (opens-text kek dek_iv dek)
      ∙ bind-returns
          (open_text lib dek (lib.b64encode data_iv)
            (lib.b64encode (lib.seal dek data_iv (lib.encode plaintext))))
          lib.decode (lib.encode plaintext) (opens-text dek data_iv (lib.encode plaintext))
      ∙ laws.decodes plaintext
