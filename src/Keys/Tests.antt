-- ===== src/Keys/Tests.antt =====
-- An envelope with texts as bytes and a cipher that hides nothing.
use xbottrader.Keys.Envelope.{IsInvertible, decrypt-encrypt}
use xbottrader.Keys.{
  Cryptography, envelope_from_dict, envelope_cipher, decrypt, encrypt, dump_envelope,
}
use xbottrader.Prelude.{value_error, raised, ok, ◌>>=◌, String, ◌≡◌, refl}
use Prim.Native.String.{count}
use xbottrader.Config.Fixtures.{py}

abbrev open_book : Cryptography String
open_book = record {
  b64decode = λ s. ok s;
  b64encode = λ s. s;
  size = count;
  seal = λ key iv body. body;
  open_sealed = λ key iv body. ok body;
  encode = λ s. s;
  decode = λ s. ok s;
}

open_book-IsInvertible : IsInvertible open_book
open_book-IsInvertible = record {
  b64_back = λ bytes. refl;
  opens = λ key iv body. refl;
  decodes = λ s. refl;
}

decrypt-encrypt_example :
    (envelope_from_dict py (dump_envelope (encrypt open_book "kek" "dek" "iv1" "iv2" "secret"))
      >>= decrypt open_book "kek")
    ≡ ok "secret"
decrypt-encrypt_example =
    decrypt-encrypt open_book open_book-IsInvertible py "kek" "dek" "iv1" "iv2" "secret"

short_key : envelope_cipher open_book "kek" ≡ raised (value_error "KEK must be 32 bytes")
unfolding envelope_cipher
short_key = refl
