-- ===== src/Tests/Signatures.antt =====
-- A signature and a hash that can be read back.
use Prim.Native.Char.{Char, code}
use dist_link.Base.{
  ℕ, ◌+◌, ◌<◌, String, ◌≡◌, refl, ap, false, Option, none, some, ◌==◌, eq_refl, eqb, if◌then◌else◌,
}
use dist_link.Auth.World.{Jwt, Bcrypt, Secret, access_secret, refresh_secret, Payload}

-- A text with its end marked, so that another can follow: a dot before each character.
unfoldable pub frame : String → String → String
frame String.[] rest = String.◌∷◌ ";" rest
frame (String.◌∷◌ c s) rest = String.◌∷◌ "." (String.◌∷◌ c (frame s rest))

unfoldable pub unframe : String → String × String
unframe String.[] = ("", "")
unframe (String.◌∷◌ m String.[]) = ("", "")
unframe (String.◌∷◌ m (String.◌∷◌ c s)) =
    let (t, rest) = unframe s in
    if eqb (code m) b'.' then (String.◌∷◌ c t, rest) else ("", String.◌∷◌ c s)

unframe_cons :
    (m : Char) (s : String) → eqb (code m) b'.' ≡ false → unframe (String.◌∷◌ m s) ≡ ("", s)
unfolding unframe
unframe_cons m String.[] h = refl
unframe_cons m (String.◌∷◌ c s) h = rw h

unframe_dot :
    (c : Char) (s rest : String)
    → unframe (frame s rest) ≡ (s, rest)
    → unframe (frame (String.◌∷◌ c s) rest) ≡ (String.◌∷◌ c s, rest)
unfolding frame unframe
unframe_dot c s rest ih = ap (λ (t : String × String). (String.◌∷◌ c t.0, t.1)) ih

pub unframe-frame : (s rest : String) → unframe (frame s rest) ≡ (s, rest)
unframe-frame String.[] rest = unfold frame in unframe_cons ";" rest refl
unframe-frame (String.◌∷◌ c s) rest = unframe_dot c s rest (unframe-frame s rest)

-- The signature: the key, the subject and the email in the clear, and good for ever.
unfoldable pub key_name : Secret → String
key_name access_secret = "access"
key_name refresh_secret = "refresh"

unfoldable pub email_text : Option String → String
unfolding frame
email_text none = ""
email_text (some e) = String.◌∷◌ "e" (frame e "")

unfoldable pub read_email : String → Option String
unfolding unframe
read_email String.[] = none
read_email (String.◌∷◌ m s) = some (unframe s).0

pub read_email-email_text : (e : Option String) → read_email (email_text e) ≡ e
read_email-email_text none = unfold read_email email_text in refl
read_email-email_text (some e) =
    let shown = unframe-frame e "" in
    unfold read_email email_text in ap (λ (t : String × String). some t.0) shown

unfoldable pub sign_plain : Secret → Payload → (issued life : ℕ) → String
unfolding frame key_name email_text
sign_plain s p issued life = frame (key_name s) (frame p.sub (email_text p.email))

abbrev pub read_payload : String × String → Payload
read_payload (sub, rest) = record { sub = sub; email = read_email rest }

unfoldable pub verify_plain : Secret → String → (now : ℕ) → Option Payload
unfolding unframe key_name read_email
verify_plain s token now =
    let (tag, rest) = unframe token in
    if tag == key_name s then some (read_payload (unframe rest)) else none

pub verify_plain-sign_plain :
    (s : Secret) (p : Payload) (issued life now : ℕ)
    → now < issued + life
    → verify_plain s (sign_plain s p issued life) now ≡ some p
verify_plain-sign_plain s p issued life now h =
    unfold verify_plain sign_plain in
    rw (
      unframe-frame (key_name s) (frame p.sub (email_text p.email)),
      eq_refl (key_name s),
      unframe-frame p.sub (email_text p.email),
      read_email-email_text p.email,
    )

abbrev pub plain_jwt : Jwt
plain_jwt = record {
  sign = sign_plain;
  verify = verify_plain;
  verify-sign = verify_plain-sign_plain;
}

-- A hash that is the password itself.
abbrev pub plain_bcrypt : Bcrypt
plain_bcrypt = record {
  hash = λ salt password. password;
  compare = λ password hashed. password == hashed;
  compare-hash = λ salt password. eq_refl password;
}
