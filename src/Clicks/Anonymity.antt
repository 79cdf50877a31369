-- ===== src/Clicks/Anonymity.antt =====
-- What `anonymizeIp` leaves of an address.
use Prim.Native.Char.{Char, code}
use Prim.Native.String
use text.Mathlib.TextLemmas.{nil-append, cons-append}
use dist_link.Base.{String, ◌≡◌, refl, ap, true, false, arith, ◌==◌}
use dist_link.Clicks.Agents.{is_digit_char, all_digits, anonymize_ip}

-- A text that is not all digits is not so with a text before it.
all_digits-append : (p t : String) → all_digits t ≡ false → all_digits (String.◌++◌ p t) ≡ false
all_digits-append String.[] t h = rw nil-append h
all_digits-append (String.◌∷◌ c p) t h = rw cons-append (ground (arith, all_digits-append p t h))

-- The last number of a text is found behind whatever stands before it.
anonymize_ip-append :
    (p t u : String)
    → all_digits t ≡ false
    → anonymize_ip t ≡ u
    → anonymize_ip (String.◌++◌ p t) ≡ String.◌++◌ p u
unfolding anonymize_ip
anonymize_ip-append String.[] t u h e = rw (nil-append, nil-append) e
anonymize_ip-append (String.◌∷◌ c p) t u h e =
    let mixed = all_digits-append (String.◌∷◌ c p) t h in
    rw (cons-append, cons-append)
      (rw (rw cons-append at mixed) (ap (String.◌∷◌ c) (anonymize_ip-append p t u h e)))

anonymize_ip-digits : (d : String) → all_digits d ≡ true → (d == "") ≡ false → anonymize_ip d ≡ "0"
unfolding anonymize_ip
anonymize_ip-digits String.[] h filled = cc
anonymize_ip-digits (String.◌∷◌ c d) h filled = rw h

dotted :
    (d : String) → all_digits d ≡ true → (d == "") ≡ false → anonymize_ip (String.◌∷◌ "." d) ≡ ".0"
unfolding anonymize_ip
dotted d h filled = ap (String.◌∷◌ ".") (anonymize_ip-digits d h filled)

-- Of an address that ends in a dot and a number the number is replaced by 0, whatever number it was;
-- an address that ends in another character than a digit is kept whole.
anonymize_ip_last :
    (p d : String) (c : Char)
    → all_digits d ≡ true
    → (d == "") ≡ false
    → is_digit_char (code c) ≡ false
    → (anonymize_ip (String.◌++◌ p (String.◌∷◌ "." d)) ≡ String.◌++◌ p ".0")
      × (anonymize_ip (String.◌++◌ p (String.◌∷◌ c String.[]))
          ≡ String.◌++◌ p (String.◌∷◌ c String.[]))
anonymize_ip_last p d c digits filled letter = (
  anonymize_ip-append p (String.◌∷◌ "." d) ".0" refl (dotted d digits filled),
  anonymize_ip-append p (String.◌∷◌ c String.[]) (String.◌∷◌ c String.[]) (ground arith)
      (unfold anonymize_ip in ground arith),
)
