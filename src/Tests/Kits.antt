-- ===== src/Tests/Kits.antt =====
-- Libraries for internal/api/sseauth: an encoding without ".", which writes a letter after each
-- character, and claims written with strokes.
use Prim.Native.Char.{Char}
use Prim.Native.String.{◌++◌ as append}
use Prim.Native.String.append
use vrclog_companion.Prelude.{
  ℕ, ◌+◌, ◌*◌, ◌/◌, ◌%◌, ◌≡◌, refl, sym, ap, ◌∙◌, ℤ, pos, negsuc, String, Bool, false, some, none,
  Option, List, [], ◌∷◌, arith, str_eq, eq_of_str_eq, ◌==◌, if◌then◌else◌, Bool-cases, inl, inr,
}
use vrclog_companion.Api.Token.{Kit, Claims, dotted, token_prefix}
use vrclog_companion.Api.Token.Signed.{IsKit}
use vrclog_companion.Tests.Records.{
  strokes, count, cut_bar, count-strokes, cut_bar-strokes, first_char,
}

abbrev is_dot : Char → Bool
is_dot c = str_eq (String.◌∷◌ c String.[]) "."

abbrev pair : Char → Char → String → String
pair c d s = String.◌∷◌ c (String.◌∷◌ d s)

-- A dot is "xy", and any other character is followed by "x".
abbrev pub encode : String → String
encode String.[] = ""
encode (String.◌∷◌ c s) =
    let rest = encode s in
    if is_dot c then pair (first_char "x") (first_char "y") rest else pair c (first_char "x") rest

abbrev char_of : Char → Char → Char
char_of c d = if str_eq (String.◌∷◌ d String.[]) "y" then first_char "." else c

abbrev add_char : Char → Option String → Option String
add_char c none = none
add_char c (some s) = some (String.◌∷◌ c s)

abbrev pub decode : String → Option String
decode String.[] = some ""
decode (String.◌∷◌ c String.[]) = none
decode (String.◌∷◌ c (String.◌∷◌ d s)) = add_char (char_of c d) (decode s)

decode-encode : (s : String) → decode (encode s) ≡ some s
decode-encode String.[] = refl
decode-encode (String.◌∷◌ c s) = elim (Bool-cases (is_dot c)) [
  | inl dot ↦
      let same : first_char "." ≡ c = ap first_char (sym (eq_of_str_eq _ _ dot)) in
      ground (arith, dot, decode-encode s) ∙ ap (λ d. some (String.◌∷◌ d s)) same
  | inr other ↦ ground (arith, other, decode-encode s)
]

abbrev first_and : Char → List String → List String
first_and c [] = []
first_and c (s ∷ l) = String.◌∷◌ c s ∷ l

abbrev pub split : String → List String
split String.[] = "" ∷ []
split (String.◌∷◌ c s) = let rest = split s in if is_dot c then "" ∷ rest else first_and c rest

split-dot : (s : String) → split (append "." s) ≡ "" ∷ split s
split-dot s =
    ap split (append.cons (first_char ".") "" s)
    ∙ ap (λ t. split (String.◌∷◌ (first_char ".") t)) (append.nil s)

split-pair :
    (c d : Char) (e t : String) (rest : List String)
    → is_dot c ≡ false
    → is_dot d ≡ false
    → split (append e t) ≡ e ∷ rest
    → split (append (pair c d e) t) ≡ pair c d e ∷ rest
split-pair c d e t rest h k i =
    ap split (append.cons c (String.◌∷◌ d e) t)
    ∙ ap (λ u. split (String.◌∷◌ c u)) (append.cons d e t)
    ∙ ground (arith, h, k, i)

-- What comes first in a split is joined with an encoded text before it.
split-encode :
    (a t : String) (rest : List String)
    → split t ≡ "" ∷ rest
    → split (append (encode a) t) ≡ encode a ∷ rest
split-encode String.[] t rest h = ap split (append.nil t) ∙ h
split-encode (String.◌∷◌ c a) t rest h = elim (Bool-cases (is_dot c)) [
  | inl dot ↦ rw dot (
      split-pair (first_char "x") (first_char "y") (encode a) t rest refl refl
        (split-encode a t rest h))
  | inr other ↦
      rw other
        (split-pair c (first_char "x") (encode a) t rest other refl (split-encode a t rest h))
]

append-empty : (s : String) → append s "" ≡ s
append-empty String.[] = append.nil ""
append-empty (String.◌∷◌ c s) = append.cons c s "" ∙ ap (λ t. String.◌∷◌ c t) (append-empty s)

append_assoc : (a b c : String) → append (append a b) c ≡ append a (append b c)
append_assoc String.[] b c = ap (λ t. append t c) (append.nil b) ∙ sym (append.nil (append b c))
append_assoc (String.◌∷◌ x a) b c =
    ap (λ t. append t c) (append.cons x a b)
    ∙ append.cons x (append a b) c
    ∙ ap (λ t. String.◌∷◌ x t) (append_assoc a b c)
    ∙ sym (append.cons x a (append b c))

abbrev code : ℤ → ℕ
code (pos n) = 2 * n
code (negsuc n) = 2 * n + 1

abbrev of_code : ℕ → ℤ
of_code k = if k % 2 == 0 then pos (k / 2) else negsuc (k / 2)

of_code-code : (x : ℤ) → of_code (code x) ≡ x
of_code-code (pos n) = let half : 2 * n / 2 ≡ n = omega arith in ground (arith, half)
of_code-code (negsuc n) = let half : (2 * n + 1) / 2 ≡ n = omega arith in ground (arith, half)

abbrev write_claims : Claims → String
write_claims c =
    append (strokes (code c.exp)) (append "|" (append (strokes (code c.iat)) (append "|" c.scope)))

abbrev read_scope : ℤ → Option (String × String) → Option Claims
read_scope exp none = none
read_scope exp (some (iat, scope)) =
    some (record { exp = exp; iat = of_code (count iat); scope = scope })

abbrev read_claims : Option (String × String) → Option Claims
read_claims none = none
read_claims (some (exp, rest)) = read_scope (of_code (count exp)) (cut_bar rest)

read_claims-write_claims : (c : Claims) → read_claims (cut_bar (write_claims c)) ≡ some c
read_claims-write_claims c =
    rw
      (
        cut_bar-strokes (code c.exp) (append (strokes (code c.iat)) (append "|" c.scope)),
        cut_bar-strokes (code c.iat) c.scope,
        count-strokes (code c.exp),
        count-strokes (code c.iat),
        of_code-code c.exp,
        of_code-code c.iat,
      )
      refl

-- Not a hash, but enough for the theorems: the secret, a bar, and the text.
abbrev pub plain_kit : Kit
plain_kit = record {
  split = split;
  encode = encode;
  decode = decode;
  hmac = λ secret text. append secret (append "|" text);
  marshal = λ c. some (write_claims c);
  unmarshal = λ s. read_claims (cut_bar s);
}

-- A text of two parts is split at the dot between them.
split_parts :
    (a b : String)
    → split (dotted (dotted token_prefix (encode a)) (encode b))
      ≡ token_prefix ∷ encode a ∷ encode b ∷ []
split_parts a b =
    let last = append "." (encode b) in
    let payload = append (encode a) last in
    let last_split : split (encode b) ≡ encode b ∷ [] =
      ap split (sym (append-empty (encode b))) ∙ split-encode b "" [] refl in
    let payload_split : split payload ≡ encode a ∷ encode b ∷ [] =
      split-encode a last (encode b ∷ []) (split-dot (encode b) ∙ ap (λ l. "" ∷ l) last_split) in
    let prefix_end : split (append "" (append "." payload)) ≡ "" ∷ encode a ∷ encode b ∷ [] =
      ap split (append.nil (append "." payload))
      ∙ split-dot payload
      ∙ ap (λ l. "" ∷ l) payload_split in
    ap split (append_assoc token_prefix (append "." (encode a)) last)
    ∙ ap (λ t. split (append token_prefix t)) (append_assoc "." (encode a) last)
    ∙ split-pair (first_char "s") (first_char "s") "e1" (append "." payload) _ refl refl (
        split-pair (first_char "e") (first_char "1") "" (append "." payload) _ refl refl prefix_end)

pub plain_kit-IsKit : IsKit plain_kit
plain_kit-IsKit = record {
  decoded = decode-encode;
  unmarshalled = λ c. (write_claims c, refl, read_claims-write_claims c);
  three_parts = split_parts;
}
