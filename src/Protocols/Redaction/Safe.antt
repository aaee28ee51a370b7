-- ===== src/Protocols/Redaction/Safe.antt =====
-- What the filters of protocols/redaction.py let through.
use securemailscope.Base.{
  ℕ, ◌≡◌, ◌≤◌, refl, Bool, true, ◌&&◌, ◌||◌, ◌==◌, List, [], ◌∷◌, Option, none, some, length,
  length-map, all, leb, arith, if_intro, ltb,
}
use securemailscope.Network.Flows.{Text}
use securemailscope.Protocols.Redaction.Keywords.{sasl_mechanisms}
use securemailscope.Protocols.Redaction.{
  is_nonempty, ascii, is_in, upper, upper_char, allowed_upper, safe_verb, safe_mechanism,
  is_tag_char, is_capability_char, shaped, uppered, safe_capability, is_digit, safe_reply_code,
}

-- What holds of an optional text that is there.
abbrev pub Each {ℓ} : (Text → Type ℓ) → Option Text → Type ℓ
Each P none = Unit
Each P (some text) = P text

-- A letter in upper case, a digit, or one of the marks of a capability.
unfoldable pub is_keyword_char : ℕ → Bool
is_keyword_char c =
    (leb 65 c && leb c 90)
    || ((leb 48 c && leb c 57) || (c == 46 || (c == 95 || (c == 45 || (c == 61 || c == 43)))))

abbrev pub IsKeyword : Text → Type 0
IsKeyword text = (length text ≤ 32) × (all is_keyword_char text ≡ true)

abbrev pub IsMechanism : Option Text → Type 0
IsMechanism = Each λ text. is_in text sasl_mechanisms ≡ true

-- A reply code: three digits.
abbrev pub IsReplyCode : Text → Type 0
IsReplyCode text = (length text ≡ 3) × (all is_digit text ≡ true)

allowed_upper-Each :
    (allowed : List Text) (o : Option Text)
    → Each (λ text. is_in text allowed ≡ true) (allowed_upper allowed o)
unfolding allowed_upper
allowed_upper-Each allowed none = tt
allowed_upper-Each allowed (some text) =
    if_intro (Each (λ t. is_in t allowed ≡ true)) (is_in (upper text) allowed) (λ t. t) (λ _. tt)

-- A verb that passes the filter is in the table.
pub safe_verb-Each :
    (raw : List ℕ) (allowed : List Text)
    → Each (λ text. is_in text allowed ≡ true) (safe_verb raw allowed)
unfolding safe_verb
safe_verb-Each raw allowed = allowed_upper-Each allowed (ascii raw 20)

pub safe_mechanism-IsMechanism : (raw : List ℕ) → IsMechanism (safe_mechanism raw)
unfolding safe_mechanism
safe_mechanism-IsMechanism raw = allowed_upper-Each sasl_mechanisms (ascii raw 24)

upper_char-keyword : (c : ℕ) → is_capability_char c ≡ true → is_keyword_char (upper_char c) ≡ true
unfolding is_capability_char is_tag_char is_keyword_char upper_char
upper_char-keyword c h = ground arith

upper-keyword :
    (text : Text) → all is_capability_char text ≡ true → all is_keyword_char (upper text) ≡ true
upper-keyword [] h = refl
upper-keyword (c ∷ text) h = ground (arith, upper_char-keyword c, upper-keyword text)

ascii-length : (raw : List ℕ) (n : ℕ) → Each (λ text. length text ≤ n) (ascii raw n)
unfolding ascii
ascii-length raw n =
    if_intro (Each (λ text. length text ≤ n))
      (is_nonempty raw && (leb (length raw) n && all (λ c. ltb c 128) raw)) {x = some raw}
      {y = none} (λ t. ground (arith, t)) (λ _. tt)

shaped-Each :
    (alphabet : ℕ → Bool) (n : ℕ) (o : Option Text)
    → Each (λ text. length text ≤ n) o
    → Each (λ text. (length text ≤ n) × (all alphabet text ≡ true)) (shaped alphabet o)
unfolding shaped
shaped-Each alphabet n none h = tt
shaped-Each alphabet n (some text) h =
    if_intro (Each (λ t. (length t ≤ n) × (all alphabet t ≡ true))) (all alphabet text)
      (λ t. (h, t)) (λ _. tt)

uppered-IsKeyword :
    (o : Option Text)
    → Each (λ text. (length text ≤ 32) × (all is_capability_char text ≡ true)) o
    → Each IsKeyword (uppered o)
unfolding uppered
uppered-IsKeyword none h = tt
uppered-IsKeyword (some text) h =
    (omega (arith, h.0, length-map upper_char text), upper-keyword text h.1)

-- A capability that passes is at most 32 upper-case letters, digits and marks.
pub safe_capability-IsKeyword : (raw : List ℕ) → Each IsKeyword (safe_capability raw)
unfolding safe_capability
safe_capability-IsKeyword raw =
    uppered-IsKeyword _ (shaped-Each is_capability_char 32 (ascii raw 32) (ascii-length raw 32))

pub safe_reply_code-IsReplyCode : (raw : List ℕ) → Each IsReplyCode (safe_reply_code raw)
unfolding safe_reply_code
safe_reply_code-IsReplyCode raw =
    if_intro (Each IsReplyCode) (length raw == 3 && all is_digit raw) {x = some raw} {y = none}
      (λ t. ground (arith, t)) (λ _. tt)
