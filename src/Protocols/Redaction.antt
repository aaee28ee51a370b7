-- ===== src/Protocols/Redaction.antt =====
-- protocols/redaction.py: which bytes of a capture may become text of a report.
pub mod Keywords
pub mod Safe
use securemailscope.Base.{
  ℕ, ◌-◌, Bool, true, false, ◌&&◌, ◌||◌, List, [], ◌∷◌, Option, none, some, map, length, all, leb,
  ltb, ◌==◌, if◌then◌else◌,
}
use securemailscope.Network.Flows.{Text, eq_text}
use securemailscope.Protocols.Redaction.Keywords.{sasl_mechanisms}

is_nonempty : List ℕ → Bool
is_nonempty [] = false
is_nonempty (_ ∷ _) = true

-- _ascii
unfoldable pub ascii : List ℕ → ℕ → Option Text
unfolding is_nonempty
ascii raw max_length =
    if is_nonempty raw && (leb (length raw) max_length && all (λ c. ltb c 128) raw)
    then some raw
    else none

-- str.upper on ASCII
unfoldable pub upper_char : ℕ → ℕ
upper_char c = if leb 97 c && leb c 122 then c - 32 else c

abbrev pub upper : Text → Text
upper = map upper_char

-- text in allowed
unfoldable pub is_in : Text → List Text → Bool
is_in text [] = false
is_in text (t ∷ allowed) = eq_text text t || is_in text allowed

unfoldable pub allowed_upper : List Text → Option Text → Option Text
allowed_upper allowed none = none
allowed_upper allowed (some text) = if is_in (upper text) allowed then some (upper text) else none

unfoldable pub safe_verb : List ℕ → List Text → Option Text
unfolding allowed_upper ascii
safe_verb raw allowed = allowed_upper allowed (ascii raw 20)

unfoldable pub safe_mechanism : List ℕ → Option Text
unfolding allowed_upper ascii
safe_mechanism raw = allowed_upper sasl_mechanisms (ascii raw 24)

-- string.ascii_letters + string.digits + "._-"
unfoldable pub is_tag_char : ℕ → Bool
is_tag_char c =
    (leb 65 c && leb c 90)
    || ((leb 97 c && leb c 122) || ((leb 48 c && leb c 57) || (c == 46 || (c == 95 || c == 45))))

-- The same and "=+"
unfoldable pub is_capability_char : ℕ → Bool
unfolding is_tag_char
is_capability_char c = is_tag_char c || (c == 61 || c == 43)

unfoldable pub shaped : (ℕ → Bool) → Option Text → Option Text
shaped alphabet none = none
shaped alphabet (some text) = if all alphabet text then some text else none

unfoldable pub safe_tag : List ℕ → Option Text
unfolding shaped ascii
safe_tag raw = shaped is_tag_char (ascii raw 32)

unfoldable pub uppered : Option Text → Option Text
uppered none = none
uppered (some text) = some (upper text)

unfoldable pub safe_capability : List ℕ → Option Text
unfolding shaped ascii uppered
safe_capability raw = uppered (shaped is_capability_char (ascii raw 32))

unfoldable pub is_digit : ℕ → Bool
is_digit c = leb 48 c && leb c 57

unfoldable pub safe_reply_code : List ℕ → Option Text
unfolding is_digit
safe_reply_code raw = if length raw == 3 && all is_digit raw then some raw else none

-- `_split_token` of the parsers
unfoldable pub is_blank : ℕ → Bool
is_blank c = c == 32 || c == 9

unfoldable pub lstrip : List ℕ → List ℕ
unfolding is_blank
lstrip [] = []
lstrip (c ∷ cs) = let rest = lstrip cs in if is_blank c then rest else c ∷ cs

unfoldable pub token_of : List ℕ → List ℕ
unfolding is_blank
token_of [] = []
token_of (c ∷ cs) = let rest = token_of cs in if is_blank c then [] else c ∷ rest

unfoldable pub behind_token : List ℕ → List ℕ
unfolding is_blank
behind_token [] = []
behind_token (c ∷ cs) = let rest = behind_token cs in if is_blank c then c ∷ cs else rest

unfoldable pub split_token : List ℕ → List ℕ × List ℕ
unfolding lstrip token_of behind_token
split_token raw = let stripped = lstrip raw in (token_of stripped, lstrip (behind_token stripped))
