-- ===== src/Protocols/Redaction/Keywords.antt =====
-- The keywords that protocols/redaction.py lets through, as their ASCII codes, in upper case.
use securemailscope.Base.{List, [], ◌∷◌}
use securemailscope.Network.Flows.{Text}

abbrev pub helo : Text
helo = 72 ∷ 69 ∷ 76 ∷ 79 ∷ []

abbrev pub ehlo : Text
ehlo = 69 ∷ 72 ∷ 76 ∷ 79 ∷ []

abbrev pub mail : Text
mail = 77 ∷ 65 ∷ 73 ∷ 76 ∷ []

abbrev pub rcpt : Text
rcpt = 82 ∷ 67 ∷ 80 ∷ 84 ∷ []

abbrev pub data_verb : Text
data_verb = 68 ∷ 65 ∷ 84 ∷ 65 ∷ []

abbrev pub rset : Text
rset = 82 ∷ 83 ∷ 69 ∷ 84 ∷ []

abbrev pub vrfy : Text
vrfy = 86 ∷ 82 ∷ 70 ∷ 89 ∷ []

abbrev pub expn : Text
expn = 69 ∷ 88 ∷ 80 ∷ 78 ∷ []

abbrev pub help : Text
help = 72 ∷ 69 ∷ 76 ∷ 80 ∷ []

abbrev pub noop : Text
noop = 78 ∷ 79 ∷ 79 ∷ 80 ∷ []

abbrev pub quit : Text
quit = 81 ∷ 85 ∷ 73 ∷ 84 ∷ []

abbrev pub starttls : Text
starttls = 83 ∷ 84 ∷ 65 ∷ 82 ∷ 84 ∷ 84 ∷ 76 ∷ 83 ∷ []

abbrev pub auth : Text
auth = 65 ∷ 85 ∷ 84 ∷ 72 ∷ []

abbrev pub bdat : Text
bdat = 66 ∷ 68 ∷ 65 ∷ 84 ∷ []

abbrev pub etrn : Text
etrn = 69 ∷ 84 ∷ 82 ∷ 78 ∷ []

abbrev pub xclient : Text
xclient = 88 ∷ 67 ∷ 76 ∷ 73 ∷ 69 ∷ 78 ∷ 84 ∷ []

abbrev pub user : Text
user = 85 ∷ 83 ∷ 69 ∷ 82 ∷ []

abbrev pub pass : Text
pass = 80 ∷ 65 ∷ 83 ∷ 83 ∷ []

abbrev pub apop : Text
apop = 65 ∷ 80 ∷ 79 ∷ 80 ∷ []

abbrev pub stat : Text
stat = 83 ∷ 84 ∷ 65 ∷ 84 ∷ []

abbrev pub list : Text
list = 76 ∷ 73 ∷ 83 ∷ 84 ∷ []

abbrev pub retr : Text
retr = 82 ∷ 69 ∷ 84 ∷ 82 ∷ []

abbrev pub dele : Text
dele = 68 ∷ 69 ∷ 76 ∷ 69 ∷ []

abbrev pub top : Text
top = 84 ∷ 79 ∷ 80 ∷ []

abbrev pub uidl : Text
uidl = 85 ∷ 73 ∷ 68 ∷ 76 ∷ []

abbrev pub capa : Text
capa = 67 ∷ 65 ∷ 80 ∷ 65 ∷ []

abbrev pub stls : Text
stls = 83 ∷ 84 ∷ 76 ∷ 83 ∷ []

abbrev pub plain : Text
plain = 80 ∷ 76 ∷ 65 ∷ 73 ∷ 78 ∷ []

abbrev pub login : Text
login = 76 ∷ 79 ∷ 71 ∷ 73 ∷ 78 ∷ []

abbrev pub cram_md5 : Text
cram_md5 = 67 ∷ 82 ∷ 65 ∷ 77 ∷ 45 ∷ 77 ∷ 68 ∷ 53 ∷ []

abbrev pub digest_md5 : Text
digest_md5 = 68 ∷ 73 ∷ 71 ∷ 69 ∷ 83 ∷ 84 ∷ 45 ∷ 77 ∷ 68 ∷ 53 ∷ []

abbrev pub external : Text
external = 69 ∷ 88 ∷ 84 ∷ 69 ∷ 82 ∷ 78 ∷ 65 ∷ 76 ∷ []

abbrev pub anonymous : Text
anonymous = 65 ∷ 78 ∷ 79 ∷ 78 ∷ 89 ∷ 77 ∷ 79 ∷ 85 ∷ 83 ∷ []

abbrev pub gssapi : Text
gssapi = 71 ∷ 83 ∷ 83 ∷ 65 ∷ 80 ∷ 73 ∷ []

abbrev pub ntlm : Text
ntlm = 78 ∷ 84 ∷ 76 ∷ 77 ∷ []

abbrev pub xoauth2 : Text
xoauth2 = 88 ∷ 79 ∷ 65 ∷ 85 ∷ 84 ∷ 72 ∷ 50 ∷ []

abbrev pub oauthbearer : Text
oauthbearer = 79 ∷ 65 ∷ 85 ∷ 84 ∷ 72 ∷ 66 ∷ 69 ∷ 65 ∷ 82 ∷ 69 ∷ 82 ∷ []

abbrev pub scram_sha_1 : Text
scram_sha_1 = 83 ∷ 67 ∷ 82 ∷ 65 ∷ 77 ∷ 45 ∷ 83 ∷ 72 ∷ 65 ∷ 45 ∷ 49 ∷ []

abbrev pub scram_sha_1_plus : Text
scram_sha_1_plus =
    83 ∷ 67 ∷ 82 ∷ 65 ∷ 77 ∷ 45 ∷ 83 ∷ 72 ∷ 65 ∷ 45 ∷ 49 ∷ 45 ∷ 80 ∷ 76 ∷ 85 ∷ 83 ∷ []

abbrev pub scram_sha_256 : Text
scram_sha_256 = 83 ∷ 67 ∷ 82 ∷ 65 ∷ 77 ∷ 45 ∷ 83 ∷ 72 ∷ 65 ∷ 45 ∷ 50 ∷ 53 ∷ 54 ∷ []

abbrev pub scram_sha_256_plus : Text
scram_sha_256_plus =
    83 ∷ 67 ∷ 82 ∷ 65 ∷ 77 ∷ 45 ∷ 83 ∷ 72 ∷ 65 ∷ 45 ∷ 50 ∷ 53 ∷ 54 ∷ 45 ∷ 80 ∷ 76 ∷ 85 ∷ 83 ∷ []

-- SMTP_VERBS
abbrev pub smtp_verbs : List Text
smtp_verbs =
    helo ∷ ehlo ∷ mail ∷ rcpt ∷ data_verb ∷ rset ∷ vrfy ∷ expn ∷ help ∷ noop ∷ quit ∷ starttls
    ∷ auth ∷ bdat ∷ etrn ∷ xclient ∷ []

-- POP3_VERBS
abbrev pub pop3_verbs : List Text
pop3_verbs =
    user ∷ pass ∷ apop ∷ quit ∷ stat ∷ list ∷ retr ∷ dele ∷ noop ∷ rset ∷ top ∷ uidl ∷ capa ∷ stls
    ∷ auth ∷ []

-- SASL_MECHANISMS
abbrev pub sasl_mechanisms : List Text
sasl_mechanisms =
    plain ∷ login ∷ cram_md5 ∷ digest_md5 ∷ external ∷ anonymous ∷ gssapi ∷ ntlm ∷ xoauth2
    ∷ oauthbearer ∷ scram_sha_1 ∷ scram_sha_1_plus ∷ scram_sha_256 ∷ scram_sha_256_plus ∷ []

-- The SMTP commands whose reply lists what the server can do.
abbrev pub greetings : List Text
greetings = ehlo ∷ helo ∷ []
