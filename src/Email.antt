-- ===== src/Email.antt =====
-- include/EmailSender.hpp: the object, its setters, and the names and types of its attachments.
-- `m_strCharset` is the field `charset`, and so on.
pub mod Names
pub mod Delivery
pub mod Message
use home_keeper.Prelude.{
  ℕ, zero, suc, ◌+◌, ◌-◌, Bool, true, false, List, [], ◌∷◌, ◌++◌, Option, none, some, ◌≡◌, refl,
  ◌==◌, if◌then◌else◌, length, take, drop, Bytes, codes, bytes_eq, ℤ, pos, negsuc,
}
use home_keeper.Base64.{base64_encode}
use home_keeper.Payload.{Stream, new_stream}

pub record EmailSender : Type 0 where
  pub charset : Bytes
  pub subject : Bytes
  pub content : Bytes
  pub file_name : Bytes
  pub message : Stream
  pub user_name : Bytes
  pub password : Bytes
  pub server_name : Bytes
  pub port : Bytes
  pub send_name : Bytes
  pub send_mail : Bytes
  pub content_type : Bytes
  pub recv_mail : List Bytes
  pub attachments : List Bytes

-- The constructor, with its default argument written out by the callers.
unfoldable pub new_sender : Bytes → EmailSender
new_sender charset = record {
  charset = charset;
  subject = [];
  content = [];
  file_name = [];
  message = new_stream;
  user_name = [];
  password = [];
  server_name = [];
  port = [];
  send_name = [];
  send_mail = [];
  content_type = [];
  recv_mail = [];
  attachments = [];
}

unfoldable pub set_smtp_server : Bytes → Bytes → Bytes → Bytes → EmailSender → EmailSender
set_smtp_server user pass server port s = record s {
  user_name = user;
  password = pass;
  server_name = server;
  port = port;
}

-- `=?charset?B?code?=`
pub encoded_word : Bytes → Bytes → Bytes
encoded_word charset text =
    codes "=?" ++ (charset ++ (codes "?B?" ++ (base64_encode text ++ codes "?=")))

unfoldable pub set_send_name : Bytes → EmailSender → EmailSender
unfolding encoded_word
set_send_name name s = record s { send_name = encoded_word s.charset name }

unfoldable pub set_send_mail : Bytes → EmailSender → EmailSender
set_send_mail mail s = record s { send_mail = mail }

unfoldable pub add_recv_mail : Bytes → EmailSender → EmailSender
add_recv_mail mail s = record s { recv_mail = s.recv_mail ++ mail ∷ [] }

unfoldable pub set_subject : Bytes → EmailSender → EmailSender
set_subject subject s = record s { subject = subject }

-- `b64` is the encoder of the mimetic library.
unfoldable pub set_body_content : (Bytes → Bytes) → Bytes → EmailSender → EmailSender
set_body_content b64 content s = record s { content = b64 content }

unfoldable pub add_attachment : Bytes → EmailSender → EmailSender
add_attachment file s = record s { attachments = s.attachments ++ file ∷ [] }

pub set_file_name : Bytes → EmailSender → EmailSender
unfolding encoded_word
set_file_name name s = record s { file_name = encoded_word s.charset name }

-- `std::string::find_last_of` of one byte; `none` is `npos`.
pub find_last_of : Bytes → ℕ → Option ℕ
find_last_of [] c = none
find_last_of (b ∷ bs) c = elim (find_last_of bs c) [
  | some p ↦ some (suc p)
  | none ↦ if b == c then some 0 else none
]

-- `s.substr (p, n)` for a `p` within the text.
abbrev pub substr : Bytes → ℕ → ℕ → Bytes
substr s p n = take n (drop p s)

abbrev pub slash : ℕ
slash = b'/'

abbrev pub backslash : ℕ
backslash = b'\\'

-- The text behind position `p`, or the old value of the output parameter.
abbrev behind : Bytes → Bytes → Option ℕ → Bytes
behind file old none = old
behind file old (some p) = let p' = p + 1 in substr file p' (length file - p')

abbrev or_else {ℓ} : {A : Type ℓ} → Option A → Option A → Option A
or_else none o = o
or_else (some a) o = some a

-- `GetFileName (file, filename)`: the new value of `filename`.
pub get_file_name : Bytes → Bytes → Bytes
get_file_name file filename =
    behind file filename (or_else (find_last_of file slash) (find_last_of file backslash))

abbrev pub dot : ℕ
dot = b'.'

-- `GetFileType (file, stype)`: the new value of `stype`.
pub get_file_suffix : Bytes → Bytes → Bytes
get_file_suffix file stype = behind file stype (find_last_of file dot)

-- `GetFileType (stype)`
pub get_file_type : Bytes → ℤ
get_file_type s =
    if bytes_eq s (codes "txt")
    then pos 0
    else if bytes_eq s (codes "xml")
    then pos 1
    else if bytes_eq s (codes "html")
    then pos 2
    else if bytes_eq s (codes "jpeg")
    then pos 3
    else if bytes_eq s (codes "png")
    then pos 4
    else if bytes_eq s (codes "gif")
    then pos 5
    else if bytes_eq s (codes "exe")
    then pos 6
    else negsuc 0

abbrev set_type : Bytes → EmailSender → EmailSender
set_type t s = record s { content_type = t }

abbrev case_3 : EmailSender → EmailSender
case_3 s = set_type (codes "image/jpeg;") s

-- The `switch`: case 2 has no `break`, and runs on into case 3.
content_type_switch : ℤ → EmailSender → EmailSender
content_type_switch (pos zero) s = set_type (codes "plain/text;") s
content_type_switch (pos (suc zero)) s = set_type (codes "text/xml;") s
content_type_switch (pos (suc (suc zero))) s = case_3 (set_type (codes "text/html;") s)
content_type_switch (pos (suc (suc (suc zero)))) s = case_3 s
content_type_switch (pos (suc (suc (suc (suc zero))))) s = set_type (codes "image/png;") s
content_type_switch (pos (suc (suc (suc (suc (suc zero)))))) s = set_type (codes "image/gif;") s
content_type_switch (pos (suc (suc (suc (suc (suc (suc zero))))))) s =
    set_type (codes "application/x-msdownload;") s
content_type_switch _ s = set_type (codes "application/octet-stream;") s

pub set_content_type : Bytes → EmailSender → EmailSender
unfolding content_type_switch get_file_type
set_content_type stype s = content_type_switch (get_file_type stype) s
