-- ===== src/Email/Message.antt =====
-- include/EmailSender.hpp: `CreatMessage`, which builds the MIME text of a mail. The classes of the
-- mimetic library and the file system are parameters.
use home_keeper.Prelude.{
  ℕ, zero, suc, ◌+◌, ◌-◌, ◌^◌, ◌%◌, ◌*◌, ◌/◌, ◌<◌, ◌≤◌, List, [], ◌∷◌, ◌++◌, append-nil,
  append_assoc, Option, none, some, ◌≡◌, inl, inr, refl, sym, ap, ◌∙◌, ltb, if◌then◌else◌, lt→ltb,
  Option-cases, arith, length, take, drop, take-append-drop, length-drop, Bytes, codes, c_str,
  NoZero, NoZero-take, c_str-NoZero,
}
use home_keeper.Payload.{insert_text}
use home_keeper.Email.{EmailSender, get_file_name, get_file_suffix, set_content_type, set_file_name}

-- `mimetic::Field`, made of one text or of a name and a value.
pub data Field : Type 0 where
  text : Bytes → Field
  pair : Bytes → Bytes → Field

-- `mimetic::MimeEntity`: its header fields and its body.
pub record Entity : Type 0 where
  pub header : List Field
  pub body : Bytes

-- `mimetic::MultipartMixed`.
pub record Mixed : Type 0 where
  pub from : Bytes
  pub to : Bytes
  pub subject : Bytes
  pub fields : List Field
  pub parts : List Entity

-- What the code calls: the library's encoder, `load` and `operator<<`, and the contents of the
-- files that `fopen` opens for reading.
pub record Outside : Type 0 where
  pub encode : Bytes → Bytes
  pub load : Entity → Bytes → Entity
  pub render : Mixed → Bytes
  pub files : Bytes → Option Bytes

-- The loop that joins the recipients.
pub to_loop : ℕ → List Bytes → Bytes → Bytes
to_loop i [] to = to
to_loop i (mail ∷ mails) to =
    to_loop (i + 1) mails ((if ltb 0 i then to ++ codes "," else to) ++ mail)

-- `len / 54 + 1` as a `size_t`, where `int len = ftell (pt)` keeps the size as a 32-bit word, and the
-- division of a negative number rounds to zero.
pub chunk_rounds : ℕ → ℕ
chunk_rounds size =
    let len = size % 2 ^ 32 in
    if ltb len (2 ^ 31) then len / 54 + 1 else (2 ^ 64 + 1 - (2 ^ 32 - len) / 54) % 2 ^ 64

-- `for (i = 0; i < len / 54 + 1; i++)`: each round reads 54 bytes into a zeroed buffer of 55 and
-- appends it as a C string.
pub read_chunks : ℕ → Bytes → Bytes → Bytes
read_chunks zero content file = file
read_chunks (suc rounds) content file =
    read_chunks rounds (drop 54 content) (file ++ c_str (take 54 content))

pub read_file : Bytes → Bytes → Bytes
unfolding chunk_rounds
read_file content file = read_chunks (chunk_rounds (length content)) content file

-- The variables of the loop over the attachments.
pub record Attaching : Type 0 where
  pub filename : Bytes
  pub filetype : Bytes
  pub file : Bytes
  pub sender : EmailSender
  pub parts : List Entity

abbrev pub attachment_header : Bytes → List Field
attachment_header path =
    text (codes "Content-Type: application/octet-stream; name=" ++ path)
    ∷ text (codes "Content-Disposition : attachment; filename=" ++ path)
    ∷ pair (codes "Content-Transfer-Encoding") (codes "base64")
    ∷ []

module _ (o : Outside) where
  -- The entity of an attachment, of a path and of the text that is encoded into it.
  abbrev pub attachment_part : Bytes → Bytes → Entity
  attachment_part path file =
      o.load (record { header = attachment_header path; body = [] }) (o.encode file)

  -- One round; a file that does not open is passed over.
  pub attach : Bytes → Attaching → Attaching
  attach path a =
      let filename = get_file_name path a.filename in
      let filetype = get_file_suffix path a.filetype in
      let sender = set_file_name filename (set_content_type filetype a.sender) in
      elim (o.files path) [
        | none ↦ record a { filename = filename; filetype = filetype; sender = sender }
        | some content ↦
            let file = read_file content a.file in
            record {
              filename = filename;
              filetype = filetype;
              file = file;
              sender = sender;
              parts = a.parts ++ attachment_part path file ∷ [];
            }
      ]

  unfoldable pub attach_all : List Bytes → Attaching → Attaching
  attach_all [] a = a
  attach_all (path ∷ paths) a = attach_all paths (attach path a)

  abbrev pub body_part : EmailSender → Entity
  body_part s = record {
    header =
        text (codes "Content-Type: text/plain; charset=GB2312")
        ∷ pair (codes "Content-Transfer-Encoding") (codes "base64")
        ∷ [];
    body = s.content;
  }

  abbrev start : EmailSender → Attaching
  start s = record { filename = []; filetype = []; file = []; sender = s; parts = body_part s ∷ [] }

  -- The mail that `CreatMessage` puts together.
  pub build_mail : EmailSender → Mixed
  unfolding to_loop attach_all attach read_file read_chunks
  build_mail s = record {
    from = s.send_mail;
    to = to_loop 0 s.recv_mail [];
    subject = s.subject;
    fields = pair (codes "Mime-Version") (codes "1.0") ∷ [];
    parts = (attach_all s.attachments (start s)).parts;
  }

  -- `CreatMessage`: the loop also sets the file name and the content type of the object.
  unfoldable pub create_message : EmailSender → EmailSender
  unfolding build_mail attach_all attach read_file
  create_message s =
      let s' = (attach_all s.attachments (start s)).sender in
      record s' { message = insert_text s'.message (o.render (build_mail s)) }

-- The recipients with a comma between two of them.
abbrev pub joined : List Bytes → Bytes
joined [] = []
joined (mail ∷ []) = mail
joined (mail ∷ next ∷ mails) = mail ++ (codes "," ++ joined (next ∷ mails))

to_loop-joined :
    (i : ℕ) (mail : Bytes) (mails : List Bytes) (to : Bytes)
    → 0 < i
    → to_loop i (mail ∷ mails) to ≡ to ++ (codes "," ++ joined (mail ∷ mails))
unfolding to_loop
to_loop-joined i mail [] to h = rw (lt→ltb 0 i h) (append_assoc to (codes ",") mail)
to_loop-joined i mail (next ∷ mails) to h =
    to_loop-joined (i + 1) next mails _ (omega arith) ∙ rw (lt→ltb 0 i h) (simp append_assoc)

to_loop_lem : (mails : List Bytes) → to_loop 0 mails [] ≡ joined mails
unfolding to_loop
to_loop_lem [] = refl
to_loop_lem (mail ∷ []) = refl
to_loop_lem (mail ∷ next ∷ mails) = to_loop-joined 1 next mails mail (omega arith)

-- The `To:` header of the mail is the recipients in order, with a comma between two of them.
pub to-build_mail : (o : Outside) (s : EmailSender) → (build_mail o s).to ≡ joined s.recv_mail
unfolding build_mail
to-build_mail o s = to_loop_lem s.recv_mail

NoZero-drop : (n : ℕ) (s : Bytes) → NoZero s → NoZero (drop n s)
NoZero-drop zero s h = h
NoZero-drop (suc n) [] h = tt
NoZero-drop (suc n) (b ∷ s) h = NoZero-drop n s h.1

read_chunks-append :
    (rounds : ℕ) (content file : Bytes)
    → NoZero content
    → length content ≤ 54 * rounds
    → read_chunks rounds content file ≡ file ++ content
unfolding read_chunks
read_chunks-append zero [] file h l = sym (append-nil file)
read_chunks-append zero (b ∷ content) file h l = absurd (omega arith)
read_chunks-append (suc rounds) content file h l =
    read_chunks-append rounds (drop 54 content) _ (NoZero-drop 54 content h)
      (omega (arith, length-drop 54 content))
    ∙ rw (c_str-NoZero (take 54 content) (NoZero-take 54 content h)) (
        append_assoc file (take 54 content) (drop 54 content)
        ∙ ap (◌++◌ file) (take-append-drop 54 content))

read_file-append :
    (content file : Bytes)
    → NoZero content
    → length content < 2 ^ 31
    → read_file content file ≡ file ++ content
unfolding read_file chunk_rounds
read_file-append content file h l =
    let size : length content % 2 ^ 32 ≡ length content = omega arith in
    rw (size, lt→ltb _ _ l)
      (read_chunks-append (length content / 54 + 1) content file h (omega arith))

-- Every file that opens holds no zero byte and is shorter than 2 ^ 31.
abbrev pub TextFiles : Outside → List Bytes → Type 0
TextFiles o [] = Unit
TextFiles o (path ∷ paths) =
    ((content : Bytes) → o.files path ≡ some content → NoZero content × (length content < 2 ^ 31))
    × TextFiles o paths

-- The parts of the attachments, where each carries the text of all files up to its own.
abbrev pub growing_parts : Outside → Bytes → List Bytes → List Entity
growing_parts o file [] = []
growing_parts o file (path ∷ paths) = elim (o.files path) [
  | none ↦ growing_parts o file paths
  | some content ↦
      attachment_part o path (file ++ content) ∷ growing_parts o (file ++ content) paths
]

attach_all-growing_parts :
    (o : Outside) (paths : List Bytes) (a : Attaching)
    → TextFiles o paths
    → (attach_all o paths a).parts ≡ a.parts ++ growing_parts o a.file paths
unfolding attach_all attach
attach_all-growing_parts o [] a h = sym (append-nil a.parts)
attach_all-growing_parts o (path ∷ paths) a h = elim (Option-cases (o.files path)) [
  | inl e ↦ attach_all-growing_parts o paths (attach o path a) h.1 ∙ rw (e, attach, growing_parts)
  | inr (content, e) ↦
      attach_all-growing_parts o paths (attach o path a) h.1
      ∙ rw (e, attach, growing_parts)
          (let (no_zero, short) = h.0 content e in
            rw (read_file-append content a.file no_zero short) (append_assoc a.parts _ _))
]

-- Of files without a zero byte that are shorter than 2 ^ 31, the mail has its body first and then one part for each attachment that opens, in
-- order; each part encodes the contents of all the files attached so far, not of its own file only.
pub parts-build_mail :
    (o : Outside) (s : EmailSender)
    → TextFiles o s.attachments
    → (build_mail o s).parts ≡ body_part o s ∷ growing_parts o [] s.attachments
unfolding build_mail
parts-build_mail o s h = attach_all-growing_parts o s.attachments (start o s) h
