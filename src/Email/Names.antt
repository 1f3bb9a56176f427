-- ===== src/Email/Names.antt =====
-- include/EmailSender.hpp: what `GetFileName`, `GetFileType` and `SetContentType` find.
use home_keeper.Prelude.{
  ℕ, zero, suc, ◌+◌, [], ◌∷◌, ◌++◌, Option, none, some, ◌≡◌, ◌≢◌, refl, ◌==◌, if◌then◌else◌, length,
  length-append, take, drop, Bytes, codes, bytes_eq, All, arith, ap, Bool-cases, bytes_eq_sound,
  inl, inr, ==_iff,
}
use home_keeper.Email.{
  EmailSender, find_last_of, slash, backslash, dot, get_file_name, get_file_suffix,
  set_content_type, or_else, behind,
}

abbrev pub Lacks : ℕ → Bytes → Type 0
Lacks c = All (λ b. b ≢ c)

-- The last separator splits the text.
pub data LastOf (s : Bytes) (c : ℕ) (found : Option ℕ) : Type 0 where
  missing : Lacks c s → found ≡ none → LastOf s c found
  split :
      (front name : Bytes)
      → s ≡ front ++ c ∷ name
      → Lacks c name
      → found ≡ some (length front)
      → LastOf s c found

extend :
    (b : ℕ) (s : Bytes) (c : ℕ)
    → LastOf s c (find_last_of s c)
    → LastOf (b ∷ s) c (find_last_of (b ∷ s) c)
unfolding find_last_of
extend b s c (split front name e h f) =
    split (b ∷ front) name (ap (◌∷◌ b) e) h (rw (f, find_last_of))
extend b s c (missing h f) = elim (Bool-cases (b == c)) [
  | inl hit ↦ split [] s (ground arith) h (rw (f, hit, find_last_of))
  | inr miss ↦ missing (ground arith) (rw (f, miss, find_last_of))
]

find_last_of-LastOf : (s : Bytes) (c : ℕ) → LastOf s c (find_last_of s c)
find_last_of-LastOf [] c = missing tt (unfold find_last_of in refl)
find_last_of-LastOf (b ∷ s) c = extend b s c (find_last_of-LastOf s c)

find_last_of-Lacks : (s : Bytes) (c : ℕ) → Lacks c s → find_last_of s c ≡ none
unfolding find_last_of
find_last_of-Lacks [] c h = refl
find_last_of-Lacks (b ∷ s) c (p, h) = ground (arith, find_last_of-Lacks s c h, p, ==_iff b c)

pub find_last_of-append :
    (front name : Bytes) (c : ℕ)
    → Lacks c name
    → find_last_of (front ++ c ∷ name) c ≡ some (length front)
unfolding find_last_of
find_last_of-append [] name c h = ground (arith, find_last_of-Lacks name c h, ==_iff c c)
find_last_of-append (b ∷ front) name c h = ground (arith, find_last_of-append front name c h)

pub drop_front : (front rest : Bytes) (c : ℕ) → drop (length front + 1) (front ++ c ∷ rest) ≡ rest
drop_front [] rest c = refl
drop_front (b ∷ front) rest c = ground (arith, drop_front front rest c)

take_all : (s : Bytes) (n : ℕ) → n ≡ length s → take n s ≡ s
take_all [] zero h = refl
take_all [] (suc n) h = refl
take_all (b ∷ s) zero h = absurd (omega arith)
take_all (b ∷ s) (suc n) h = ap (◌∷◌ b) (take_all s n (omega arith))

behind_split :
    (front name old : Bytes) (c : ℕ) → behind (front ++ c ∷ name) old (some (length front)) ≡ name
behind_split front name old c =
    rw (drop_front front name c) (take_all name _ (omega (arith, length-append front (c ∷ name))))

-- How the file name relates to the path and to the old value of the output parameter.
pub data NameOf (path old : Bytes) : Bytes → Type 0 where
  after_slash :
      (front name : Bytes) → path ≡ front ++ slash ∷ name → Lacks slash name → NameOf path old name
  after_backslash :
      (front name : Bytes)
      → Lacks slash path
      → path ≡ front ++ backslash ∷ name
      → Lacks backslash name
      → NameOf path old name
  unchanged : Lacks slash path → Lacks backslash path → NameOf path old old

name_by_backslash :
    (path old : Bytes) {o : Option ℕ}
    → Lacks slash path
    → LastOf path backslash o
    → NameOf path old (behind path old o)
name_by_backslash path old h (missing k e) = rw e (unchanged h k)
name_by_backslash path old h (split front name s k e) =
    rw (e, s)
      (rw (behind_split front name old backslash) (after_backslash front name (rw s at h) refl k))

name_by_slash :
    (path old : Bytes) {o p : Option ℕ}
    → LastOf path slash o
    → LastOf path backslash p
    → NameOf path old (behind path old (or_else o p))
name_by_slash path old (missing k e) l = rw e (name_by_backslash path old k l)
name_by_slash path old (split front name s k e) l =
    rw (e, s) (rw (behind_split front name old slash) (after_slash front name refl k))

-- `GetFileName` gives what follows the last slash; without a slash, what follows the last
-- backslash; with neither, it leaves the output parameter as it was.
pub get_file_name-NameOf : (path old : Bytes) → NameOf path old (get_file_name path old)
unfolding get_file_name
get_file_name-NameOf path old =
    name_by_slash path old (find_last_of-LastOf path slash) (find_last_of-LastOf path backslash)

-- The suffix that `GetFileType` finds, and the old value where the path has no dot.
pub data SuffixOf (path old : Bytes) : Bytes → Type 0 where
  after_dot :
      (front suffix : Bytes)
      → path ≡ front ++ dot ∷ suffix
      → Lacks dot suffix
      → SuffixOf path old suffix
  no_dot : Lacks dot path → SuffixOf path old old

suffix_by_dot :
    (path old : Bytes) {o : Option ℕ} → LastOf path dot o → SuffixOf path old (behind path old o)
suffix_by_dot path old (missing k e) = rw e (no_dot k)
suffix_by_dot path old (split front name s k e) =
    rw (e, s) (rw (behind_split front name old dot) (after_dot front name refl k))

-- `GetFileType` of a path gives what follows the last dot, and leaves the output parameter as it
-- was where the path has no dot.
pub get_file_suffix-SuffixOf : (path old : Bytes) → SuffixOf path old (get_file_suffix path old)
unfolding get_file_suffix
get_file_suffix-SuffixOf path old = suffix_by_dot path old (find_last_of-LastOf path dot)

-- The content types that the cases of the `switch` name, one for each suffix.
abbrev pub named_type : Bytes → Bytes
named_type s =
    if bytes_eq s (codes "txt")
    then codes "plain/text;"
    else if bytes_eq s (codes "xml")
    then codes "text/xml;"
    else if bytes_eq s (codes "html")
    then codes "text/html;"
    else if bytes_eq s (codes "jpeg")
    then codes "image/jpeg;"
    else if bytes_eq s (codes "png")
    then codes "image/png;"
    else if bytes_eq s (codes "gif")
    then codes "image/gif;"
    else if bytes_eq s (codes "exe")
    then codes "application/x-msdownload;"
    else codes "application/octet-stream;"

-- `SetContentType` sets the type that the case of the suffix names, but for "html", which gets the
-- type of "jpeg"; it changes no other field.
pub set_content_type_lem :
    (stype : Bytes) (s : EmailSender)
    → set_content_type stype s ≡ record s {
      content_type =
          if bytes_eq stype (codes "html") then named_type (codes "jpeg") else named_type stype;
    }
unfolding set_content_type
set_content_type_lem stype s = elim (Bool-cases (bytes_eq stype (codes "html"))) [
  | inl hit ↦ rw (bytes_eq_sound stype (codes "html") hit) refl
  | inr miss ↦ ground arith
]
