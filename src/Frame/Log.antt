-- ===== src/Frame/Log.antt =====
-- common/log.cpp: `setLevel` and `init`. The flags of the glog library are the fields of a record.
use home_keeper.Prelude.{
  ap, ◌∙◌, false, ◌+◌, ◌++◌, List, [], ◌∷◌, refl, ℕ, Bool, true, Option, none, some, ◌≡◌, ◌⊎◌,
  if◌then◌else◌, arith, Bytes, codes, bytes_eq, ℤ, pos, negsuc,
}

-- The flags that the program sets, the destinations by their severity, how often the library was
-- initialised, and the member `flag`.
pub record Log : Type 0 where
  pub stderrthreshold : ℕ
  pub minloglevel : ℕ
  pub logbufsecs : ℕ
  pub logtostderr : Bool
  pub alsologtostderr : Bool
  pub colorlogtostderr : Bool
  pub destinations : List (ℕ × Bytes)
  pub initialised : ℕ
  pub flag : Bool

-- `setLevel`; `none` is the end of the process, which LOG(FATAL) brings about.
unfoldable pub set_level : Bytes → Log → Option Log
set_level msg l =
    if bytes_eq msg (codes "INFO")
    then some (record l { stderrthreshold = 0 })
    else if bytes_eq msg (codes "WARN")
    then some (record l { stderrthreshold = 1 })
    else if bytes_eq msg (codes "ERROR")
    then some (record l { stderrthreshold = 2 })
    else if bytes_eq msg (codes "FATAL")
    then none
    else some l

-- The calls of `SetLogDestination`.
abbrev pub destinations_of : Bytes → List (ℕ × Bytes)
destinations_of name =
    (0, name ++ codes "info-")
    ∷ (1, name ++ codes "warn-")
    ∷ (2, name ++ codes "error-")
    ∷ (3, name ++ codes "fatal-")
    ∷ []

-- What `init` sets once it has a path and a level.
abbrev pub set_up : Bytes → ℕ → Log → Log
set_up name level l = record {
  stderrthreshold = level;
  minloglevel = level;
  logbufsecs = 0;
  logtostderr = false;
  alsologtostderr = false;
  colorlogtostderr = true;
  destinations = destinations_of name;
  initialised = l.initialised + 1;
  flag = true;
}

-- The variable LOG_LEVEL, as `atoi` reads it.
abbrev pub level_of : (Bytes → ℕ) → Option Bytes → ℕ
level_of atoi none = 0
level_of atoi (some text) = atoi text

-- `init`, by the variables PUBSUB_LOG_PATH and LOG_LEVEL and the value that `atoi` reads.
unfoldable pub init : Option Bytes → Option Bytes → (Bytes → ℕ) → Log → ℤ × Log
init path level atoi l = if l.flag then (pos 0, l) else elim path [
  | none ↦ (negsuc 0, l)
  | some name ↦ (pos 0, set_up name (level_of atoi level) l)
]

-- `init` is done once: after a success a further call changes nothing, whatever the environment;
-- without the path it fails and changes nothing.
pub init_once :
    (path path' level level' : Option Bytes) (atoi : Bytes → ℕ) (l : Log)
    → let l' = (init path level atoi l).1 in
      ((init path level atoi l).0 ≡ pos 0) × (init path' level' atoi l' ≡ (pos 0, l'))
      ⊎ ((init path level atoi l).0 ≡ negsuc 0) × (l' ≡ l) × (path ≡ none)
unfolding init
init_once none path' level level' atoi l = ground arith
init_once (some p) path' level level' atoi l = ground arith

-- Calls of `init`, each with the variables that it finds.
pub init_all : (Bytes → ℕ) → List (Option Bytes × Option Bytes) → Log → Log
init_all atoi [] l = l
init_all atoi ((path, level) ∷ calls) l = init_all atoi calls (init path level atoi l).1

init_all-flag :
    (atoi : Bytes → ℕ) (calls : List (Option Bytes × Option Bytes)) (l : Log)
    → l.flag ≡ true
    → init_all atoi calls l ≡ l
unfolding init_all init
init_all-flag atoi [] l f = refl
init_all-flag atoi ((path, level) ∷ calls) l f =
    let same : (init path level atoi l).1 ≡ l = ground (arith, f) in
    ap (init_all atoi calls) same ∙ init_all-flag atoi calls l f

-- The log behind the first call that finds a path.
abbrev pub first_path : (Bytes → ℕ) → List (Option Bytes × Option Bytes) → Log → Log
first_path atoi [] l = l
first_path atoi ((none, level) ∷ calls) l = first_path atoi calls l
first_path atoi ((some name, level) ∷ calls) l = set_up name (level_of atoi level) l

-- Of any calls of `init`, the first that finds the variable PUBSUB_LOG_PATH initialises the library, and
-- no other call has an effect: the library is initialised once at most.
pub init_all_lem :
    (atoi : Bytes → ℕ) (calls : List (Option Bytes × Option Bytes)) (l : Log)
    → l.flag ≡ false
    → init_all atoi calls l ≡ first_path atoi calls l
unfolding init_all init
init_all_lem atoi [] l f = refl
init_all_lem atoi ((none, level) ∷ calls) l f =
    let same : (init none level atoi l).1 ≡ l = ground (arith, f) in
    ap (init_all atoi calls) same ∙ init_all_lem atoi calls l f
init_all_lem atoi ((some name, level) ∷ calls) l f =
    let l' = set_up name (level_of atoi level) l in
    let new : (init (some name) level atoi l).1 ≡ l' = ground (arith, f) in
    ap (init_all atoi calls) new ∙ init_all-flag atoi calls l' refl
