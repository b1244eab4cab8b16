-- ===== src/Enums.antt =====
-- The string enumerations (`StrEnum`): python/newtua/_format.py, `EntryKind` of
-- python/newtua/_entry.py and `EventKind` of python/newtua/_events.py.
pub mod Laws
use newtua_py.Base.{String, text_eq, ◌<>◌, Option, none, some, List, [], ◌∷◌, if◌then◌else◌}
use newtua_py.Errors.{Result, ok, err, new, value_error}

-- The member that has a value, as the call `E(value)` of an enumeration looks it up.
abbrev pub member_of {ℓ} : {A : Type ℓ} → (A → String) → List A → String → Option A
member_of value [] s = none
member_of value (x ∷ xs) s = if text_eq (value x) s then some x else member_of value xs s

-- `E(value)`, which raises `ValueError` for a value that no member has.
abbrev pub enum_call : {A : Type 0} → (A → String) → List A → String → String → Result A
enum_call value members name s = elim (member_of value members s) [
  | none ↦ err (new value_error ("'" <> s <> "' is not a valid " <> name))
  | some x ↦ ok x
]

pub data Format : Type 0 where
  alz apfs apk appimage applesingle ar arc arj binhex bzip2 cab : Format
  compactpro conda cpio crunch crx deb dmg dms docx epub gzip : Format
  hfsplus ipa iso jar lbr lzx macbinary msi nsis odp ods : Format
  odt packit powerpacker pptx rar raw rpm sevenz sfx squashfs squeeze : Format
  stuffit stuffit5 stuffitx tar warc wim xar xlsx xz zip zoo : Format

unfoldable pub format_value : Format → String
format_value alz = "alz"
format_value apfs = "apfs"
format_value apk = "apk"
format_value appimage = "appimage"
format_value applesingle = "applesingle"
format_value ar = "ar"
format_value arc = "arc"
format_value arj = "arj"
format_value binhex = "binhex"
format_value bzip2 = "bzip2"
format_value cab = "cab"
format_value compactpro = "compactpro"
format_value conda = "conda"
format_value cpio = "cpio"
format_value crunch = "crunch"
format_value crx = "crx"
format_value deb = "deb"
format_value dmg = "dmg"
format_value dms = "dms"
format_value docx = "docx"
format_value epub = "epub"
format_value gzip = "gzip"
format_value hfsplus = "hfsplus"
format_value ipa = "ipa"
format_value iso = "iso"
format_value jar = "jar"
format_value lbr = "lbr"
format_value lzx = "lzx"
format_value macbinary = "macbinary"
format_value msi = "msi"
format_value nsis = "nsis"
format_value odp = "odp"
format_value ods = "ods"
format_value odt = "odt"
format_value packit = "packit"
format_value powerpacker = "powerpacker"
format_value pptx = "pptx"
format_value rar = "rar"
format_value raw = "raw"
format_value rpm = "rpm"
format_value sevenz = "7z"
format_value sfx = "sfx"
format_value squashfs = "squashfs"
format_value squeeze = "squeeze"
format_value stuffit = "stuffit"
format_value stuffit5 = "stuffit5"
format_value stuffitx = "stuffitx"
format_value tar = "tar"
format_value warc = "warc"
format_value wim = "wim"
format_value xar = "xar"
format_value xlsx = "xlsx"
format_value xz = "xz"
format_value zip = "zip"
format_value zoo = "zoo"

-- The members in the order of the class body.
abbrev pub formats : List Format
formats =
    alz ∷ apfs ∷ apk ∷ appimage ∷ applesingle ∷ ar ∷ arc ∷ arj ∷ binhex ∷ bzip2 ∷ cab ∷ compactpro
    ∷ conda ∷ cpio ∷ crunch ∷ crx ∷ deb ∷ dmg ∷ dms ∷ docx ∷ epub ∷ gzip ∷ hfsplus ∷ ipa ∷ iso ∷ jar
    ∷ lbr ∷ lzx ∷ macbinary ∷ msi ∷ nsis ∷ odp ∷ ods ∷ odt ∷ packit ∷ powerpacker ∷ pptx ∷ rar ∷ raw
    ∷ rpm ∷ sevenz ∷ sfx ∷ squashfs ∷ squeeze ∷ stuffit ∷ stuffit5 ∷ stuffitx ∷ tar ∷ warc ∷ wim
    ∷ xar ∷ xlsx ∷ xz ∷ zip ∷ zoo ∷ []

-- `Format(value)`
unfoldable pub format_of : String → Result Format
unfolding format_value
format_of = enum_call format_value formats "Format"

pub data EntryKind : Type 0 where
  file dir symlink : EntryKind

abbrev pub entry_kind_value : EntryKind → String
entry_kind_value file = "file"
entry_kind_value dir = "dir"
entry_kind_value symlink = "symlink"

-- `EntryKind(value)`
unfoldable pub entry_kind_of : String → Result EntryKind
entry_kind_of = enum_call entry_kind_value (file ∷ dir ∷ symlink ∷ []) "EntryKind"

pub data EventKind : Type 0 where
  started bytes finished : EventKind

abbrev pub event_kind_value : EventKind → String
event_kind_value started = "start"
event_kind_value bytes = "bytes"
event_kind_value finished = "done"

-- `EventKind(value)`
unfoldable pub event_kind_of : String → Result EventKind
event_kind_of = enum_call event_kind_value (started ∷ bytes ∷ finished ∷ []) "EventKind"
