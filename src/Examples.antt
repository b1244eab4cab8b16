-- ===== src/Examples.antt =====
-- Concrete inputs for the theorems: a machine, a compiled module and archives; the tests and the
-- theorems at work on them stand in the children.
mod Values
mod Streams
mod Archives
mod Batches
mod Asyncs
mod Overlaps
mod Printed
mod Sessions
mod Slices
use newtua_py.Base.{
  ℕ, zero, suc, ◌+◌, ◌<◌, ◌≡◌, refl, String, ◌<>◌, text_eq, text_eq_iff, Bool, true, false, Option,
  none, some, List, [], ◌∷◌, arith, if◌then◌else◌,
}
use newtua_py.Base.Int.{ℤ, pos}
use newtua_py.Errors.{
  Exc, Result, ok, err, new, raised, class_of, is_time_error, value_error, other, text,
}
use newtua_py.Exec.{Exec}
use newtua_py.Events.{RawEvent, Callback}
use newtua_py.Listing.{Bytes, RawEntry}
use newtua_py.Listing.Build.{Documented}
use newtua_py.Stream.Store.{Spooled, write}
use newtua_py.Host.{Disk, exists}
use newtua_py.Engine.{Report, ExtractArgs, Engine, posix, Platform, NewNames, DeletesNothing}
use Prim.Native.String

-- Times up to 1000 seconds, in microseconds; any other is out of range.
abbrev pub stamps : ℕ → Result ℤ
stamps zero = err (new value_error "year is out of range")
stamps (suc n) = ok (pos n)

pub stamps-Documented : Documented stamps
unfolding is_time_error
stamps-Documented zero exc h = ground arith
stamps-Documented (suc n) exc h = cc

-- A name longer than all the names on the disk together is none of them.
abbrev text_length : String → ℕ
text_length String.[] = 0
text_length (String.◌∷◌ c s) = suc (text_length s)

abbrev long_name : ℕ → String
long_name zero = "t"
long_name (suc n) = String.◌∷◌ "t" (long_name n)

abbrev total_length : Disk → ℕ
total_length [] = 0
total_length ((q, _) ∷ d) = text_length q + total_length d

length-long_name : (n : ℕ) → text_length (long_name n) ≡ suc n
length-long_name zero = refl
length-long_name (suc n) = omega (arith, length-long_name n)

longer_is_new : (p : String) (d : Disk) → total_length d < text_length p → exists p d ≡ false
unfolding exists
longer_is_new p [] h = refl
longer_is_new p ((q, b) ∷ d) h =
    let rest = longer_is_new p d (omega arith) in ground (arith, text_eq_iff q p)

abbrev pub machine : Platform
machine = record {
  os_name = posix;
  is_win32 = false;
  path_text = λ p. p;
  temp_name = λ d. long_name (total_length d);
  fromtimestamp = stamps;
}

pub machine-NewNames : NewNames machine
machine-NewNames d =
    longer_is_new (long_name (total_length d)) d (omega (arith, length-long_name (total_length d)))

abbrev pub raw_entry : String → Bytes → ℕ → RawEntry
raw_entry path raw_name size = record {
  path = path;
  raw_name = raw_name;
  kind = "file";
  size = size;
  is_encrypted = false;
  mode = none;
  mtime = some 7;
}

abbrev pub engine_error : Exc
engine_error = raised (other "NewtuaError") "corrupt archive" (text "corrupt")

-- An engine that opens with the password "x" only, and lists three entries, two of one name.
abbrev opened_with : Option String → Result (Unit {0})
opened_with none = err (raised (other "NewtuaError") "password required" (text "encrypted"))
opened_with (some p) =
    if text_eq p "x"
    then ok tt
    else err (raised (other "NewtuaError") "wrong password" (text "wrong_password"))

abbrev called : {U : Type 0} → Option (Callback U RawEvent) → U → U
called none u = u
called (some callback) u =
    (callback (record { event = "start"; index = 0; path = some "a"; written = 0; size = 3 }) u).1

abbrev pub engine : Engine
engine = record {
  Reader = Unit;
  open_archive = λ d p password encoding. opened_with password;
  entries = λ r.
      raw_entry "a" (97 ∷ []) 3
      ∷ raw_entry "b/./c" (98 ∷ 47 ∷ 99 ∷ []) 0
      ∷ raw_entry "a" (97 ∷ []) 1
      ∷ [];
  format = λ r. "zip";
  detected_encoding = λ r. "utf-8";
  read = λ r d i. ok (1 ∷ 2 ∷ 3 ∷ []);
  write_entry_to = λ r d i f. (ok tt, write (1 ∷ 2 ∷ 3 ∷ []) f);
  open_stream = λ r d i. ok (1 ∷ 2 ∷ 3 ∷ []);
  open_stream_windows = λ r d i. err engine_error;
  extract = λ U r args callback. λ (d, u). (
    ok (record { extracted = 1; failed = 0; aborted = false }),
    ((args.dest, 1 ∷ 2 ∷ 3 ∷ []) ∷ d, called callback u),
  );
}

pub engine-DeletesNothing : DeletesNothing engine
unfolding exists
engine-DeletesNothing U reader args callback d u path h = ground arith
