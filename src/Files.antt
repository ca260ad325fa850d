-- ===== src/Files.antt =====
-- The files under /bbsfs as the sources reach them, by stdio and POSIX calls. A path is its bytes.
-- Which calls fail is not up to the program: `Io` answers for each call, from the files as they
-- are.
pub mod Laws
use esp_tnc.Prelude.{
  ℕ, ◌*◌, ◌/◌, Bool, true, false, Option, none, some, min, Bytes, str_eq, if◌then◌else◌, length,
  take, [],
}

abbrev pub Files : Type 0
Files = Bytes → Option Bytes

-- What the file system answers.
pub record Io : Type 0 where
  pub reads : Bytes → Files → Bool  -- fopen(path, "rb") of a file that is there
  pub writes : Bytes → Files → Bool  -- fopen(path, "wb")
  pub room : Bytes → Files → ℕ  -- the bytes that an fwrite to the opened path takes
  -- fclose of the path that was written: `none` is success, and after an error so many bytes of
  -- those that fwrite took are stored.
  pub closes : Bytes → Files → Option ℕ
  pub unlinks : Bytes → Files → Bool
  pub renames : Bytes → Bytes → Files → Bool

unfoldable pub put_file : Files → Bytes → Option Bytes → Files
put_file fs p d q = if str_eq p q then d else fs q

-- fopen(path, "rb") and what can be read from it.
unfoldable pub open_read : Io → Files → Bytes → Option Bytes
open_read io fs p = if io.reads p fs then fs p else none

-- fopen(path, "wb"): `none` is a NULL handle. The file is cut to no bytes.
unfoldable pub open_write : Io → Files → Bytes → Option Files
open_write io fs p = if io.writes p fs then some (put_file fs p (some [])) else none

-- What an fclose leaves of the bytes that fwrite took.
abbrev pub after_close : Option ℕ → Bytes → Bytes
after_close none d = d
after_close (some k) d = take k d

-- fwrite of `d` to the opened, empty file, then fclose, whose result no caller looks at: the files,
-- and how many bytes fwrite took.
unfoldable pub write_all : Io → Files → Bytes → Bytes → Files × ℕ
write_all io fs p d =
    let n = min (io.room p fs) (length d) in
    let closed = io.closes p (put_file fs p (some (take n d))) in
    (put_file fs p (some (after_close closed (take n d))), n)

unfoldable pub unlink : Io → Files → Bytes → Files
unlink io fs p = if io.unlinks p fs then put_file fs p none else fs

-- rename(from, to) == 0 gives the files after; `none` is a failure, which changes nothing.
unfoldable pub rename : Io → Files → Bytes → Bytes → Option Files
rename io fs from to =
    if io.renames from to fs then some (put_file (put_file fs to (fs from)) from none) else none
