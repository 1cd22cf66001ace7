-- ===== src/Fs/Uploads.antt =====
-- The file descriptors of SFTP uploads (cowrie/src/cowrie/shell/fs.py, open and close). The files of the host, the
-- number of a descriptor and the digest of an upload are parameters.
use honeybee_potstore.Base.{
  ℕ, ◌/◌, ◌%◌, Bool, true, ◌||◌, Option, none, some, Result, ok, err, key_error, type_error, ◌==◌,
  if◌then◌else◌,
}
use honeybee_potstore.Base.Text.{Text}
use honeybee_potstore.Base.Dict.{Dict, lookup, insert, erase, nat_eq}
use honeybee_potstore.Fs.Node.{Position}
use honeybee_potstore.Fs.Changes.{FileSystem, Change, ◌>>=◌, ◌>>◌, fail, change_node, find, mkfile}
use honeybee_potstore.Fs.Attributes.{Host, bit_or, update_realfile}

-- The file system with its open descriptors: the file of the host behind each, and its name.
pub record Open : Type 0 where
  pub system : FileSystem
  pub tempfiles : Dict ℕ Text
  pub filenames : Dict ℕ Text

-- `O_WRONLY` or `O_RDWR`: the lowest two bits.
unfoldable pub is_write : ℕ → Bool
is_write flags = (flags % 2 == 1) || (flags / 2 % 2 == 1)

-- `update_realfile(None, …)` reads an item of None.
unfoldable pub real_or_raise : Host → Text → Option Position → Change (Unit {0})
real_or_raise h realfile none = fail type_error
real_or_raise h realfile (some p) = change_node p (update_realfile h realfile)

-- The new node, with the type of a regular file in its mode, and its real file.
unfoldable pub new_upload : Host → Text → Text → ℕ → ℕ → Change (Unit {0})
new_upload h hostfile filename mode ctime =
    mkfile filename 0 0 0 (bit_or 32 32768 mode) ctime
    >> (find true filename >>= real_or_raise h hostfile)

abbrev pub opened :
    ℕ → Text → Text → Open → Result (Unit {0}) × FileSystem → Result (Option ℕ) × Open
opened fd hostfile filename o (err e, s) = (err e, record o { system = s })
opened fd hostfile filename o (ok u, s) = (
  ok (some fd),
  record {
    system = s;
    tempfiles = insert fd hostfile o.tempfiles;
    filenames = insert fd filename o.filenames;
  },
)

-- Nothing is opened for reading.
unfoldable pub open_file : Host → ℕ → Text → Text → ℕ → ℕ → ℕ → Open → Result (Option ℕ) × Open
open_file h fd hostfile filename flags mode ctime o =
    if is_write flags
    then opened fd hostfile filename o (new_upload h hostfile filename mode ctime o.system)
    else (ok none, o)

abbrev pub closed : ℕ → Open → Result (Unit {0}) × FileSystem → Result (Unit {0}) × Open
closed fd o (err e, s) = (err e, record o { system = s })
closed fd o (ok u, s) = (
  ok tt,
  record { system = s; tempfiles = erase fd o.tempfiles; filenames = erase fd o.filenames },
)

-- The node of the upload keeps the real file that it has, so that the digest is not written to it.
unfoldable pub close_named : Host → ℕ → Text → Open → Option Text → Result (Unit {0}) × Open
close_named h fd shasumfile o none = (err key_error, o)
close_named h fd shasumfile o (some filename) =
    closed fd o ((find true filename >>= real_or_raise h shasumfile) o.system)

-- Descriptor 0 is taken for none.
unfoldable pub close : Host → ℕ → Text → Open → Result (Unit {0}) × Open
close h fd shasumfile o = if fd == 0 then (ok tt, o) else elim (lookup fd o.tempfiles) [
  | none ↦ (err key_error, o)
  | some tempfile ↦ close_named h fd shasumfile o (lookup fd o.filenames)
]
