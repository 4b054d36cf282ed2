-- ===== src/MachoUtil.antt =====
-- The scan of the load commands of a Mach-O file in kext.subproj/macho_util.c, and the search for its UUID. A
-- pointer into the file is its distance from the start of the file; a read outside the file is `none`.
pub mod Scan
mod Tests
use iokit_user.Prelude.{
  zero, ◌||◌, ◌%◌, not, ◌==◌, ltb, length, suc, ◌+◌, false, if◌then◌else◌, ◌>>=◌, none, some, true,
  Option, ℕ, Bool, List,
}
use iokit_user.FatUtil.{bytes_at, swapped}

-- `macho_seek_result`
pub data SeekResult : Type 0 where
  seek_error : SeekResult
  seek_found : SeekResult
  seek_found_no_value : SeekResult
  seek_not_found : SeekResult
  seek_stop : SeekResult

-- What the headers of the system say of the format.
pub record MachFormats : Type 0 where
  -- Whether the four bytes of a magic number are those of 64 bits, and whether they are swapped; none for
  -- other bytes.
  pub kind_of : List ℕ → Option (Bool × Bool)
  -- The value of four bytes in the host's order.
  pub host_word : List ℕ → ℕ
  -- `struct mach_header` and `struct mach_header_64`
  pub header_size : ℕ
  pub header_size_64 : ℕ
  pub ncmds_at : ℕ
  pub sizeofcmds_at : ℕ
  -- `struct load_command` and `struct uuid_command`
  pub cmd_at : ℕ
  pub cmdsize_at : ℕ
  pub lc_uuid : ℕ
  pub uuid_at : ℕ

-- `CMDSIZE_MULT_64` and `CMDSIZE_MULT_32`
pub cmdsize_mult : Bool → ℕ
cmdsize_mult true = 8
cmdsize_mult false = 4

module _ (f : MachFormats) where
  -- `CondSwapInt32` of a field.
  pub word_at : Bool → List ℕ → ℕ → Option ℕ
  word_at swap file p = do
    bytes ← bytes_at file p 4
    some (f.host_word (if swap then swapped bytes else bytes))

  -- `load_commands`
  pub commands_at : Bool → ℕ
  commands_at true = f.header_size_64
  commands_at false = f.header_size

  -- The callback gets the place of a command and `swap`; `user_data` is a state.
  module _ {S : Type 0} (callback : ℕ → Bool → S → Option (SeekResult × S)) where
    -- The switch on the callback's result; the last argument goes on with the loop.
    pub after_callback : SeekResult → S → Option (SeekResult × S) → Option (SeekResult × S)
    after_callback seek_not_found s rest = rest
    after_callback seek_stop s rest = some (seek_not_found, s)
    after_callback seek_found s rest = some (seek_found, s)
    after_callback seek_found_no_value s rest = some (seek_error, s)
    after_callback seek_error s rest = some (seek_error, s)

    -- The test of a command, and the callback; the last argument goes on with the loop.
    pub scan_command :
        Bool → ℕ → ℕ → ℕ → ℕ → S → (S → Option (SeekResult × S)) → Option (SeekResult × S)
    scan_command swap mult cmds_end p size s go_on =
        if not (size % mult == 0) || ltb cmds_end (p + size)
        then some (seek_error, s)
        else do (result, s') ← callback p swap s; after_callback result s' (go_on s')

    -- The loop, with the number of commands that are left.
    pub scan_commands : Bool → ℕ → List ℕ → ℕ → ℕ → ℕ → S → Option (SeekResult × S)
    scan_commands swap mult file cmds_end zero p s = some (seek_not_found, s)
    scan_commands swap mult file cmds_end (suc n) p s = do
      size ← word_at swap file (p + f.cmdsize_at)
      scan_command swap mult cmds_end p size s (scan_commands swap mult file cmds_end n (p + size))

    -- The test of the end of the commands, and the loop.
    pub scan_within : Bool → Bool → List ℕ → ℕ → ℕ → S → Option (SeekResult × S)
    scan_within is_64 swap file num_cmds sizeofcmds s =
        if ltb (length file) (commands_at is_64 + sizeofcmds)
        then some (seek_error, s)
        else scan_commands swap (cmdsize_mult is_64) file (commands_at is_64 + sizeofcmds) num_cmds
            (commands_at is_64) s

    pub scan_kind : Option (Bool × Bool) → List ℕ → S → Option (SeekResult × S)
    scan_kind none file s = some (seek_error, s)
    scan_kind (some (is_64, swap)) file s =
        if length file == 0 || ltb (length file) (commands_at is_64)
        then some (seek_error, s)
        else do
          num_cmds ← word_at swap file f.ncmds_at
          sizeofcmds ← word_at swap file f.sizeofcmds_at
          scan_within is_64 swap file num_cmds sizeofcmds s

    -- `macho_scan_load_commands`
    pub scan_load_commands : List ℕ → S → Option (SeekResult × S)
    scan_load_commands file s = do magic ← bytes_at file 0 4; scan_kind (f.kind_of magic) file s

  -- A command with the UUID, which must be inside the file.
  pub uuid_command : List ℕ → ℕ → Option ℕ → Option (SeekResult × Option ℕ)
  uuid_command file p uuid = do
    cmdsize ← word_at false file (p + f.cmdsize_at)
    some (
        if ltb (length file) (p + cmdsize)
        then (seek_error, uuid)
        else (seek_found, some (p + f.uuid_at)))

  -- `__uuid_callback`, which does not look at `swap`; the state is the pointer `uuid`.
  pub uuid_callback : List ℕ → ℕ → Bool → Option ℕ → Option (SeekResult × Option ℕ)
  uuid_callback file p swap uuid = do
    cmd ← word_at false file (p + f.cmd_at)
    if cmd == f.lc_uuid then uuid_command file p uuid else some (seek_not_found, uuid)

  -- `macho_find_uuid`, with the structure that the scan fills; a place for the result is given.
  pub find_uuid : List ℕ → Option (SeekResult × Option ℕ)
  find_uuid file = scan_load_commands (uuid_callback file) file none
