-- ===== src/MachoUtil/Tests.antt =====
-- A run of kext.subproj/macho_util.c on a file with one load command, and the theorem at it.
use iokit_user.Prelude.{
  [], false, ◌==◌, if◌then◌else◌, refl, replicate, Bool, none, ◌∷◌, Option, ◌++◌, ℕ, ◌≡◌, some,
  List,
}
use iokit_user.FatUtil.{bytes_at, big_value}
use iokit_user.MachoUtil.{
  seek_found, MachFormats, cmdsize_mult, word_at, commands_at, after_callback, scan_command,
  scan_commands, scan_within, scan_kind, scan_load_commands, uuid_command, uuid_callback, find_uuid,
}

abbrev kind_of : List ℕ → Option (Bool × Bool)
kind_of [] = none
kind_of (b ∷ bytes) = if b == 206 then some (false, false) else none

abbrev formats : MachFormats
formats = record {
  kind_of = kind_of;
  host_word = big_value 0;
  header_size = 28;
  header_size_64 = 32;
  ncmds_at = 16;
  sizeofcmds_at = 20;
  cmd_at = 0;
  cmdsize_at = 4;
  lc_uuid = 27;
  uuid_at = 8;
}

abbrev header : ℕ → ℕ → List ℕ
header num_cmds sizeofcmds =
    206 ∷ 250 ∷ 237 ∷ 254 ∷ replicate 12 0
    ++ 0 ∷ 0 ∷ 0 ∷ num_cmds ∷ 0 ∷ 0 ∷ 0 ∷ sizeofcmds ∷ replicate 4 0

-- A header of 28 bytes, and a command with a UUID.
abbrev with_uuid : List ℕ
with_uuid = header 1 24 ++ 0 ∷ 0 ∷ 0 ∷ 27 ∷ 0 ∷ 0 ∷ 0 ∷ 24 ∷ replicate 16 9

-- A command that its number promises, but that the file has no room for, is read all the same.
reads_behind : find_uuid formats (header 1 0) ≡ none
unfolding find_uuid scan_load_commands scan_kind scan_within scan_commands scan_command
    after_callback uuid_callback uuid_command word_at commands_at cmdsize_mult bytes_at big_value
reads_behind = refl

-- A command with no room for a UUID: the pointer is to the end of the file.
found_without_room :
    find_uuid formats (header 1 8 ++ 0 ∷ 0 ∷ 0 ∷ 27 ∷ 0 ∷ 0 ∷ 0 ∷ 8 ∷ [])
    ≡ some (seek_found, some 36)
unfolding find_uuid scan_load_commands scan_kind scan_within scan_commands scan_command
    after_callback uuid_callback uuid_command word_at commands_at cmdsize_mult bytes_at big_value
found_without_room = refl
