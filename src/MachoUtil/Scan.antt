-- ===== src/MachoUtil/Scan.antt =====
-- What the scan of kext.subproj/macho_util.c hands to its callback, and what the search for a UUID finds.
use mathlib.Core.Path.{subst}
use iokit_user.Prelude.{
  none, ◌>>=◌, arith, >>=-eq-some, ◌||◌, ◌==◌, ◌%◌, not, Bool-cases, false, ltb, some_inj, ap, zero,
  suc, inr, length, inl, ◌⊎◌, ◌≤◌, some, ◌≡◌, ◌+◌, Option, Bool, List, ℕ,
}
use iokit_user.FatUtil.{bytes_at}
use iokit_user.MachoUtil.{
  scan_command, SeekResult, seek_error, seek_found, seek_found_no_value, seek_not_found, seek_stop,
  MachFormats, cmdsize_mult, word_at, commands_at, after_callback, scan_commands, scan_within,
  scan_kind, scan_command, scan_load_commands,
}

-- A load command inside the file: where it stands, and its size.
pub record Command (f : MachFormats) (file : List ℕ) (swap : Bool) (p : ℕ) : Type 0 where
  pub size : ℕ
  pub size_read : word_at f swap file (p + f.cmdsize_at) ≡ some size
  pub inside : p + size ≤ length file

module _ (f : MachFormats) {S : Type 0} (callback : ℕ → Bool → S → Option (SeekResult × S))
    (file : List ℕ) (P : S → Type 0) (R : SeekResult → S → Type 0)
    (returns : (p : ℕ) (swap : Bool) (s s' : S) (result : SeekResult)
      → Command f file swap p
      → P s
      → callback p swap s ≡ some (result, s')
      → R result s')
    (goes_on : (s : S) → R seek_not_found s → P s) where
  after_callback-found :
      (result : SeekResult) (s s' : S) (rest : Option (SeekResult × S))
      → R result s
      → after_callback f callback result s rest ≡ some (seek_found, s')
      → (P s × (rest ≡ some (seek_found, s'))) ⊎ R seek_found s'
  unfolding after_callback
  after_callback-found seek_error s s' rest r e = cc
  after_callback-found seek_found_no_value s s' rest r e = cc
  after_callback-found seek_stop s s' rest r e = cc
  after_callback-found seek_not_found s s' rest r e = inl (goes_on s r, e)
  after_callback-found seek_found s s' rest r e =
      inr (subst (R seek_found) (ap (λ (x : SeekResult × S). x.1) (some_inj e)) r)

  scan_command-found :
      (swap : Bool) (mult cmds_end p size : ℕ) (s s' : S) (go_on : S → Option (SeekResult × S))
      → cmds_end ≤ length file
      → word_at f swap file (p + f.cmdsize_at) ≡ some size
      → P s
      → ((s1 : S) → P s1 → go_on s1 ≡ some (seek_found, s') → R seek_found s')
      → scan_command f callback swap mult cmds_end p size s go_on ≡ some (seek_found, s')
      → R seek_found s'
  unfolding scan_command
  scan_command-found swap mult cmds_end p size s s' go_on l read i h e =
      elim (Bool-cases (not (size % mult == 0) || ltb cmds_end (p + size))) [
        | inl q ↦ refused (rw q at e)
        | inr q ↦
            let ((result, s1), call, next) =
              >>=-eq-some (callback p swap s)
                (λ (x : SeekResult × S). after_callback f callback x.0 x.1 (go_on x.1))
                (rw q at e) in
            let command : Command f file swap p = record {
              size = size;
              size_read = read;
              inside = ground (arith, q, l);
            } in
            elim (after_callback-found result s1 s' (go_on s1)
              (returns p swap s s1 result command i call) next) [
                | inl (j, rest) ↦ h s1 j rest
                | inr r ↦ r
              ]
      ]
    where
      refused :
          ◌≡◌ {A = Option (SeekResult × S)} (some (seek_error, s)) (some (seek_found, s'))
          → R seek_found s'
      refused e = cc

  scan_commands-found :
      (swap : Bool) (mult cmds_end n p : ℕ) (s s' : S)
      → cmds_end ≤ length file
      → P s
      → scan_commands f callback swap mult file cmds_end n p s ≡ some (seek_found, s')
      → R seek_found s'
  unfolding scan_commands
  scan_commands-found swap mult cmds_end zero p s s' h i e = cc
  scan_commands-found swap mult cmds_end (suc n) p s s' h i e =
      let (size, read, rest) =
        >>=-eq-some (word_at f swap file (p + f.cmdsize_at))
          (λ size.
            scan_command f callback swap mult cmds_end p size s
              (scan_commands f callback swap mult file cmds_end n (p + size)))
          e in
      scan_command-found swap mult cmds_end p size s s' _ h read i
        (λ s1 j r. scan_commands-found swap mult cmds_end n (p + size) s1 s' h j r) rest

  scan_kind-found :
      (kind : Option (Bool × Bool)) (s s' : S)
      → P s
      → scan_kind f callback kind file s ≡ some (seek_found, s')
      → R seek_found s'
  unfolding scan_kind scan_within
  scan_kind-found none s s' i e = cc
  scan_kind-found (some (is_64, swap)) s s' i e =
      elim (Bool-cases (length file == 0 || ltb (length file) (commands_at f is_64))) [
        | inl q ↦ refused (rw q at e)
        | inr q ↦
            let (n, read_n, rest) =
              >>=-eq-some (word_at f swap file f.ncmds_at)
                (λ n. word_at f swap file f.sizeofcmds_at >>= λ m.
                  scan_within f callback is_64 swap file n m s)
                (rw q at e) in
            let (m, read_m, last) =
              >>=-eq-some (word_at f swap file f.sizeofcmds_at)
                (λ m. scan_within f callback is_64 swap file n m s) rest in
            elim (Bool-cases (ltb (length file) (commands_at f is_64 + m))) [
              | inl p ↦ refused (rw p at last)
              | inr p ↦
                  scan_commands-found swap (cmdsize_mult is_64) (commands_at f is_64 + m) n
                    (commands_at f is_64) s s' (ground (arith, p)) i (rw p at last)
            ]
      ]
    where
      refused :
          ◌≡◌ {A = Option (SeekResult × S)} (some (seek_error, s)) (some (seek_found, s'))
          → R seek_found s'
      refused e = cc

  -- What holds of the results of the callback, if it is handed commands that are inside the file, holds of the
  -- state in which a scan has found something.
  pub scan_load_commands-found :
      (s s' : S)
      → P s
      → scan_load_commands f callback file s ≡ some (seek_found, s')
      → R seek_found s'
  unfolding scan_load_commands
  scan_load_commands-found s s' i e =
      let (magic, read, rest) =
        >>=-eq-some (bytes_at file 0 4) (λ magic. scan_kind f callback (f.kind_of magic) file s)
          e in
      scan_kind-found (f.kind_of magic) s s' i rest

-- A command that says that it has the UUID: where it stands in the scan, and what `__uuid_callback` reads
-- of it, which does not look at `swap`.
pub record UuidCommand (f : MachFormats) (file : List ℕ) (uuid : Option ℕ) : Type 0 where
  pub place : ℕ
  pub swap : Bool
  pub command : Command f file swap place
  pub cmdsize : ℕ
  pub is_uuid : word_at f false file (place + f.cmd_at) ≡ some f.lc_uuid
  pub cmdsize_read : word_at f false file (place + f.cmdsize_at) ≡ some cmdsize
  pub ends_inside : place + cmdsize ≤ length file
  pub found : uuid ≡ some (place + f.uuid_at)

-- The sixteen bytes of the UUID are inside the command that has it.
pub record UuidInside (f : MachFormats) (file : List ℕ) (uuid : Option ℕ) : Type 0 where
  pub has : UuidCommand f file uuid
  pub inside_command : f.uuid_at + 16 ≤ has.cmdsize
  pub inside_file : has.place + f.uuid_at + 16 ≤ length file
